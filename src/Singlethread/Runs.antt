-- ===== src/Singlethread/Runs.antt =====
-- Programs of test/10-singlethread on a FIFO find what they find on the queue.
use mulle_fifo.Common.{ℕ, ◌<◌, ◌≡◌, refl, List, [], ◌∷◌, ok, ◌>>=◌}
use mulle_fifo.Queue.{Queue}
use mulle_fifo.Queue.Replies.{Call, write_call, read_call, count_call}
use mulle_fifo.Ring.{Ring, IsRing}
use mulle_fifo.Ring.Contents.{get_count-Holds}
use mulle_fifo.Ring.Sequential.{Represents, read, write, write_refines, read_refines}
use mulle_fifo.Singlethread.{Statement, statement_call, note, Tally, perform, execute}
use mulle_fifo.Singlethread.Plays.{plays, reply}

module _ {F : Type 0} {r : Ring F} {size : ℕ} {Good : F → Type 0} (ring : IsRing r size Good)
    (above : 0 < size) where
  perform_refines :
      (c : Call) (f : F) (q : Queue)
      → Represents r Good size f q
      → (f' : F) × (perform (write r) (read r) r.get_count c f ≡ ok ((reply size c q).0, f'))
        × Represents r Good size f' (reply size c q).1
  unfolding perform
  perform_refines (write_call x) f q h =
      let (f', e, h') = write_refines ring above x f q h in (f', rw e refl, h')
  perform_refines read_call f q h =
      let (f', e, h') = read_refines ring above f q h in (f', rw e refl, h')
  perform_refines count_call f q h = (f, rw (get_count-Holds ring above h.1) refl, h)

  -- A program finds on the FIFO what it finds on the queue.
  pub execute_refines :
      (ss : List Statement) (v : Tally) (f : F) (q : Queue)
      → Represents r Good size f q
      → (f' : F) × (execute (write r) (read r) r.get_count ss v f ≡ ok ((plays size ss v q).0, f'))
        × Represents r Good size f' (plays size ss v q).1
  unfolding execute plays
  execute_refines [] v f q h = (f, refl, h)
  execute_refines (s ∷ ss) v f q h =
      let (f', e, h') = perform_refines (statement_call s) f q h in
      let (f'', e', h'') =
        execute_refines ss (note s (reply size (statement_call s) q).0 v) f'
          (reply size (statement_call s) q).1 h' in
      (f'', rw (e, ◌>>=◌, e') refl, h'')
