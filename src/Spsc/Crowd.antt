-- ===== src/Spsc/Crowd.antt =====
-- Two threads on the same side of a FIFO, which the contract of dox/API_POINTERFIFO.md forbids.
pub mod Producers
pub mod Consumers
use mulle_fifo.Common.{
  ℕ, zero, suc, ◌+◌, ◌%◌, ◌≤◌, ◌<◌, ◌≡◌, ◌≢◌, refl, sym, ap, ◌∙◌, List, [], ◌∷◌, ◌++◌, Result, ok,
  ◌>>=◌, length, arith, mod-ne_of_offsets, ==_ne, ==_iff, get_or, suc-==-zero, ◌==◌, false,
}
use native.Mathlib.Nat.{mod-lt}
use mulle_fifo.Platform.Cells.{update}
use mulle_fifo.Queue.{Queue, stored_code}
use mulle_fifo.Queue.Trace.{Event, wrote, got}
use mulle_fifo.Ring.{Ring, Looks, IsRing}
use mulle_fifo.Ring.Contents.{
  Holds, is_full-Holds, get_count-Holds, load-Holds, advance_read-Holds, decrement-Holds,
}
use mulle_fifo.Ring.Sequential.{Represents}
use mulle_fifo.Spsc.{Producer, Consumer, producer_turn, consumer_turn}

pub data Who : Type 0 where
  first_thread second_thread : Who

-- A FIFO and two threads at `A`, which are both producers or both consumers.
pub record Crowd (F A : Type 0) : Type 0 where
  pub fifo : F
  pub first : A
  pub second : A

module _ {F A : Type 0} (step : A → F → Result (List Event × A × F)) where
  unfoldable pub crowd_turn : Who → Crowd F A → Result (List Event × Crowd F A)
  crowd_turn first_thread s = do
    (es, a, f) ← step s.first s.fifo
    ok (es, record s { fifo = f; first = a })
  crowd_turn second_thread s = do
    (es, a, f) ← step s.second s.fifo
    ok (es, record s { fifo = f; second = a })

  unfoldable pub crowd_run : List Who → Crowd F A → Result (List Event × Crowd F A)
  crowd_run [] s = ok ([], s)
  crowd_run (w ∷ ws) s = do
    (es, s') ← crowd_turn w s
    (fs, s'') ← crowd_run ws s'
    ok (es ++ fs, s'')

-- Each thread comes to its access of the slot before either moves the index on.
abbrev pub same_slot : List Who
same_slot =
    first_thread ∷ first_thread ∷ second_thread ∷ second_thread ∷ first_thread ∷ second_thread
    ∷ first_thread ∷ first_thread ∷ second_thread ∷ second_thread ∷ []
