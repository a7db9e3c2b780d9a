-- ===== src/Pointerfifo/NullCalls.antt =====
-- Sequences of calls through the wrappers that take a NULL FIFO.
use mulle_fifo.Common.{arith, ◌≡◌, refl, none, some, List, [], ◌∷◌, ok, map_result}
use mulle_fifo.Platform.{Platform}
use mulle_fifo.Queue.{full_code}
use mulle_fifo.Queue.Trace.{Event, wrote, got, counted}
use mulle_fifo.Queue.Replies.{Call, write_call, read_call, count_call}
use mulle_fifo.Ring.Calls.{calls, calls-map}
use mulle_fifo.Pointerfifo.{Pointerfifo, read, write, get_count}
use mulle_fifo.Pointerfifo.Tolerant

-- NULL takes nothing, yields nothing and counts nothing.
abbrev pub null_replies : List Call → List Event
null_replies [] = []
null_replies (write_call x ∷ cs) = wrote x full_code ∷ null_replies cs
null_replies (read_call ∷ cs) = got 0 ∷ null_replies cs
null_replies (count_call ∷ cs) = counted 0 ∷ null_replies cs

module _ {Cell : Type 0} (pl : Platform Cell) where
  on_null :
      (cs : List Call)
      → calls (Tolerant.write pl) (Tolerant.read pl) (Tolerant.get_count pl) cs none
        ≡ ok (null_replies cs, none)
  unfolding calls Tolerant.write Tolerant.read Tolerant.get_count
  on_null [] = refl
  on_null (write_call x ∷ cs) = rw (on_null cs)
  on_null (read_call ∷ cs) = rw (on_null cs)
  on_null (count_call ∷ cs) = rw (on_null cs)

  on_fifo :
      (cs : List Call) (p : Pointerfifo Cell)
      → calls (Tolerant.write pl) (Tolerant.read pl) (Tolerant.get_count pl) cs (some p)
        ≡ map_result (λ (es, p'). (es, some p')) (calls (write pl) (read pl) (get_count pl) cs p)
  unfolding calls Tolerant.write Tolerant.read Tolerant.get_count
  on_fifo cs p =
      calls-map {φ = λ p. some p} {Good = λ p. Unit {0}}
        (record {
          write_same = λ x p g. ground arith;
          write_good = λ x p a g e. tt;
          read_same = λ p g. ground arith;
          read_good = λ p a g e. tt;
          count_same = λ p g. refl;
        })
        cs p tt

  -- For every sequence of calls through the wrappers without the underscore: on a NULL FIFO every
  -- write returns -1, every read NULL and every count 0, and the FIFO stays NULL; on a FIFO in
  -- any state the calls return what the functions with the underscore return, their faults
  -- included.
  pub tolerant_calls :
      (cs : List Call) (p : Pointerfifo Cell)
      → (calls (Tolerant.write pl) (Tolerant.read pl) (Tolerant.get_count pl) cs none
          ≡ ok (null_replies cs, none))
        × (calls (Tolerant.write pl) (Tolerant.read pl) (Tolerant.get_count pl) cs (some p)
            ≡ map_result
                (λ (es, p'). (es, some p'))
                (calls (write pl) (read pl) (get_count pl) cs p))
  tolerant_calls cs p = (on_null cs, on_fifo cs p)
