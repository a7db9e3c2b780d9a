-- ===== src/Tests/Outside.antt =====
-- What threads and clients may conclude, on FIFOs of four slots.
use mulle_fifo.Common.{map_result, ℕ, ◌≡◌, ◌↔◌, List, [], ◌∷◌, ◌++◌, inl, refl, arith}
use mathlib.Core.Equiv.{◌≃◌}
use mathlib.Core.Quot
use mulle_fifo.Pointerfifo.{Pointerfifo, ring, get_count}
use mulle_fifo.Pointerfifo.Interleaving.{turns_commute}
use mulle_fifo.Queue.Trace.{Event, counted}
use mulle_fifo.Pointerfifo.Concurrent.{later_calls, nothing_shared}
use mulle_fifo.Pointerfifo.Abstract.{LooksLike, full_abstraction}
use mulle_fifo.Pointerfifo.View.{Idle, Seen, Contents, contents, seen_queue}
use mulle_fifo.Spsc.{
  Turn, Producer, Consumer, produce, consume, observe, at_rest, run, turn, producer_turn,
  consumer_turn,
}
use mulle_fifo.Spsc.Promises.{Promises, Apart}
use mulle_fifo.Tests.{lp64, lp64-IsPlatform, fresh, fresh-IsFifo, wrapped, wrapped-IsFifo}

-- Up to the point where a pointer is about to be stored and another about to be loaded.
abbrev both_inside : List Turn
both_inside = produce 9 ∷ consume ∷ produce 9 ∷ consume ∷ produce 9 ∷ observe ∷ []

abbrev to_the_end : List Turn
to_the_end = produce 9 ∷ consume ∷ produce 9 ∷ consume ∷ produce 9 ∷ consume ∷ observe ∷ []

later_calls_example : Promises (ring lp64) 4 both_inside to_the_end (at_rest wrapped)
later_calls_example =
    later_calls lp64-IsPlatform 4 (omega arith) (omega arith) both_inside to_the_end wrapped
      (7 ∷ 8 ∷ []) wrapped-IsFifo (omega arith)

nothing_shared_example :
    Apart (ring lp64) both_inside (at_rest wrapped)
    × (producer_turn (ring lp64) 0 (Producer.storing 5) (record wrapped { read = 2 })
        ≡ map_result {B = List Event × Producer × Pointerfifo ℕ}
            (λ (es, s', p'). (es, s', record p' { read = 2 }))
            (producer_turn (ring lp64) 0 (Producer.storing 5) wrapped))
    × (consumer_turn (ring lp64) Consumer.loading (record wrapped { write = 2 })
        ≡ map_result {B = List Event × Consumer × Pointerfifo ℕ}
            (λ (es, s', p'). (es, s', record p' { write = 2 }))
            (consumer_turn (ring lp64) Consumer.loading wrapped))
nothing_shared_example =
    nothing_shared lp64-IsPlatform 4 (omega arith) (omega arith) both_inside wrapped (7 ∷ 8 ∷ []) 0
      2 (Producer.storing 5) Consumer.loading wrapped wrapped-IsFifo (omega arith)

full_abstraction_example : LooksLike lp64 fresh wrapped ↔ (◌≡◌ {A = List ℕ} [] (7 ∷ 8 ∷ []))
full_abstraction_example =
    full_abstraction lp64-IsPlatform 4 (omega arith) (omega arith) fresh wrapped [] (7 ∷ 8 ∷ [])
      fresh-IsFifo wrapped-IsFifo

seen_queue_example :
    (e : Seen lp64 4 ≃ Contents 4) × ((s : Idle lp64 4) → e.0 (Quot.mk s) ≡ contents lp64 4 s)
seen_queue_example = seen_queue lp64-IsPlatform 4 (omega arith) (omega arith) fresh fresh-IsFifo

-- The store and the load are next.
turns_commute_example :
    run (ring lp64) (both_inside ++ produce 9 ∷ consume ∷ to_the_end) (at_rest wrapped)
    ≡ run (ring lp64) (both_inside ++ consume ∷ produce 9 ∷ to_the_end) (at_rest wrapped)
unfolding run turn producer_turn consumer_turn get_count
turns_commute_example =
    turns_commute lp64-IsPlatform 4 (omega arith) (omega arith) 9 both_inside to_the_end wrapped
      (7 ∷ 8 ∷ []) (counted 2 ∷ [])
      (record { fifo = wrapped; producer = Producer.storing 9; consumer = Consumer.loading })
      wrapped-IsFifo (omega arith) refl (inl tt)
