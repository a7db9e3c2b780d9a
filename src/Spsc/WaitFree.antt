-- ===== src/Spsc/WaitFree.antt =====
-- No call waits for the other thread: how many turns of its own a call takes at most.
use mulle_fifo.Common.{ℕ, suc, ◌+◌, ◌*◌, ◌≤◌, ◌≡◌, List, [], ◌∷◌, ◌++◌, ok, arith, >>=-eq-ok}
use mulle_fifo.Queue.Trace.{Event, wrote, got, counted}
use mulle_fifo.Ring.{Ring}
use mulle_fifo.Spsc.{
  Producer, Consumer, System, Turn, produce, consume, observe, producer_turn, consumer_turn, turn,
  run,
}

-- The turns that the present call has taken.
abbrev pub spent_writing : Producer → ℕ
spent_writing Producer.outside = 0
spent_writing (Producer.entering x) = 1
spent_writing (Producer.testing x) = 2
spent_writing (Producer.storing x) = 3
spent_writing (Producer.stepping x) = 4
spent_writing (Producer.counting x) = 5

abbrev pub spent_reading : Consumer → ℕ
spent_reading Consumer.outside = 0
spent_reading Consumer.testing = 1
spent_reading Consumer.loading = 2
spent_reading (Consumer.stepping x) = 3
spent_reading (Consumer.counting x) = 4

abbrev pub produce_turns : List Turn → ℕ
produce_turns [] = 0
produce_turns (produce x ∷ ts) = suc (produce_turns ts)
produce_turns (consume ∷ ts) = produce_turns ts
produce_turns (observe ∷ ts) = produce_turns ts

abbrev pub consume_turns : List Turn → ℕ
consume_turns [] = 0
consume_turns (produce x ∷ ts) = consume_turns ts
consume_turns (consume ∷ ts) = suc (consume_turns ts)
consume_turns (observe ∷ ts) = consume_turns ts

-- The calls that were completed.
abbrev pub writes : List Event → ℕ
writes [] = 0
writes (wrote x c ∷ es) = suc (writes es)
writes (got x ∷ es) = writes es
writes (counted n ∷ es) = writes es

abbrev pub reads : List Event → ℕ
reads [] = 0
reads (wrote x c ∷ es) = reads es
reads (got x ∷ es) = suc (reads es)
reads (counted n ∷ es) = reads es

writes-append : (es fs : List Event) → writes (es ++ fs) ≡ writes es + writes fs
writes-append [] fs = omega arith
writes-append (wrote x c ∷ es) fs = omega (arith, writes-append es fs)
writes-append (got x ∷ es) fs = writes-append es fs
writes-append (counted n ∷ es) fs = writes-append es fs

reads-append : (es fs : List Event) → reads (es ++ fs) ≡ reads es + reads fs
reads-append [] fs = omega arith
reads-append (wrote x c ∷ es) fs = reads-append es fs
reads-append (got x ∷ es) fs = omega (arith, reads-append es fs)
reads-append (counted n ∷ es) fs = reads-append es fs

module _ {F : Type 0} (r : Ring F) where
  -- A turn of the producer brings its call on, or completes it.
  producer_turn-spends :
      (x : ℕ) (p : Producer) (f : F) {es : List Event} {p' : Producer} {f' : F}
      → producer_turn r x p f ≡ ok (es, p', f')
      → (spent_writing p + 1 ≤ 6 * writes es + spent_writing p') × (reads es ≡ 0)
  unfolding producer_turn
  producer_turn-spends x Producer.outside f h = ground arith
  producer_turn-spends _ (Producer.entering x) f h = ground arith
  producer_turn-spends _ (Producer.testing x) f h = ground arith
  producer_turn-spends _ (Producer.storing x) f h = ground arith
  producer_turn-spends _ (Producer.stepping x) f h = ground arith
  producer_turn-spends _ (Producer.counting x) f h = ground arith

  consumer_turn-spends :
      (c : Consumer) (f : F) {es : List Event} {c' : Consumer} {f' : F}
      → consumer_turn r c f ≡ ok (es, c', f')
      → (spent_reading c + 1 ≤ 5 * reads es + spent_reading c') × (writes es ≡ 0)
  unfolding consumer_turn
  consumer_turn-spends Consumer.outside f h = ground arith
  consumer_turn-spends Consumer.testing f h = ground arith
  consumer_turn-spends Consumer.loading f h = ground arith
  consumer_turn-spends (Consumer.stepping x) f h = ground arith
  consumer_turn-spends (Consumer.counting x) f h = ground arith

  turn-spends :
      (t : Turn) (s : System F) {es : List Event} {s' : System F}
      → turn r t s ≡ ok (es, s')
      → (produce_turns (t ∷ []) + spent_writing s.producer
          ≤ 6 * writes es + spent_writing s'.producer)
        × (consume_turns (t ∷ []) + spent_reading s.consumer
            ≤ 5 * reads es + spent_reading s'.consumer)
  unfolding turn
  turn-spends (produce x) s h =
      let (t, e, k) = >>=-eq-ok (producer_turn r x s.producer s.fifo) _ h in
      ground (arith, producer_turn-spends x s.producer s.fifo e)
  turn-spends consume s h =
      let (t, e, k) = >>=-eq-ok (consumer_turn r s.consumer s.fifo) _ h in
      ground (arith, consumer_turn-spends s.consumer s.fifo e)
  turn-spends observe s h = ground arith

  -- For any ring and any schedule whose run is defined: the turns of the producer, with those
  -- that its open call had taken at the start, are at most six for each completed write and those
  -- that its open call has taken at the end; the same holds of the consumer with five turns for
  -- each read. A call has taken at most five turns, or four, while it is open, so no call waits
  -- for the other thread.
  pub run-spends :
      (ts : List Turn) (s : System F) {es : List Event} {s' : System F}
      → run r ts s ≡ ok (es, s')
      → (produce_turns ts + spent_writing s.producer ≤ 6 * writes es + spent_writing s'.producer)
        × (consume_turns ts + spent_reading s.consumer ≤ 5 * reads es + spent_reading s'.consumer)
  unfolding run
  run-spends [] s h = ground arith
  run-spends (t ∷ ts) s h =
      let (a, e, k) = >>=-eq-ok (turn r t s) _ h in
      let (b, e', k') = >>=-eq-ok (run r ts a.1) _ k in
      ground (
        arith,
        turn-spends t s e,
        run-spends ts a.1 e',
        writes-append a.0 b.0,
        reads-append a.0 b.0,
      )
