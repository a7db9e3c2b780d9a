-- ===== src/Pointerfifo/Concurrent.antt =====
-- One producer and one consumer on a dynamic FIFO.
use mulle_fifo.Common.{ℕ, ◌<◌, ◌≡◌, List, [], ◌∷◌, ok, ◌>>=◌, map_result, arith}
use mulle_fifo.Platform.{Platform, IsPlatform}
use mulle_fifo.Queue.{Queue}
use mulle_fifo.Queue.Trace.{HasNoNull, wrote, got}
use mulle_fifo.Ring.Sequential
use mulle_fifo.Spsc.{Producer, Consumer, Turn, producer_turn, consumer_turn, run, at_rest}
use mulle_fifo.Spsc.Invariant.{Inv-at_rest}
use mulle_fifo.Spsc.Linearizable.{Explained, run-Explained, Delivers, run-Delivers}
use mulle_fifo.Spsc.Promises.{Promises, Apart, run-Promises, run-Apart}
use mulle_fifo.Spsc.Whole.{finish_write, finish_read, finish_write-write, finish_read-read}
use mulle_fifo.Pointerfifo.{
  Pointerfifo, ring, get_count, store, load, advance_write, advance_read, increment, decrement,
  read, write,
}
use mulle_fifo.Pointerfifo.Contract.{IsOpen, ring-IsRing}
use mulle_fifo.Pointerfifo.Sequential.{IsFifo}

module _ {Cell : Type 0} {pl : Platform Cell} (laws : IsPlatform pl) (size : ℕ) (above : 0 < size)
    (fits : size < pl.uint_mod) where
  -- Let a dynamic FIFO of a size above 0 that an unsigned int can count hold a queue without
  -- NULL, with neither thread in a call. Under every schedule of the turns of one producer, one
  -- consumer and an observer, no turn is undefined, every completed call (in the order of
  -- completion) returns what an atomic queue bounded by the size returns, and the state at the
  -- end satisfies the invariant for what is left of that queue.
  pub linearizable :
      (ts : List Turn) (p : Pointerfifo Cell) (q : Queue)
      → IsFifo pl size p q
      → HasNoNull q
      → Explained (ring pl) (IsOpen size) size q (run (ring pl) ts (at_rest p))
  linearizable ts p q h n =
      run-Explained (ring-IsRing laws size above fits) above ts (at_rest p) q (Inv-at_rest h n)

  -- Under every schedule that starts from an empty dynamic FIFO with neither thread in a call
  -- (its size above 0 and countable by an unsigned int), the run is defined, the pointers of the
  -- writes that returned 0 are, in order, the pointers that reads returned followed by those
  -- left, at most as many as the size are left, and if both threads have returned the FIFO holds
  -- just those left.
  pub delivers :
      (ts : List Turn) (p : Pointerfifo Cell)
      → IsFifo pl size p []
      → Delivers (ring pl) (IsOpen size) size (run (ring pl) ts (at_rest p))
  delivers = run-Delivers (ring-IsRing laws size above fits) above

  -- Let a dynamic FIFO of a size above 0 that an unsigned int can count hold a queue without
  -- NULL, with neither thread in a call. Any schedule and any second one after it are defined,
  -- the count n between them is at most the size, and of the calls that complete in the second
  -- schedule, those under way between the two included, the first n reads return pointers and the
  -- first size - n writes of pointers other than NULL return 0, whatever the threads do.
  pub later_calls :
      (ts ts' : List Turn) (p : Pointerfifo Cell) (q : Queue)
      → IsFifo pl size p q
      → HasNoNull q
      → Promises (ring pl) size ts ts' (at_rest p)
  later_calls ts ts' p q h n =
      run-Promises (ring-IsRing laws size above fits) above ts ts' (at_rest p) q (Inv-at_rest h n)

  no_slot_shared :
      (ts : List Turn) (p : Pointerfifo Cell) (q : Queue)
      → IsFifo pl size p q
      → HasNoNull q
      → Apart (ring pl) ts (at_rest p)
  no_slot_shared ts p q h n =
      run-Apart (ring-IsRing laws size above fits) above ts (at_rest p) q (Inv-at_rest h n)

module _ {Cell : Type 0} (pl : Platform Cell) where
  -- The producer's turns without the consumer in between are `write`.
  turns-write :
      (x : ℕ) (p : Pointerfifo Cell)
      → finish_write (ring pl) 5 (Producer.entering x) p
        ≡ (do (c, p') ← write pl x p; ok (wrote x c ∷ [], Producer.outside, p'))
  unfolding write Sequential.write
  turns-write = finish_write-write (ring pl)

  -- The consumer's turns without the producer in between are `read`.
  turns-read :
      (p : Pointerfifo Cell)
      → finish_read (ring pl) 4 Consumer.testing p
        ≡ (do (x, p') ← read pl p; ok (got x ∷ [], Consumer.outside, p'))
  unfolding read Sequential.read
  turns-read = finish_read-read (ring pl)

  -- The producer leaves the read index alone.
  producer_turn-read_index :
      (x i : ℕ) (s : Producer) (p : Pointerfifo Cell)
      → producer_turn (ring pl) x s (record p { read = i })
        ≡ map_result
            (λ (es, s', p'). (es, s', record p' { read = i }))
            (producer_turn (ring pl) x s p)
  unfolding producer_turn get_count store advance_write increment
  producer_turn-read_index x i s p = grind arith

  -- The consumer leaves the write index alone.
  consumer_turn-write_index :
      (i : ℕ) (s : Consumer) (p : Pointerfifo Cell)
      → consumer_turn (ring pl) s (record p { write = i })
        ≡ map_result
            (λ (es, s', p'). (es, s', record p' { write = i }))
            (consumer_turn (ring pl) s p)
  unfolding consumer_turn get_count load advance_read decrement
  consumer_turn-write_index i s p = grind arith

  own_indices :
      (x i : ℕ) (s : Producer) (c : Consumer) (p : Pointerfifo Cell)
      → (producer_turn (ring pl) x s (record p { read = i })
          ≡ map_result
              (λ (es, s', p'). (es, s', record p' { read = i }))
              (producer_turn (ring pl) x s p))
        × (consumer_turn (ring pl) c (record p { write = i })
            ≡ map_result
                (λ (es, s', p'). (es, s', record p' { write = i }))
                (consumer_turn (ring pl) c p))
  own_indices x i s c p = (producer_turn-read_index x i s p, consumer_turn-write_index i c p)

module _ {Cell : Type 0} {pl : Platform Cell} (laws : IsPlatform pl) (size : ℕ) (above : 0 < size)
    (fits : size < pl.uint_mod) where
  -- From a dynamic FIFO of a size above 0 that an unsigned int can count that holds a queue
  -- without NULL, with neither thread in a call, every schedule is defined, and whenever after it
  -- the producer is about to store into the slot at the write index and the consumer is about to
  -- load from the slot at the read index, the two indices differ. And no turn of the producer, in
  -- any state, depends on the read index of the dynamic FIFO or changes it, and no turn of the
  -- consumer depends on the write index or changes it: with another such index the turn has the
  -- same outcome but for that index.
  pub nothing_shared :
      (ts : List Turn) (p : Pointerfifo Cell) (q : Queue) (x i : ℕ) (s : Producer) (c : Consumer)
      (any : Pointerfifo Cell)
      → IsFifo pl size p q
      → HasNoNull q
      → Apart (ring pl) ts (at_rest p)
        × (producer_turn (ring pl) x s (record any { read = i })
            ≡ map_result
                (λ (es, s', p'). (es, s', record p' { read = i }))
                (producer_turn (ring pl) x s any))
        × (consumer_turn (ring pl) c (record any { write = i })
            ≡ map_result
                (λ (es, s', p'). (es, s', record p' { write = i }))
                (consumer_turn (ring pl) c any))
  nothing_shared ts p q x i s c any h n =
      let (writes, reads) = own_indices pl x i s c any in
      (no_slot_shared laws size above fits ts p q h n, writes, reads)
