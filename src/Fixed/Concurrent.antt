-- ===== src/Fixed/Concurrent.antt =====
-- One producer and one consumer on a fixed FIFO.
use mulle_fifo.Common.{ℕ, ◌<◌, ◌≡◌, List, [], ◌∷◌, ok, ◌>>=◌, map_result, arith}
use mulle_fifo.Platform.{Platform, IsPlatform}
use mulle_fifo.Queue.{Queue}
use mulle_fifo.Queue.Trace.{HasNoNull, wrote, got}
use mulle_fifo.Ring.Sequential
use mulle_fifo.Spsc.{Producer, Consumer, Turn, producer_turn, consumer_turn, run, at_rest}
use mulle_fifo.Spsc.Invariant.{Inv-at_rest}
use mulle_fifo.Spsc.Linearizable.{Explained, run-Explained, Delivers, run-Delivers}
use mulle_fifo.Spsc.Whole.{finish_write, finish_read, finish_write-write, finish_read-read}
use mulle_fifo.Fixed.{
  FixedFifo, ring, get_count, store, load, advance_write, advance_read, increment, decrement, read,
  write,
}
use mulle_fifo.Fixed.Contract.{HasStorage, ring-IsRing}
use mulle_fifo.Fixed.Sequential.{IsFifo}

module _ {Cell : Type 0} {pl : Platform Cell} (laws : IsPlatform pl) (size : ℕ) (above : 0 < size)
    (fits : size < pl.uint_mod) where
  -- Let a fixed FIFO have any size above 0 that an unsigned int can count: from a queue without
  -- NULL and with neither thread in a call, under every schedule no turn is undefined, every
  -- completed call returns what an atomic queue bounded by the size returns, and the state at the
  -- end satisfies the invariant for what is left of that queue.
  pub linearizable_fixed :
      (ts : List Turn) (p : FixedFifo Cell) (q : Queue)
      → IsFifo pl size p q
      → HasNoNull q
      → Explained (ring pl size) (HasStorage size) size q (run (ring pl size) ts (at_rest p))
  linearizable_fixed ts p q h n =
      run-Explained (ring-IsRing laws size above fits) above ts (at_rest p) q (Inv-at_rest h n)

  -- Under every schedule that starts from an empty fixed FIFO with neither thread in a call (its
  -- size above 0 and countable by an unsigned int), the run is defined, the pointers of the
  -- writes that returned 0 are, in order, the pointers that reads returned followed by those
  -- left, at most as many as the size are left, and if both threads have returned the FIFO holds
  -- just those left.
  pub order_kept :
      (ts : List Turn) (p : FixedFifo Cell)
      → IsFifo pl size p []
      → Delivers (ring pl size) (HasStorage size) size (run (ring pl size) ts (at_rest p))
  order_kept = run-Delivers (ring-IsRing laws size above fits) above

module _ {Cell : Type 0} (pl : Platform Cell) (size : ℕ) where
  -- The producer's turns without the consumer in between are `write`.
  turns-write :
      (x : ℕ) (p : FixedFifo Cell)
      → finish_write (ring pl size) 5 (Producer.entering x) p
        ≡ (do (c, p') ← write pl size x p; ok (wrote x c ∷ [], Producer.outside, p'))
  unfolding write Sequential.write
  turns-write = finish_write-write (ring pl size)

  -- The consumer's turns without the producer in between are `read`.
  turns-read :
      (p : FixedFifo Cell)
      → finish_read (ring pl size) 4 Consumer.testing p
        ≡ (do (x, p') ← read pl size p; ok (got x ∷ [], Consumer.outside, p'))
  unfolding read Sequential.read
  turns-read = finish_read-read (ring pl size)

  -- The producer neither reads nor changes the consumer's index.
  pub producer_turn-read_index :
      (x i : ℕ) (s : Producer) (p : FixedFifo Cell)
      → producer_turn (ring pl size) x s (record p { read = i })
        ≡ map_result
            (λ (es, s', p'). (es, s', record p' { read = i }))
            (producer_turn (ring pl size) x s p)
  unfolding producer_turn get_count store advance_write increment
  producer_turn-read_index x i s p = grind arith

  -- The consumer neither reads nor changes the producer's index.
  pub consumer_turn-write_index :
      (i : ℕ) (s : Consumer) (p : FixedFifo Cell)
      → consumer_turn (ring pl size) s (record p { write = i })
        ≡ map_result
            (λ (es, s', p'). (es, s', record p' { write = i }))
            (consumer_turn (ring pl size) s p)
  unfolding consumer_turn get_count load advance_read decrement
  consumer_turn-write_index i s p = grind arith
