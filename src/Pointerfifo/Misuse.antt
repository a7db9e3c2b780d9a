-- ===== src/Pointerfifo/Misuse.antt =====
-- Why dox/API_POINTERFIFO.md allows one producer and one consumer only.
use mulle_fifo.Common.{ℕ, ◌<◌, ◌≢◌, [], ◌∷◌, arith}
use mulle_fifo.Platform.{Platform, IsPlatform}
use mulle_fifo.Queue.{Queue}
use mulle_fifo.Spsc.Crowd.Producers.{Overwrites, producers-Overwrites}
use mulle_fifo.Spsc.Crowd.Consumers.{Repeats, consumers-Repeats}
use mulle_fifo.Pointerfifo.{Pointerfifo, ring}
use mulle_fifo.Pointerfifo.Contract.{IsOpen, ring-IsRing}
use mulle_fifo.Pointerfifo.Sequential.{IsFifo}

module _ {Cell : Type 0} {pl : Platform Cell} (laws : IsPlatform pl) (size : ℕ)
    (fits : size < pl.uint_mod) where
  second_producer :
      (p : Pointerfifo Cell) (x y : ℕ)
      → 1 < size
      → x ≢ 0
      → y ≢ 0
      → IsFifo pl size p []
      → Overwrites (ring pl) (IsOpen size) size x y p
  second_producer p x y above =
      producers-Overwrites (ring-IsRing laws size (omega arith) fits) above p x y

  second_consumer :
      (p : Pointerfifo Cell) (x y : ℕ) (rest : Queue)
      → 0 < size
      → IsFifo pl size p (x ∷ y ∷ rest)
      → Repeats (ring pl) (IsOpen size) size x y rest p
  second_consumer p x y rest above =
      consumers-Repeats (ring-IsRing laws size above fits) above p x y rest

  -- Two producers, or two consumers, on one dynamic FIFO. Let the size be above 1 and countable by
  -- an unsigned int. On any empty FIFO and for any two pointers other than NULL, two producers
  -- that are each at the start of a write have an interleaving that is defined and in which both
  -- writes return 0, after which the FIFO holds the second pointer and then what the next slot
  -- held before; an atomic queue explains that, with the writes in one order or the other, exactly
  -- if that slot held the first pointer. On any FIFO with no call under way and at least two
  -- pointers in it, two consumers have an interleaving that is defined and in which both reads
  -- return the oldest pointer, after which the FIFO holds the queue without its first two
  -- pointers; an atomic queue explains that exactly if these two are equal.
  pub second_thread :
      (p p' : Pointerfifo Cell) (x y x' y' : ℕ) (rest : Queue)
      → 1 < size
      → x ≢ 0
      → y ≢ 0
      → IsFifo pl size p []
      → IsFifo pl size p' (x' ∷ y' ∷ rest)
      → Overwrites (ring pl) (IsOpen size) size x y p
        × Repeats (ring pl) (IsOpen size) size x' y' rest p'
  second_thread p p' x y x' y' rest above n m h h' =
      (second_producer p x y above n m h, second_consumer p' x' y' rest (omega (arith, above)) h')
