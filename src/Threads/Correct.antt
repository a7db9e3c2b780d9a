-- ===== src/Threads/Correct.antt =====
-- The programs threads.c and threads-64.c of test/20-multithreaded: `main` of each, with the thread
-- that it creates.
use mulle_fifo.Common.{ℕ, ◌*◌, ◌+◌, ◌<◌, ◌≡◌, ap, List, Option, some, Bool, Result, ◌>>=◌, arith}
use mulle_fifo.Common.Fair
use mulle_fifo.Platform.{Platform, IsPlatform, Block, Allocator, IsAllocator}
use mulle_fifo.Pointerfifo.{Pointerfifo, ring, init, done}
use mulle_fifo.Pointerfifo.Lifecycle.{IsSize}
use mulle_fifo.Pointerfifo.Owned.{IsOwned, IsOwned-IsRing, done-restores}
use mulle_fifo.Pointerfifo.WholeLife.{init-IsOwned}
use mulle_fifo.Fixed
use mulle_fifo.Fixed.{FixedFifo}
use mulle_fifo.Fixed.Contract.{HasStorage}
use mulle_fifo.Fixed.Contract
use mulle_fifo.Fixed.Sizes.{init-IsFifo}
use mulle_fifo.Threads.{Chat, Pick, chat, begin}
use mulle_fifo.Threads.Invariant.{Acts}
use mulle_fifo.Threads.Outcome.{Prints, PrintsAll, chat-Prints, chat-PrintsAll}

-- threads.c, in which `size` is 100 and `last` is 1024; NULL stands for the default allocator.
unfoldable pub threads :
    {Cell Heap : Type 0} (pl : Platform Cell) (al : Allocator Heap Cell) (last size : ℕ)
    → Pointerfifo Cell
    → List Pick
    → Heap
    → Result (Chat (Pointerfifo Cell) Heap)
threads pl al last size p ps h = do
  (fifo, h') ← init pl al p size 0 h
  chat last (ring pl) (done pl al) ps (begin fifo h')

-- threads-64.c, in which `size` is 64 and `last` is 1024. It allocates nothing.
unfoldable pub threads_fixed :
    {Cell : Type 0} (pl : Platform Cell) (last size : ℕ)
    → FixedFifo Cell
    → List Pick
    → Result (Chat (FixedFifo Cell) (Unit {0}))
threads_fixed pl last size p ps =
    chat last (Fixed.ring pl size) (λ f h. (Fixed.done pl f, h)) ps (begin (Fixed.init pl p) tt)

module _ {Cell Heap : Type 0} {pl : Platform Cell} (laws : IsPlatform pl) {al : Allocator Heap Cell}
    {live : Heap → ℕ → Bool} (memory : IsAllocator pl al live) where
  -- Every FIFO that `init` opened gives back what `init` took.
  freed :
      (size : ℕ) (h h' : Heap) (b : Block Cell)
      → al.malloc 0 (size * pl.pointer_size) h ≡ some (b, h')
      → (f : Pointerfifo Cell) → IsOwned size 0 b.address f
      → (i : ℕ) → live (done pl al f h').1 i ≡ live h i
  freed size h h' b m f good =
      (done-restores memory f _ 0 h h' b m (ap (λ (o : ℕ × Option ℕ). o.1) good.1)).0

  -- Let threads.c, with any last number above 0 and any size of at least 2 that an unsigned int
  -- can count and whose storage has a size in bytes, start on a heap where the allocation of the
  -- storage succeeds, with pointers of at least one byte. Under every interleaving of the
  -- statements of its two threads, no access is undefined and the consumer has printed an initial
  -- part of the numbers from 1 to the last, in order. Though the consumer calls `done` before it
  -- joins the producer, from that call on all numbers are printed, the producer has made its last
  -- access to the FIFO, the increment of the counter for the last number, and is between that and
  -- its end, and every address is allocated or free as it was before `init`. After the join the
  -- producer is at its end.
  pub closed_after_the_last :
      (last size : ℕ) (p : Pointerfifo Cell) (ps : List Pick) (h h' : Heap) (b : Block Cell)
      → 0 < last
      → 0 < pl.pointer_size
      → IsSize pl size
      → al.malloc 0 (size * pl.pointer_size) h ≡ some (b, h')
      → Prints last (λ g. (i : ℕ) → live g i ≡ live h i) (threads pl al last size p ps h)
  unfolding threads
  closed_after_the_last last size p ps h h' b some_number width s m =
      let above : 0 < size = omega (arith, s.at_least) in
      let (p', e, r) = init-IsOwned laws memory p size 0 h h' b width s m in
      rw e (
        chat-Prints last (ring pl) (done pl al) (IsOwned size 0 b.address) size h'
          (λ g. (i : ℕ) → live g i ≡ live h i) ps p'
          (IsOwned-IsRing laws size 0 b.address above s.is_uint) above (freed size h h' b m)
          some_number r)

  -- Let threads.c, with any last number above 0 and any size of at least 2 that an unsigned int
  -- can count and whose storage has a size in bytes, start on a heap where the allocation of the
  -- storage succeeds, with pointers of at least one byte. Every schedule that starts with 20 *
  -- last + 14 rounds, in each of which both threads make at least one statement other than to
  -- sleep, ends with the producer out of its loop and joined, every number printed in order, and
  -- every address allocated or free as before `init`.
  pub threads_end :
      (last size : ℕ) (p : Pointerfifo Cell) (ps : List Pick) (h h' : Heap) (b : Block Cell)
      → 0 < last
      → 0 < pl.pointer_size
      → IsSize pl size
      → al.malloc 0 (size * pl.pointer_size) h ≡ some (b, h')
      → Fair.HasRounds Acts (20 * last + 14) ps
      → PrintsAll last (λ g. (i : ℕ) → live g i ≡ live h i) (threads pl al last size p ps h)
  unfolding threads
  threads_end last size p ps h h' b some_number width s m rounds =
      let above : 0 < size = omega (arith, s.at_least) in
      let (p', e, r) = init-IsOwned laws memory p size 0 h h' b width s m in
      rw e (
        chat-PrintsAll last (ring pl) (done pl al) (IsOwned size 0 b.address) size h'
          (λ g. (i : ℕ) → live g i ≡ live h i) ps p'
          (IsOwned-IsRing laws size 0 b.address above s.is_uint) above (freed size h h' b m)
          some_number r rounds)

module _ {Cell : Type 0} {pl : Platform Cell} (laws : IsPlatform pl) where
  -- For threads-64.c, whose FIFO is a fixed one, with any last number above 0, on any struct with
  -- storage of a size above 0 that an unsigned int can count, every schedule is defined and prints
  -- an initial part of the numbers, all of them once the consumer has called `done`, when the
  -- producer is between its last access to the FIFO, the increment of the counter for the last
  -- number, and its end; after the join it is at its end. Every schedule that starts with 20 *
  -- last + 14 rounds in which no thread only sleeps ends with both threads at their ends and every
  -- number printed in order.
  pub threads_fixed_end :
      (last size : ℕ) (p : FixedFifo Cell) (ps full : List Pick)
      → 0 < last
      → 0 < size
      → size < pl.uint_mod
      → HasStorage size p
      → Fair.HasRounds Acts (20 * last + 14) full
      → Prints last (λ g. Unit {0}) (threads_fixed pl last size p ps)
        × PrintsAll last (λ g. Unit {0}) (threads_fixed pl last size p full)
  unfolding threads_fixed
  threads_fixed_end last size p ps full some_number above fits g rounds =
      let ring' = Contract.ring-IsRing laws size above fits in
      let r = init-IsFifo laws size p g in
      let close : FixedFifo Cell → Unit {0} → FixedFifo Cell × Unit {0} =
        λ f h. (Fixed.done pl f, h) in
      (
        chat-Prints last (Fixed.ring pl size) close (HasStorage size) size tt (λ g. Unit {0}) ps
            (Fixed.init pl p) ring' above (λ f g. tt) some_number r,
        chat-PrintsAll last (Fixed.ring pl size) close (HasStorage size) size tt (λ g. Unit {0})
            full (Fixed.init pl p) ring' above (λ f g. tt) some_number r rounds,
      )
