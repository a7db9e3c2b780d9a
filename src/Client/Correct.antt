-- ===== src/Client/Correct.antt =====
-- publication.c on a dynamic FIFO.
use mulle_fifo.Common.{◌≡◌, arith, ◌*◌, ◌+◌, ℕ, ◌<◌, List, []}
use mulle_fifo.Platform.{Platform, IsPlatform}
use mulle_fifo.Pointerfifo.{Pointerfifo, ring}
use mulle_fifo.Pointerfifo.Contract.{IsOpen, ring-IsRing}
use mulle_fifo.Pointerfifo.Sequential.{IsFifo}
use mulle_fifo.Client.{Side, publish, start}
use mulle_fifo.Client.Invariant.{IsArray}
use mulle_fifo.Client.Finishes.{HasRounds, rounds_for, Completes, publish-Completes}
use mulle_fifo.Client.Items.{publication, publication-IsWorkload}
use mulle_fifo.Client.Races.{RaceFree, publish-RaceFree}

module _ {Cell : Type 0} {pl : Platform Cell} (laws : IsPlatform pl) (size : ℕ) (above : 0 < size)
    (fits : size < pl.uint_mod) where
  -- Let the producer and the consumer of the publication test share a dynamic FIFO that is empty,
  -- of a size above 0 that an unsigned int can count, and any number of items at distinct
  -- addresses that are not NULL. Every schedule of their statements that starts with 20 * n_items
  -- + 3 rounds, in each of which both threads make at least one statement (in any order, and any
  -- number more), ends with both threads out of their loops, every item sent and received, and
  -- none counted as corrupt or out of order: no two threads wait for each other, and the retry
  -- loops around write and read end.
  pub both_threads_finish :
      (address flip : ℕ → ℕ) (n_items : ℕ) (sides : List Side) (p : Pointerfifo Cell)
      → IsArray address n_items
      → IsFifo pl size p []
      → HasRounds (20 * n_items + 3) sides
      → Completes
          (IsOpen size)
          n_items
          (publish address (publication flip) n_items (ring pl) sides (start (publication flip) p))
  both_threads_finish address flip n_items sides p items h rounds =
      let enough : 20 * n_items + 3 ≡ rounds_for (publication flip) n_items = omega arith in
      publish-Completes (ring-IsRing laws size above fits) above address
        (publication-IsWorkload flip) n_items items sides p h (rw enough at rounds)

  -- Let the producer and the consumer of the publication test share a dynamic FIFO that is empty,
  -- of a size above 0 that an unsigned int can count, and any number of items at distinct
  -- addresses that are not NULL. Every schedule of their statements is defined, and after it the
  -- producer's next statement and the consumer's next statement are never a change of an item and
  -- a look into the same item: the plain accesses of the items do not race.
  pub no_item_race :
      (address flip : ℕ → ℕ) (n_items : ℕ) (sides : List Side) (p : Pointerfifo Cell)
      → IsArray address n_items
      → IsFifo pl size p []
      → RaceFree address
          (publish address (publication flip) n_items (ring pl) sides (start (publication flip) p))
  no_item_race address flip n_items sides p items =
      publish-RaceFree (ring-IsRing laws size above fits) above address
        (publication-IsWorkload flip) n_items items sides p
