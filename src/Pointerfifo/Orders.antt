-- ===== src/Pointerfifo/Orders.antt =====
-- How much order the dynamic FIFO needs of its atomic operations: README.md calls them relaxed,
-- dox/API_POINTERFIFO.md sequentially consistent.
use mulle_fifo.Common.{ℕ, ◌<◌, ◌≡◌, ◌≢◌, ◌↔◌, refl, Option, List, [], ◌∷◌, map, ok, map_result}
use mulle_fifo.Platform.{Platform, IsPlatform}
use mulle_fifo.Platform.Cells.{slot_of}
use mulle_fifo.Queue.{Queue, stored_code}
use mulle_fifo.Queue.Trace.{wrote, got, Conforms}
use mulle_fifo.Spsc.{run, at_rest}
use mulle_fifo.Spsc.Orders.{publishing, relaxed, Sight, IsSight, Views, Turn, view_run, all_seen}
use mulle_fifo.Spsc.Orders.InOrder.{KeepsOrder, view_run-KeepsOrder}
use mulle_fifo.Spsc.Orders.Relaxed.{late_slot, late_slot-stale}
use mulle_fifo.Spsc.Orders.Newest.{looking, newest_turn, system_of, looking-run}
use mulle_fifo.Pointerfifo.{Pointerfifo, cells_of, ring}
use mulle_fifo.Pointerfifo.Contract.{IsOpen, ring-IsRing}
use mulle_fifo.Pointerfifo.Sequential.{IsFifo}

-- `n` and the array are shared, and the other fields are a thread's own or stay the same.
abbrev pub sight : {Cell : Type 0} → Sight (Pointerfifo Cell)
sight = record {
  with_counter = λ p p'. record p { n = p'.n };
  with_slots = λ p p'. record p { storage = p'.storage };
}

sight-IsSight :
    {Cell : Type 0} (pl : Platform Cell) (size : ℕ)
    → IsSight (ring pl) sight (IsOpen {Cell = Cell} size)
sight-IsSight pl size = record {
  counter_lem = λ p p'. refl;
  counter_good = λ p p' g g'. g;
  slots_lem = λ p p' i. refl;
  index_lem = λ p p'. refl;
  slots_good = λ p p' g g'. (g.0, g'.1);
}

module _ {Cell : Type 0} {pl : Platform Cell} (laws : IsPlatform pl) (size : ℕ) (above : 0 < size)
    (fits : size < pl.uint_mod) where
  -- Let each thread of an empty dynamic FIFO (its size above 0 and countable by an unsigned int,
  -- neither thread in a call) see older values of the counter and of the slots than the newest,
  -- as long as the consumer sees with a value of the counter what was stored before the increment
  -- that it counts, and an increment or decrement works on the newest counter. Then every
  -- schedule of turns and of newer values that reach a thread is defined, the pointers of the
  -- writes that returned 0 are, in order, the pointers that reads returned followed by those
  -- left, at most as many as the size are left, the producer sees a counter that is not below the
  -- number of those left and the consumer one that is not above it, and if both threads have
  -- returned the FIFO holds just those left. If each thread sees the newest values before each of
  -- its turns, the run is the interleaving without older values.
  pub publishing_in_order :
      (ts : List Turn) (sides : List (Option ℕ)) (p : Pointerfifo Cell)
      → IsFifo pl size p []
      → KeepsOrder
          (ring pl)
          (IsOpen size)
          size
          (view_run (ring pl) sight publishing ts (all_seen p))
        × (map_result system_of (view_run (ring pl) sight publishing (looking sides) (all_seen p))
            ≡ run (ring pl) (map newest_turn sides) (at_rest p))
  publishing_in_order ts sides p h = (
    view_run-KeepsOrder (ring-IsRing laws size above fits) above (sight-IsSight pl size) ts p h,
    looking-run (ring pl) sight publishing (λ p'. refl) (λ p'. refl) sides (all_seen p),
  )

  -- Let the consumer of a dynamic FIFO see the counter without what was stored before its
  -- increment. For any pointer other than NULL and any empty FIFO (its size above 0 and countable
  -- by an unsigned int, neither thread in a call), a write of the pointer returns 0, the read that
  -- follows returns what the slot at the read index held before that write, and the FIFO is then
  -- empty. An atomic queue that is empty at first explains these two results exactly if the slot
  -- held that pointer already, so with any other pointer in it the promise fails.
  pub relaxed_stale :
      (p : Pointerfifo Cell) (x : ℕ)
      → x ≢ 0
      → IsFifo pl size p []
      → (v : Views (Pointerfifo Cell)) × (view_run
            (ring pl)
            sight
            relaxed
            (late_slot x)
            (all_seen p)
          ≡ ok (wrote x stored_code ∷ got (slot_of pl (cells_of p) p.read) ∷ [], v))
        × IsFifo pl size v.system.fifo []
        × (((q : Queue) × Conforms size []
                (wrote x stored_code ∷ got (slot_of pl (cells_of p) p.read) ∷ [])
                q)
            ↔ (slot_of pl (cells_of p) p.read ≡ x))
  relaxed_stale = late_slot-stale (ring-IsRing laws size above fits) above (sight-IsSight pl size)
