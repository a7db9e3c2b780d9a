-- ===== src/Fixed/Orders.antt =====
-- How much order a fixed FIFO needs of its atomic operations.
use mulle_fifo.Common.{ℕ, ◌<◌, ◌≡◌, ◌≢◌, refl, [], ◌∷◌, ok}
use mulle_fifo.Platform.{Platform, IsPlatform}
use mulle_fifo.Platform.Cells.{slot_of}
use mulle_fifo.Queue.{stored_code}
use mulle_fifo.Queue.Trace.{wrote, got}
use mulle_fifo.Spsc.Orders.{publishing, relaxed, Sight, IsSight, Views, Turn, view_run, all_seen}
use mulle_fifo.Spsc.Orders.InOrder.{KeepsOrder, view_run-KeepsOrder}
use mulle_fifo.Spsc.Orders.Relaxed.{late_slot, late_slot-stale}
use mulle_fifo.Common.{List}
use mulle_fifo.Fixed.{FixedFifo, ring}
use mulle_fifo.Fixed.Contract.{HasStorage, ring-IsRing}
use mulle_fifo.Fixed.Sequential.{IsFifo}

-- `n` and the array are shared, and the indices are a thread's own.
abbrev pub fixed_sight : {Cell : Type 0} → Sight (FixedFifo Cell)
fixed_sight = record {
  with_counter = λ p p'. record p { n = p'.n };
  with_slots = λ p p'. record p { storage = p'.storage };
}

fixed_sight-IsSight :
    {Cell : Type 0} (pl : Platform Cell) (size : ℕ)
    → IsSight (ring pl size) fixed_sight (HasStorage {Cell = Cell} size)
fixed_sight-IsSight pl size = record {
  counter_lem = λ p p'. refl;
  counter_good = λ p p' g g'. g;
  slots_lem = λ p p' i. refl;
  index_lem = λ p p'. refl;
  slots_good = λ p p' g g'. g';
}

module _ {Cell : Type 0} {pl : Platform Cell} (laws : IsPlatform pl) (size : ℕ) (above : 0 < size)
    (fits : size < pl.uint_mod) where
  -- Let a fixed FIFO with storage of a size above 0 that an unsigned int can count be empty, with
  -- neither thread in a call. If the consumer sees with a value of the counter what was stored
  -- before the increment that it counts, then every schedule in which the threads see older
  -- values is defined, the pointers of the writes that returned 0 are, in order, the pointers
  -- that reads returned followed by those left, at most as many as the size are left, the
  -- producer sees a counter that is not below the number of those left and the consumer one that
  -- is not above it, and if both threads have returned the FIFO holds just those left. If the
  -- consumer may see the counter without the slot, then for any pointer other than NULL a write
  -- of it returns 0, the read that follows returns what the slot at the read index held before,
  -- and the FIFO is then empty.
  pub fixed_orders :
      (ts : List Turn) (p : FixedFifo Cell) (x : ℕ)
      → x ≢ 0
      → IsFifo pl size p []
      → KeepsOrder
          (ring pl size)
          (HasStorage size)
          size
          (view_run (ring pl size) fixed_sight publishing ts (all_seen p))
        × ((v : Views (FixedFifo Cell)) × (view_run
                (ring pl size)
                fixed_sight
                relaxed
                (late_slot x)
                (all_seen p)
              ≡ ok (wrote x stored_code ∷ got (slot_of pl p.storage p.read) ∷ [], v))
            × IsFifo pl size v.system.fifo [])
  fixed_orders ts p x n h =
      let ring' = ring-IsRing laws size above fits in
      let (v, e, empty, _) = late_slot-stale ring' above (fixed_sight-IsSight pl size) p x n h in
      (view_run-KeepsOrder ring' above (fixed_sight-IsSight pl size) ts p h, (v, e, empty))
