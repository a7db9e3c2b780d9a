-- ===== src/Tests/Orders.antt =====
-- Threads that see older values, on FIFOs of four slots.
use mulle_fifo.Common.{ℕ, ◌≡◌, ◌↔◌, Option, none, some, List, [], ◌∷◌, map, ok, map_result, arith}
use mulle_fifo.Queue.{Queue, stored_code}
use mulle_fifo.Queue.Trace.{wrote, got, Conforms}
use mulle_fifo.Spsc.{run, at_rest}
use mulle_fifo.Spsc.Orders.{
  publishing, relaxed, Views, Turn, write_on, read_on, see_count, view_run, all_seen,
}
use mulle_fifo.Spsc.Orders.InOrder.{KeepsOrder}
use mulle_fifo.Spsc.Orders.Relaxed.{late_slot}
use mulle_fifo.Spsc.Orders.Newest.{looking, newest_turn, system_of}
use mulle_fifo.Fixed
use mulle_fifo.Fixed.{FixedFifo}
use mulle_fifo.Fixed.Contract.{HasStorage}
use mulle_fifo.Fixed.Sequential as FixedSequential
use mulle_fifo.Fixed.Orders.{fixed_sight, fixed_orders}
use mulle_fifo.Pointerfifo.{Pointerfifo, ring}
use mulle_fifo.Pointerfifo.Contract.{IsOpen}
use mulle_fifo.Pointerfifo.Sequential.{IsFifo}
use mulle_fifo.Pointerfifo.Orders.{sight, publishing_in_order, relaxed_stale}
use mulle_fifo.Tests.{lp64, lp64-IsPlatform, fresh, fresh-IsFifo, fixed_fresh, fixed_fresh-IsFifo}

-- The pointer 7 is written, a read does not see it yet, and the next one does.
abbrev unseen_at_first : List Turn
unseen_at_first =
    write_on 7
    ∷ write_on 7
    ∷ write_on 7
    ∷ write_on 7
    ∷ write_on 7
    ∷ write_on 7
    ∷ read_on
    ∷ read_on
    ∷ see_count
    ∷ read_on
    ∷ read_on
    ∷ read_on
    ∷ read_on
    ∷ read_on
    ∷ []

abbrev by_turns : List (Option ℕ)
by_turns = some 7 ∷ none ∷ some 7 ∷ none ∷ some 7 ∷ none ∷ []

publishing_in_order_example :
    KeepsOrder
      (ring lp64)
      (IsOpen 4)
      4
      (view_run (ring lp64) sight publishing unseen_at_first (all_seen fresh))
    × (map_result system_of
          (view_run (ring lp64) sight publishing (looking by_turns) (all_seen fresh))
        ≡ run (ring lp64) (map newest_turn by_turns) (at_rest fresh))
publishing_in_order_example =
    publishing_in_order lp64-IsPlatform 4 (omega arith) (omega arith) unseen_at_first by_turns fresh
      fresh-IsFifo

-- The slot held 0 before, so the read returns NULL and the FIFO is empty without the pointer 7.
relaxed_stale_example :
    (v : Views (Pointerfifo ℕ)) × (view_run (ring lp64) sight relaxed (late_slot 7) (all_seen fresh)
      ≡ ok (wrote 7 stored_code ∷ got 0 ∷ [], v))
    × IsFifo lp64 4 v.system.fifo []
    × (((q : Queue) × Conforms 4 [] (wrote 7 stored_code ∷ got 0 ∷ []) q) ↔ (◌≡◌ {A = ℕ} 0 7))
relaxed_stale_example =
    relaxed_stale lp64-IsPlatform 4 (omega arith) (omega arith) fresh 7 (omega arith) fresh-IsFifo

fixed_orders_example :
    KeepsOrder
      (Fixed.ring lp64 4)
      (HasStorage 4)
      4
      (view_run (Fixed.ring lp64 4) fixed_sight publishing unseen_at_first (all_seen fixed_fresh))
    × ((v : Views (FixedFifo ℕ)) × (view_run
            (Fixed.ring lp64 4)
            fixed_sight
            relaxed
            (late_slot 7)
            (all_seen fixed_fresh)
          ≡ ok (wrote 7 stored_code ∷ got 0 ∷ [], v))
        × FixedSequential.IsFifo lp64 4 v.system.fifo [])
fixed_orders_example =
    fixed_orders lp64-IsPlatform 4 (omega arith) (omega arith) unseen_at_first fixed_fresh 7
      (omega arith) fixed_fresh-IsFifo
