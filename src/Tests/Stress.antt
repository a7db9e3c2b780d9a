-- ===== src/Tests/Stress.antt =====
-- stress.c with three items on FIFOs of four slots.
use mulle_fifo.Common.{ℕ, ◌+◌, ◌*◌, ◌≡◌, refl, ok, some, arith}
use mulle_fifo.Client.Invariant.{IsArray}
use mulle_fifo.Stress.{Verdict, stress_main}
use mulle_fifo.Stress.Schedules.{Returns}
use mulle_fifo.Stress.Correct.{AllClear, stress_never_fails, stress_passes}
use mulle_fifo.Tests.{
  lp64, lp64-IsPlatform, Heap, live, bump, bump-IsAllocator, garbage, empty_heap, heap_after_init,
  four_cells, fixed_fresh,
}
use mulle_fifo.Tests.Publication.{
  item_address, item_address-IsArray, complement, in_turn, in_turn-HasRounds,
}
use mulle_fifo.Tests.Threads.{four-IsSize}

abbrev other_address : ℕ → ℕ
other_address i = 8192 + 64 * i

other_address-IsArray : IsArray other_address 3
other_address-IsArray = record {
  pointer = λ i h. omega arith;
  apart = λ i j h k e. omega (arith, e);
}

stress_never_fails_example : Returns (AllClear live 3 empty_heap) (
    stress_main lp64 bump complement 3 4 item_address other_address
      (in_turn 80)
      (in_turn 50)
      fixed_fresh
      garbage
      empty_heap)
stress_never_fails_example =
    stress_never_fails lp64-IsPlatform bump-IsAllocator complement 3 4 four-IsSize item_address
      other_address fixed_fresh garbage empty_heap heap_after_init four_cells (in_turn 80)
      (in_turn 50) item_address-IsArray other_address-IsArray refl (omega arith) refl

stress_passes_example :
    (out : Verdict × Heap) × (stress_main lp64 bump complement 3 4 item_address other_address
        (in_turn 75)
        (in_turn 75)
        fixed_fresh
        garbage
        empty_heap
      ≡ ok (some out))
    × AllClear live 3 empty_heap out
stress_passes_example =
    stress_passes lp64-IsPlatform bump-IsAllocator complement 3 4 four-IsSize item_address
      other_address fixed_fresh garbage empty_heap heap_after_init four_cells (in_turn 75)
      (in_turn 75) item_address-IsArray other_address-IsArray refl (omega arith) refl
      (in_turn-HasRounds 75) (in_turn-HasRounds 75)
