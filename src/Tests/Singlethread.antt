-- ===== src/Tests/Singlethread.antt =====
-- The programs of test/10-singlethread with four slots.
use mulle_fifo.Common.{ℕ, ◌≡◌, refl, ◌++◌, ok, arith}
use mulle_fifo.Fixed.{FixedFifo}
use mulle_fifo.Singlethread.{contract_main, simple_main, contract_fixed_main, simple_fixed_main}
use mulle_fifo.Singlethread.Contract.{contract_prints}
use mulle_fifo.Singlethread.Prints.{writes_shown, reads_shown}
use mulle_fifo.Singlethread.Correct.{dynamic_programs, fixed_programs}
use mulle_fifo.Tests.{
  lp64, lp64-IsPlatform, Heap, live, bump, bump-IsAllocator, garbage, empty_heap, heap_after_init,
  four_cells, fixed_fresh,
}
use mulle_fifo.Tests.Threads.{four-IsSize}

dynamic_programs_example :
    ((h : Heap) × (contract_main lp64 bump 4 100 garbage empty_heap
        ≡ ok ((0, record { failures = 0; printed = contract_prints 4 }), h))
      × ((i : ℕ) → live h i ≡ live empty_heap i))
    × ((h : Heap) × (simple_main lp64 bump 4 garbage empty_heap
          ≡ ok (record { failures = 0; printed = writes_shown 0 4 ++ reads_shown 1 4 }, h))
        × ((i : ℕ) → live h i ≡ live empty_heap i))
dynamic_programs_example =
    dynamic_programs lp64-IsPlatform bump-IsAllocator garbage 4 100 empty_heap heap_after_init
      four_cells (omega arith) four-IsSize refl

fixed_programs_example :
    ((p : FixedFifo ℕ) × (contract_fixed_main lp64 4 100 fixed_fresh
        ≡ ok ((0, record { failures = 0; printed = contract_prints 4 }), p)))
    × ((p : FixedFifo ℕ) × (simple_fixed_main lp64 4 fixed_fresh
          ≡ ok (record { failures = 0; printed = writes_shown 0 4 ++ reads_shown 1 4 }, p)))
fixed_programs_example =
    fixed_programs lp64-IsPlatform fixed_fresh 4 100 (omega arith) (omega arith) refl
