-- ===== src/Tests/Main.antt =====
-- A FIFO of four slots from `init` to `done`, and `main` of the publication test.
use mulle_fifo.Common.{ℕ, ◌≡◌, refl, List, [], ◌∷◌, ok, some, arith}
use mulle_fifo.Pointerfifo.WholeLife.{Lives, init_run_done}
use mulle_fifo.Spsc.{Turn, produce, consume, observe}
use mulle_fifo.Client.Main.{main, main_succeeds}
use mulle_fifo.Tests.{
  lp64, lp64-IsPlatform, Heap, live, bump, bump-IsAllocator, garbage, empty_heap, heap_after_init,
  four_cells,
}
use mulle_fifo.Tests.Publication.{
  item_address, complement, item_address-IsArray, in_turn, in_turn-HasRounds,
}
use mulle_fifo.Tests.Threads.{four-IsSize}

-- Both threads are left in the middle of a call.
abbrev left_inside : List Turn
left_inside =
    produce 9 ∷ produce 9 ∷ produce 9 ∷ produce 9 ∷ consume ∷ consume ∷ produce 9 ∷ observe ∷ []

init_run_done_example : Lives lp64 bump live garbage 4 0 empty_heap left_inside
init_run_done_example =
    init_run_done lp64-IsPlatform bump-IsAllocator garbage 4 0 empty_heap heap_after_init four_cells
      left_inside (omega arith) four-IsSize refl

main_succeeds_example :
    (h : Heap) × (main lp64 bump item_address complement 3 4 garbage (in_turn 63) empty_heap
      ≡ ok (some (record { received = 3; corrupt = 0; exit_code = 0 }, h)))
    × ((i : ℕ) → live h i ≡ live empty_heap i)
main_succeeds_example =
    main_succeeds lp64-IsPlatform bump-IsAllocator item_address complement 3 4 garbage (in_turn 63)
      empty_heap heap_after_init four_cells item_address-IsArray (omega arith) four-IsSize refl
      (in_turn-HasRounds 63)
