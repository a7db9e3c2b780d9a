-- ===== src/Tests/Boundary.antt =====
-- A build with NDEBUG on a machine with 32 bit pointers.
use mulle_fifo.Common.{
  ℕ, ◌^◌, ◌+◌, ◌-◌, ◌%◌, ◌≡◌, refl, true, [], ◌∷◌, map, ok, err, undefined, arith,
}
use mulle_fifo.Platform.{Platform, IsPlatform, Block}
use mulle_fifo.Queue.{stored_code}
use mulle_fifo.Queue.Trace.{wrote}
use mulle_fifo.Queue.Replies.{write_call, read_call, count_call, replies}
use mulle_fifo.Ring.Calls.{calls}
use mulle_fifo.Pointerfifo.{Pointerfifo, init, write, read, get_count}
use mulle_fifo.Pointerfifo.Release.{small_sizes, short_storage}
use mulle_fifo.Tests.{bump_of, bump_of-IsAllocator, garbage, empty_heap, heap_after_init}

abbrev ilp32 : Platform ℕ
ilp32 = record {
  uint_mod = 2 ^ 32;
  uintptr_mod = 2 ^ 32;
  size_mod = 2 ^ 32;
  pointer_size = 4;
  ndebug = true;
  atomic_read = λ c. c;
  atomic_write = λ x c. x;
  nonatomic_write = λ x c. x;
  atomic_increment = λ c. (c + 1) % 2 ^ 32;
  atomic_decrement = λ c. (c + 2 ^ 32 - 1) % 2 ^ 32;
}

ilp32-IsPlatform : IsPlatform ilp32
ilp32-IsPlatform = record {
  uint_wide = omega arith;
  uintptr_wide = omega arith;
  size_wide = omega arith;
  read-write = λ x c. refl;
  read-nonatomic_write = λ x c. refl;
  read-increment = λ c. refl;
  read-decrement = λ c. refl;
}

abbrev two_cells : Block ℕ
two_cells = record { address = 1; cells = 0 ∷ 0 ∷ [] }

abbrev one_cell : Block ℕ
one_cell = record { address = 1; cells = 0 ∷ [] }

small_sizes_example :
    (p' : Pointerfifo ℕ) × (p'' : Pointerfifo ℕ) × (init ilp32 (bump_of 4) garbage 1 0 empty_heap
      ≡ ok (p', heap_after_init))
    × (calls
          (write ilp32)
          (read ilp32)
          (get_count ilp32)
          (write_call 7 ∷ write_call 8 ∷ count_call ∷ read_call ∷ [])
          p'
        ≡ ok ((replies 1 [] (write_call 7 ∷ write_call 8 ∷ count_call ∷ read_call ∷ [])).0, p''))
small_sizes_example =
    small_sizes ilp32-IsPlatform (bump_of-IsAllocator ilp32) 1 garbage 0 empty_heap heap_after_init
      one_cell (write_call 7 ∷ write_call 8 ∷ count_call ∷ read_call ∷ []) refl (omega arith)
      (omega arith) (omega arith) refl

-- 2 ^ 30 + 2 pointers of 4 bytes are 8 bytes to a `size_t`.
short_storage_example :
    (p' : Pointerfifo ℕ) × (p'' : Pointerfifo ℕ) × (init ilp32
        (bump_of 4)
        garbage
        (2 ^ 30 + 2)
        0
        empty_heap
      ≡ ok (p', heap_after_init))
    × (calls (write ilp32) (read ilp32) (get_count ilp32) (map write_call (7 ∷ 8 ∷ [])) p'
        ≡ ok (map (λ y. wrote y stored_code) (7 ∷ 8 ∷ []), p''))
    × (write ilp32 9 p'' ≡ err undefined)
short_storage_example =
    short_storage ilp32-IsPlatform (bump_of-IsAllocator ilp32) (2 ^ 30 + 2) garbage 0 empty_heap
      heap_after_init two_cells (7 ∷ 8 ∷ []) 9 refl (omega arith) (omega arith) refl (omega arith)
      refl (omega arith)
