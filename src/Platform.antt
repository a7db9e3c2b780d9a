-- ===== src/Platform.antt =====
-- What mulle-fifo takes from its surroundings: the widths of the C types, the atomic pointers of
-- mulle-thread and the allocators of mulle-allocator. None of this code is in the repository, so
-- it is a parameter of every definition that uses it; the laws are what its documentation says.
pub mod Cells
use mulle_fifo.Common.{
  ℕ, ◌+◌, ◌-◌, ◌/◌, ◌%◌, ◌≤◌, ◌≡◌, ◌≢◌, Option, some, Bool, true, false, List, length,
}

-- A `void *` is its address, and NULL is 0. `Cell` is `mulle_atomic_pointer_t`.
pub record Platform (Cell : Type 0) : Type 0 where
  pub uint_mod : ℕ  -- UINT_MAX + 1
  pub uintptr_mod : ℕ  -- UINTPTR_MAX + 1
  pub size_mod : ℕ  -- SIZE_MAX + 1
  pub pointer_size : ℕ  -- sizeof( mulle_atomic_pointer_t)
  pub ndebug : Bool  -- whether `assert` is compiled away
  pub atomic_read : Cell → ℕ  -- _mulle_atomic_pointer_read
  pub atomic_write : ℕ → Cell → Cell  -- _mulle_atomic_pointer_write
  pub nonatomic_write : ℕ → Cell → Cell  -- _mulle_atomic_pointer_nonatomic_write
  pub atomic_increment : Cell → Cell  -- _mulle_atomic_pointer_increment
  pub atomic_decrement : Cell → Cell  -- _mulle_atomic_pointer_decrement

-- A cell holds what was written last; increment and decrement wrap at the width of a pointer.
pub record IsPlatform {Cell : Type 0} (pl : Platform Cell) : Type 0 where
  pub uint_wide : 65536 ≤ pl.uint_mod
  pub uintptr_wide : pl.uint_mod ≤ pl.uintptr_mod
  pub size_wide : pl.uint_mod ≤ pl.size_mod
  pub read-write : (x : ℕ) (c : Cell) → pl.atomic_read (pl.atomic_write x c) ≡ x
  pub read-nonatomic_write : (x : ℕ) (c : Cell) → pl.atomic_read (pl.nonatomic_write x c) ≡ x
  pub read-increment :
      (c : Cell) → pl.atomic_read (pl.atomic_increment c) ≡ (pl.atomic_read c + 1) % pl.uintptr_mod
  pub read-decrement :
      (c : Cell)
      → pl.atomic_read (pl.atomic_decrement c)
        ≡ (pl.atomic_read c + pl.uintptr_mod - 1) % pl.uintptr_mod

-- A block of memory that an allocator handed out, as an array of atomic pointers.
pub record Block (Cell : Type 0) : Type 0 where
  pub address : ℕ
  pub cells : List Cell

-- `mulle_allocator_malloc` and `mulle_allocator_free` over the state `Heap` of the allocators. The
-- first number is the `struct mulle_allocator *`, NULL for the default one. `none` is a call of the
-- allocator's `fail`, which does not return.
pub record Allocator (Heap Cell : Type 0) : Type 0 where
  pub malloc : ℕ → ℕ → Heap → Option (Block Cell × Heap)
  pub free : ℕ → Block Cell → Heap → Heap

-- `live h a` says that the block at address `a` is allocated in `h`.
pub record IsAllocator {Heap Cell : Type 0} (pl : Platform Cell) (al : Allocator Heap Cell)
    (live : Heap → ℕ → Bool) : Type 0 where
  pub malloc-fits :
      (a bytes : ℕ) (h h' : Heap) (b : Block Cell)
      → al.malloc a bytes h ≡ some (b, h')
      → length b.cells ≡ bytes / pl.pointer_size
  pub malloc-fresh :
      (a bytes : ℕ) (h h' : Heap) (b : Block Cell)
      → al.malloc a bytes h ≡ some (b, h')
      → (b.address ≢ 0) × (live h b.address ≡ false) × (live h' b.address ≡ true)
  pub malloc-others :
      (a bytes : ℕ) (h h' : Heap) (b : Block Cell)
      → al.malloc a bytes h ≡ some (b, h')
      → (i : ℕ) → i ≢ b.address
      → live h' i ≡ live h i
  pub free-released :
      (a : ℕ) (b : Block Cell) (h : Heap)
      → live h b.address ≡ true
      → live (al.free a b h) b.address ≡ false
  pub free-others :
      (a : ℕ) (b : Block Cell) (h : Heap) (i : ℕ)
      → live h b.address ≡ true
      → i ≢ b.address
      → live (al.free a b h) i ≡ live h i
