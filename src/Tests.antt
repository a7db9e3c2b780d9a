-- ===== src/Tests.antt =====
-- A concrete platform and allocator, on which the model runs, and two FIFOs on them.
pub mod Runs
pub mod Examples
pub mod Publication
pub mod Outside
pub mod Orders
pub mod Misuse
pub mod Threads
pub mod Main
pub mod Singlethread
pub mod Stress
pub mod Boundary
use mulle_fifo.Common.{
  ℕ, zero, suc, get_or, ◌+◌, ◌-◌, ◌/◌, ◌%◌, ◌^◌, ◌<◌, ◌≤◌, ◌≡◌, refl, Option, some, Bool, false,
  true, ◌&&◌, List, [], ◌∷◌, leb, ◌==◌, if◌then◌else◌, length, replicate, length-replicate, arith,
}
use mulle_fifo.Platform.{Platform, IsPlatform, Block, Allocator, IsAllocator}
use mulle_fifo.Platform.Cells.{slot_of}
use mulle_fifo.Fixed.{FixedFifo}
use mulle_fifo.Fixed.Sequential
use mulle_fifo.Pointerfifo.{Pointerfifo}
use mulle_fifo.Pointerfifo.Sequential.{IsFifo}

-- LP64, with a cell that is the pointer in it.
abbrev pub lp64 : Platform ℕ
lp64 = record {
  uint_mod = 2 ^ 32;
  uintptr_mod = 2 ^ 64;
  size_mod = 2 ^ 64;
  pointer_size = 8;
  ndebug = false;
  atomic_read = λ c. c;
  atomic_write = λ x c. x;
  nonatomic_write = λ x c. x;
  atomic_increment = λ c. (c + 1) % 2 ^ 64;
  atomic_decrement = λ c. (c + 2 ^ 64 - 1) % 2 ^ 64;
}

pub lp64-IsPlatform : IsPlatform lp64
lp64-IsPlatform = record {
  uint_wide = omega arith;
  uintptr_wide = omega arith;
  size_wide = omega arith;
  read-write = λ x c. refl;
  read-nonatomic_write = λ x c. refl;
  read-increment = λ c. refl;
  read-decrement = λ c. refl;
}

-- Blocks at ascending addresses, none used twice.
pub record Heap : Type 0 where
  pub last : ℕ
  pub used : ℕ → Bool

abbrev pub live : Heap → ℕ → Bool
live h i = leb i h.last && h.used i

-- Pointers of that many bytes.
abbrev pub bump_of : ℕ → Allocator Heap ℕ
bump_of width = record {
  malloc = λ a bytes h. some (
    record { address = suc h.last; cells = replicate (bytes / width) 0 },
    record { last = suc h.last; used = λ i. if i == suc h.last then true else h.used i },
  );
  free = λ a b h. record h { used = λ i. if i == b.address then false else h.used i };
}

pub bump_of-IsAllocator : (pl : Platform ℕ) → IsAllocator pl (bump_of pl.pointer_size) live
bump_of-IsAllocator pl = record {
  malloc-fits =
      λ a bytes h h' b e. ground (arith, length-replicate {A = ℕ} (bytes / pl.pointer_size) 0);
  malloc-fresh = λ a bytes h h' b e. ground arith;
  malloc-others = λ a bytes h h' b e i n. ground arith;
  free-released = λ a b h l. ground arith;
  free-others = λ a b h i l n. ground arith;
}

abbrev pub bump : Allocator Heap ℕ
bump = bump_of 8

pub bump-IsAllocator : IsAllocator lp64 bump live
bump-IsAllocator = bump_of-IsAllocator lp64

abbrev pub empty_heap : Heap
empty_heap = record { last = 0; used = λ i. false }

abbrev pub four_cells : Block ℕ
four_cells = record { address = 1; cells = 0 ∷ 0 ∷ 0 ∷ 0 ∷ [] }

abbrev pub heap_after_init : Heap
heap_after_init = record { last = 1; used = λ i. if i == 1 then true else false }

-- What the stack held before `init`.
abbrev pub garbage : Pointerfifo ℕ
garbage = record { n = 77; write = 5; read = 6; size = 0; allocator = 9; storage = Option.none }

-- A FIFO of four slots.
abbrev pub fresh : Pointerfifo ℕ
fresh = record { n = 0; write = 0; read = 0; size = 4; allocator = 0; storage = some four_cells }

pub fresh-IsFifo : IsFifo lp64 4 fresh []
fresh-IsFifo = (
  0,
  record {
    good = (refl, (four_cells, refl, refl));
    bound = omega arith;
    counter_is = refl;
    write_is = refl;
    read_is = refl;
    slot_is = λ i lt. elim lt [ ];
  },
)

-- The pointers 7 and 8, round the end of the storage.
abbrev pub wrapped : Pointerfifo ℕ
wrapped = record {
  n = 2;
  write = 1;
  read = 3;
  size = 4;
  allocator = 0;
  storage = some (record { address = 1; cells = 8 ∷ 5 ∷ 6 ∷ 7 ∷ [] });
}

wrapped_slot :
    (i : ℕ)
    → i < 2
    → slot_of lp64 (8 ∷ 5 ∷ 6 ∷ 7 ∷ []) ((3 + i) % 4) ≡ get_or {A = ℕ} (7 ∷ 8 ∷ []) i 0
wrapped_slot zero h = refl
wrapped_slot (suc zero) h = refl
wrapped_slot (suc (suc i)) h = absurd (omega arith)

pub wrapped-IsFifo : IsFifo lp64 4 wrapped (7 ∷ 8 ∷ [])
wrapped-IsFifo = (
  3,
  record {
    good = (refl, (_, refl, refl));
    bound = omega arith;
    counter_is = refl;
    write_is = refl;
    read_is = refl;
    slot_is = wrapped_slot;
  },
)

abbrev pub fixed_fresh : FixedFifo ℕ
fixed_fresh = record { n = 0; write = 0; read = 0; storage = 0 ∷ 0 ∷ 0 ∷ 0 ∷ [] }

pub fixed_fresh-IsFifo : Sequential.IsFifo lp64 4 fixed_fresh []
fixed_fresh-IsFifo = (
  0,
  record {
    good = refl;
    bound = omega arith;
    counter_is = refl;
    write_is = refl;
    read_is = refl;
    slot_is = λ i lt. elim lt [ ];
  },
)
