-- ===== src/Platform/Cells.antt =====
-- Atomic cells as the FIFOs use them: a counter that stays below a size, and an array of slots.
use mulle_fifo.Common.{
  ℕ, suc, ◌+◌, ◌%◌, ◌<◌, ◌≡◌, ap, ◌∙◌, none, some, List, ◌==◌, if◌then◌else◌, length, get_elem?,
  set, arith, get_elem?-of_lt, get_elem?-set_self, get_elem?-set_ne, Bool-cases, inl, inr, ==_iff,
}
use mulle_fifo.Platform.{Platform, IsPlatform}
use native.Mathlib.Nat.{mod-eq_of_lt, mod-eq-sub-mod}

-- What a slot holds; 0 outside of the array.
abbrev pub slot_of : {Cell : Type 0} → Platform Cell → List Cell → ℕ → ℕ
slot_of pl cells i = elim (get_elem? cells i) [ none ↦ 0 | some cell ↦ pl.atomic_read cell ]

abbrev pub update : (ℕ → ℕ) → ℕ → ℕ → ℕ → ℕ
update f i x j = if i == j then x else f j

module _ {Cell : Type 0} {pl : Platform Cell} (laws : IsPlatform pl) where
  open laws use {uintptr_wide, read-write, read-increment, read-decrement}

  -- The casts `(unsigned int) (uintptr_t)` lose nothing.
  pub count_of_cell :
      (c : Cell)
      → pl.atomic_read c < pl.uint_mod
      → pl.atomic_read c % pl.uintptr_mod % pl.uint_mod ≡ pl.atomic_read c
  count_of_cell c h =
      ap (λ k. k % pl.uint_mod) (mod-eq_of_lt (omega arith)) ∙ mod-eq_of_lt (omega arith)

  pub increment_of_cell :
      (c : Cell)
      → pl.atomic_read c + 1 < pl.uint_mod
      → pl.atomic_read (pl.atomic_increment c) ≡ pl.atomic_read c + 1
  increment_of_cell c h = read-increment c ∙ mod-eq_of_lt (omega arith)

  pub decrement_of_cell :
      (c : Cell) (n : ℕ)
      → pl.atomic_read c ≡ suc n
      → n < pl.uint_mod
      → pl.atomic_read (pl.atomic_decrement c) ≡ n
  decrement_of_cell c n e h =
      read-decrement c
      ∙ mod-eq-sub-mod (omega arith)
      ∙ ap (λ k. k % pl.uintptr_mod) (omega arith)
      ∙ mod-eq_of_lt {n = n} (omega arith)

  pub slot_of-set :
      (cells : List Cell) (w x : ℕ) (c : Cell)
      → w < length cells
      → (i : ℕ) → slot_of pl (set cells w (pl.atomic_write x c)) i ≡ update (slot_of pl cells) w x i
  slot_of-set cells w x c h i = elim (Bool-cases (w == i)) [
    | inl same ↦ rw (
      same,
      ← (==_iff w i).0 same,
      slot_of,
      get_elem?-set_self cells w (pl.atomic_write x c) h,
      read-write,
    )
    | inr other ↦ rw (
      other,
      slot_of,
      get_elem?-set_ne cells w i (pl.atomic_write x c) (λ e. cc (other, (==_iff w i).1 e)),
    )
  ]

  pub cell_of_slot :
      (cells : List Cell) (i : ℕ)
      → i < length cells
      → (c : Cell) × (get_elem? cells i ≡ some c) × (pl.atomic_read c ≡ slot_of pl cells i)
  cell_of_slot cells i h = let (c, e) = get_elem?-of_lt cells i h in (c, e, rw (slot_of, e))
