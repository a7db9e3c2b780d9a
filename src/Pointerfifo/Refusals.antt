-- ===== src/Pointerfifo/Refusals.antt =====
-- When `init` of the dynamic FIFO aborts, and what it leaves otherwise.
use mulle_fifo.Common.{
  inl, inr, ℕ, ◌-◌, ◌*◌, ◌/◌, ◌%◌, ◌<◌, ◌≡◌, ◌⊎◌, none, Bool, false, ok, err, Fault, Result-cases,
  Bool-cases, aborted, arith,
}
use mulle_fifo.Platform.{Platform, IsPlatform, Allocator, IsAllocator}
use mulle_fifo.Pointerfifo.{Pointerfifo, init, done, assert}
use native.Mathlib.Decide.{dec_lt}
use mulle_fifo.Pointerfifo.Lifecycle.{init-done}

-- What `init` does not take: a size that an assert refuses, or storage that the allocator has not.
abbrev pub IsRefused :
    {Cell Heap : Type 0} → Platform Cell → Allocator Heap Cell → ℕ → ℕ → Heap → Type 0
IsRefused pl al size allocator h =
    ((pl.ndebug ≡ false)
      × ((size < 2) ⊎ ((pl.size_mod - 1) / pl.pointer_size < size % pl.size_mod)))
    ⊎ (al.malloc allocator (size * pl.pointer_size % pl.size_mod) h ≡ none)

module _ {Cell Heap : Type 0} (pl : Platform Cell) (al : Allocator Heap Cell) where
  init_aborts :
      (p : Pointerfifo Cell) (size allocator : ℕ) (h : Heap)
      → ((pl.ndebug ≡ false)
          × ((size < 2) ⊎ ((pl.size_mod - 1) / pl.pointer_size < size % pl.size_mod)))
        ⊎ (al.malloc allocator (size * pl.pointer_size % pl.size_mod) h ≡ none)
      → init pl al p size allocator h ≡ err aborted
  unfolding init assert
  init_aborts p size allocator h c = ground arith

  init_refuses :
      (p : Pointerfifo Cell) (size allocator : ℕ) (h : Heap) (why : Fault)
      → init pl al p size allocator h ≡ err why
      → IsRefused pl al size allocator h
  unfolding init assert
  init_refuses p size allocator h why e = elim (Bool-cases pl.ndebug) [
    | inl off ↦ inr (ground arith)
    | inr on ↦ elim (dec_lt size 2) [
      | yes small ↦ inl (on, inl small)
      | no least ↦ elim (dec_lt ((pl.size_mod - 1) / pl.pointer_size) (size % pl.size_mod)) [
        | yes large ↦ inl (on, inr large)
        | no most ↦ inr (ground arith)
      ]
    ]
  ]

module _ {Cell Heap : Type 0} {pl : Platform Cell} (laws : IsPlatform pl) {al : Allocator Heap Cell}
    {live : Heap → ℕ → Bool} (memory : IsAllocator pl al live) where
  -- Whatever its arguments and the contents of the struct, `init` either aborts or succeeds. It
  -- aborts exactly if asserts are compiled in and the size is below 2 or, as a size_t, above what
  -- the second assert allows, or if the allocator has no block. If it succeeds, `done` leaves the
  -- storage pointer NULL and every address allocated or free as it was before `init`: nothing
  -- leaks and nothing else is freed.
  pub init_outcome :
      (p : Pointerfifo Cell) (size allocator : ℕ) (h : Heap)
      → ((init pl al p size allocator h ≡ err aborted) × IsRefused pl al size allocator h)
        ⊎ ((p' : Pointerfifo Cell) × (h' : Heap) × (init pl al p size allocator h ≡ ok (p', h'))
            × (¬ IsRefused pl al size allocator h)
            × ((done pl al p' h').0.storage ≡ none)
            × ((i : ℕ) → live (done pl al p' h').1 i ≡ live h i))
  init_outcome p size allocator h = elim (Result-cases (init pl al p size allocator h)) [
    | inl ((p', h'), e) ↦
        let (same, closed) = init-done laws memory p p' size allocator h h' e in
        inr (
          p',
          h',
          e,
          λ refused. let e' = init_aborts pl al p size allocator h refused in cc (e, e'),
          closed,
          same,
        )
    | inr (why, e) ↦
        let refused = init_refuses pl al p size allocator h why e in
        inl (init_aborts pl al p size allocator h refused, refused)
  ]
