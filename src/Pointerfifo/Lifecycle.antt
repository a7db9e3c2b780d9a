-- ===== src/Pointerfifo/Lifecycle.antt =====
-- `init` and `done` of the dynamic FIFO, and the memory that they take and give back.
use mulle_fifo.Common.{
  inl, inr, ℕ, ◌-◌, ◌*◌, ◌/◌, ◌%◌, ◌<◌, ◌≤◌, ◌≡◌, ◌≢◌, ◌⊎◌, refl, ap, sym, ◌∙◌, none, some, Bool,
  true, [], ok, err, aborted, undefined, ◌>>=◌, >>=-eq-ok, of_option, leb, le→leb, length, arith,
}
use mulle_fifo.Platform.{Platform, IsPlatform, Block, Allocator, IsAllocator}
use mulle_fifo.Ring.Sequential.{Represents}
use mulle_fifo.Pointerfifo.{
  Pointerfifo, init, done, assert, read, write, store, load, ring, get_count,
}
use mulle_fifo.Pointerfifo.Contract.{IsOpen}
use mulle_fifo.Pointerfifo.Owned.{address_of, done-restores}
use native.Mathlib.Decide.{ℕ_discrete}
use native.Mathlib.Nat.{mod-eq_of_lt, div-add-mod', mul-div_cancel, zero-mod}

mul-div-le : (a b : ℕ) → a / b * b ≤ a
mul-div-le a b = omega (arith, div-add-mod' a b)

bytes-fit : (size width m : ℕ) → 0 < m → size ≤ (m - 1) / width → size * width < m
bytes-fit size width m above h = grind (arith, mul-div-le (m - 1) width)

-- What `init` asks of its size, and what a `size_t` can count.
pub record IsSize {Cell : Type 0} (pl : Platform Cell) (size : ℕ) : Type 0 where
  pub at_least : 2 ≤ size
  pub is_uint : size < pl.uint_mod
  pub fits : size ≤ (pl.size_mod - 1) / pl.pointer_size

-- The struct after `init`, with its block.
abbrev pub opened :
    {Cell : Type 0} → Platform Cell → Pointerfifo Cell → ℕ → ℕ → Block Cell → Pointerfifo Cell
opened pl p size allocator b = record p {
  n = pl.nonatomic_write 0 p.n;
  write = 0;
  read = 0;
  size = size;
  allocator = allocator;
  storage = some b;
}

module _ {Cell Heap : Type 0} {pl : Platform Cell} (laws : IsPlatform pl) {al : Allocator Heap Cell}
    {live : Heap → ℕ → Bool} (memory : IsAllocator pl al live) where
  assert-passes : (test : Bool) → test ≡ true → assert pl test ≡ ok tt
  unfolding assert
  assert-passes test e = ground arith

  -- What `init` leaves is the empty queue, if the block has as many slots as the size says.
  pub opened-Represents :
      (p : Pointerfifo Cell) (size allocator : ℕ) (b : Block Cell)
      → length b.cells ≡ size
      → Represents (ring pl) (IsOpen size) size (opened pl p size allocator b) []
  opened-Represents p size allocator b e = (
    0,
    record {
      good = (refl, (b, refl, e));
      bound = omega arith;
      counter_is = laws.read-nonatomic_write 0 p.n;
      write_is = sym (zero-mod size);
      read_is = sym (zero-mod size);
      slot_is = λ i lt. elim lt [ ];
    },
  )

  -- If the size is at least 2, countable by an unsigned int and by the second assert in range,
  -- and the allocator has a block of that many atomic pointers, then `init` of any struct
  -- succeeds without an abort, the FIFO holds the empty queue with room for `size` pointers, and
  -- it keeps the block and the allocator.
  pub init-Represents :
      (p : Pointerfifo Cell) (size allocator : ℕ) (h h' : Heap) (b : Block Cell)
      → 0 < pl.pointer_size
      → IsSize pl size
      → al.malloc allocator (size * pl.pointer_size) h ≡ some (b, h')
      → (p' : Pointerfifo Cell) × (init pl al p size allocator h ≡ ok (p', h'))
        × Represents (ring pl) (IsOpen size) size p' []
        × (p'.storage ≡ some b)
        × (p'.allocator ≡ allocator)
  unfolding init
  init-Represents p size allocator h h' b width s e = (
    opened pl p size allocator b,
    rw (
      assert-passes (leb 2 size) (le→leb 2 size s.at_least),
      ◌>>=◌,
      mod-eq_of_lt {n = size} {m = pl.size_mod} (omega (arith, laws.size_wide, s.is_uint)),
      assert-passes _ (le→leb _ _ s.fits),
      ◌>>=◌,
      mod-eq_of_lt (
          bytes-fit size pl.pointer_size pl.size_mod (omega (arith, laws.size_wide, s.is_uint))
            s.fits),
      e,
    ),
    opened-Represents p size allocator b
        (memory.malloc-fits _ _ _ _ _ e ∙ mul-div_cancel size width),
    refl,
    refl,
  )

  init-inv :
      (p p' : Pointerfifo Cell) (size allocator : ℕ) (h h' : Heap)
      → init pl al p size allocator h ≡ ok (p', h')
      → (b : Block Cell) × (al.malloc allocator (size * pl.pointer_size % pl.size_mod) h
          ≡ some (b, h'))
        × (p'.storage ≡ some b)
  unfolding init
  init-inv p p' size allocator h h' e =
      let (_, _, e₁) = >>=-eq-ok (assert pl (leb 2 size)) _ e in
      let (_, _, e₂) = >>=-eq-ok (assert pl _) _ e₁ in
      let (m, e₃, e₄) = >>=-eq-ok (of_option (al.malloc allocator _ h) aborted) _ e₂ in
      (m.0, ground arith, ground arith)

  -- Whenever `init` succeeds, `done` leaves every address allocated or free as it was before
  -- `init`, and the storage pointer NULL: nothing leaks and nothing else is freed.
  pub init-done :
      (p p' : Pointerfifo Cell) (size allocator : ℕ) (h h' : Heap)
      → init pl al p size allocator h ≡ ok (p', h')
      → ((i : ℕ) → live (done pl al p' h').1 i ≡ live h i) × ((done pl al p' h').0.storage ≡ none)
  init-done p p' size allocator h h' e =
      let (b, m, s) = init-inv p p' size allocator h h' e in
      done-restores memory p' _ allocator h h' b m (ap address_of s)

pub done-done :
    {Cell Heap : Type 0} (pl : Platform Cell) (al : Allocator Heap Cell) (p : Pointerfifo Cell)
    (h : Heap)
    → done pl al (done pl al p h).0 (done pl al p h).1 ≡ done pl al p h
unfolding done
done-done pl al p h = ground arith

module _ {Cell Heap : Type 0} (pl : Platform Cell) (al : Allocator Heap Cell) where
  closed_undefined :
      (p : Pointerfifo Cell) (h : Heap) (x : ℕ)
      → x ≢ 0
      → (get_count pl p ≢ p.size → write pl x (done pl al p h).0 ≡ err undefined)
        × (get_count pl p ≢ 0 → read pl (done pl al p h).0 ≡ err undefined)
  unfolding done write read store load get_count
  closed_undefined p h x n = ground arith

  -- On any dynamic FIFO, with any pointer other than NULL: a second `done` changes neither the
  -- struct nor the state of the allocators, so nothing is freed twice; and after `done` a write
  -- of the pointer is undefined unless the count equals the size, and a read is undefined unless
  -- the count is 0.
  pub after_done :
      (p : Pointerfifo Cell) (h : Heap) (x : ℕ)
      → x ≢ 0
      → (done pl al (done pl al p h).0 (done pl al p h).1 ≡ done pl al p h)
        × ((get_count pl p ≡ p.size) ⊎ (write pl x (done pl al p h).0 ≡ err undefined))
        × ((get_count pl p ≡ 0) ⊎ (read pl (done pl al p h).0 ≡ err undefined))
  after_done p h x n =
      let (w, r) = closed_undefined p h x n in
      (
        done-done pl al p h,
        elim (ℕ_discrete (get_count pl p) p.size) [ yes full ↦ inl full | no room ↦ inr (w room) ],
        elim (ℕ_discrete (get_count pl p) 0) [ yes empty ↦ inl empty | no some' ↦ inr (r some') ],
      )
