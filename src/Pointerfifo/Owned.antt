-- ===== src/Pointerfifo/Owned.antt =====
-- The allocator and the block of a dynamic FIFO stay the same from `init` to `done`, whatever its
-- threads do in between.
use mulle_fifo.Common.{ℕ, ◌<◌, ◌≡◌, refl, sym, ◌∙◌, Option, none, some, Bool, true, arith}
use native.Mathlib.Decide.{ℕ_discrete}
use mulle_fifo.Platform.{Platform, IsPlatform, Block, Allocator, IsAllocator}
use mulle_fifo.Queue.{Queue}
use mulle_fifo.Ring.{IsRing}
use mulle_fifo.Ring.Sequential.{Represents}
use mulle_fifo.Ring.Tagged.{KeepsTag, Tagged, IsRing-Tagged}
use mulle_fifo.Pointerfifo.{
  Pointerfifo, ring, store, advance_write, increment, advance_read, decrement, remainder, done,
}
use mulle_fifo.Pointerfifo.Contract.{IsOpen, ring-IsRing}

abbrev pub address_of : {Cell : Type 0} → Option (Block Cell) → Option ℕ
address_of none = none
address_of (some b) = some b.address

-- The allocator, and the address of the block.
abbrev pub owner : {Cell : Type 0} → Pointerfifo Cell → ℕ × Option ℕ
owner p = (p.allocator, address_of p.storage)

abbrev pub IsOwned : {Cell : Type 0} → ℕ → ℕ → ℕ → Pointerfifo Cell → Type 0
IsOwned size allocator address = Tagged (IsOpen size) owner (allocator, some address)

not-none-some : (a : ℕ) → Option.none ≡ some a → ⊥
not-none-some a e = cc e

some_inj : (a b : ℕ) → some a ≡ some b → a ≡ b
some_inj a b e = cc e

ring-KeepsTag : {Cell : Type 0} (pl : Platform Cell) → KeepsTag (ring pl) owner
unfolding store advance_write increment advance_read decrement remainder
ring-KeepsTag pl = record {
  store_tag = λ x f f' e. ground arith;
  advance_write_tag = λ f f' e. ground arith;
  increment_tag = λ f. refl;
  advance_read_tag = λ f f' e. ground arith;
  decrement_tag = λ f. refl;
}

pub IsOwned-IsRing :
    {Cell : Type 0} {pl : Platform Cell} (laws : IsPlatform pl) (size allocator address : ℕ)
    → 0 < size
    → size < pl.uint_mod
    → IsRing (ring pl) size (IsOwned size allocator address)
IsOwned-IsRing {pl} laws size allocator address above fits =
    IsRing-Tagged owner (allocator, some address) (ring-KeepsTag pl)
      (ring-IsRing laws size above fits)

pub IsOwned-Represents :
    {Cell : Type 0} (pl : Platform Cell) (size : ℕ) (p : Pointerfifo Cell) (b : Block Cell)
    (q : Queue)
    → p.storage ≡ some b
    → Represents (ring pl) (IsOpen size) size p q
    → Represents (ring pl) (IsOwned size p.allocator b.address) size p q
IsOwned-Represents pl size p b q e (start, h) = (
  start,
  record {
    good = (h.good, rw e refl);
    bound = h.bound;
    counter_is = h.counter_is;
    write_is = h.write_is;
    read_is = h.read_is;
    slot_is = h.slot_is;
  },
)

pub block_of :
    {Cell : Type 0} (p : Pointerfifo Cell) (o : Option (Block Cell)) (address : ℕ)
    → p.storage ≡ o
    → (owner p).1 ≡ some address
    → (b : Block Cell) × (p.storage ≡ some b) × (b.address ≡ address)
block_of p none address s e = absurd (not-none-some address (rw s at e))
block_of p (some b) address s e = (b, s, some_inj b.address address (rw s at e))

module _ {Cell Heap : Type 0} {pl : Platform Cell} {al : Allocator Heap Cell}
    {live : Heap → ℕ → Bool} (memory : IsAllocator pl al live) where
  -- To free the block that was allocated last leaves every address as it was before.
  malloc-free :
      (bytes a a' : ℕ) (h h' : Heap) (b b' : Block Cell)
      → al.malloc a bytes h ≡ some (b, h')
      → b'.address ≡ b.address
      → (i : ℕ) → live (al.free a' b' h') i ≡ live h i
  malloc-free bytes a a' h h' b b' m e i =
      let (_, free, taken) = memory.malloc-fresh _ _ _ _ _ m in
      let taken' : live h' b'.address ≡ true = rw e taken in
      elim (ℕ_discrete i b'.address) [
        | yes same ↦ rw same (memory.free-released a' b' h' taken' ∙ rw e (sym free))
        | no other ↦
            memory.free-others a' b' h' i taken' other
            ∙ memory.malloc-others _ _ _ _ _ m i (λ k. other (k ∙ sym e))
      ]

  -- `done` gives back just what `init` took.
  pub done-restores :
      (p : Pointerfifo Cell) (bytes a : ℕ) (h h' : Heap) (b : Block Cell)
      → al.malloc a bytes h ≡ some (b, h')
      → (owner p).1 ≡ some b.address
      → ((i : ℕ) → live (done pl al p h').1 i ≡ live h i) × ((done pl al p h').0.storage ≡ none)
  unfolding done
  done-restores p bytes a h h' b m e =
      let (b', s, same) = block_of p p.storage b.address refl e in
      rw s (malloc-free bytes a p.allocator h h' b b' m same, refl)
