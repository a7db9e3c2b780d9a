-- ===== src/Common/Modular.antt =====
-- Positions of a ring: remainders by a size that is not known.
use Prim.Native.Nat.{ℕ, ◌+◌, ◌-◌, ◌%◌, ◌<◌}
use mathlib.Core.Path.{◌≡◌, sym, ap, ◌∙◌}
use mathlib.Core.Logic.{◌≢◌}
use native.Mathlib.Decide.{dec_lt}
use native.Mathlib.Nat.{mod-lt, mod-eq_of_lt, mod-add-mod, mod-eq-sub-mod}
use native.Mathlib.Omega.{arith}

-- Fewer than `size` steps round the ring do not come back to the start.
add-mod-ne : (h k size : ℕ) → h < size → 0 < k → k < size → (h + k) % size ≢ h
add-mod-ne h k size hh above hk = elim (dec_lt (h + k) size) [
  | yes p ↦ omega (arith, mod-eq_of_lt p)
  | no p ↦ omega (
    arith,
    mod-eq-sub-mod {n = h + k} {m = size} (omega arith),
    mod-eq_of_lt {n = h + k - size} {m = size} (omega arith),
  )
]

mod-ne_of_near : (a k size : ℕ) → 0 < k → k < size → (a + k) % size ≢ a % size
mod-ne_of_near a k size above lt e =
    add-mod-ne (a % size) k size (mod-lt a (omega arith)) above lt (mod-add-mod a size k ∙ e)

-- Two positions less than `size` apart lie at different indices.
pub mod-ne_of_offsets : (a i j size : ℕ) → i < j → j < size → (a + i) % size ≢ (a + j) % size
mod-ne_of_offsets a i j size lt below e =
    mod-ne_of_near (a + i) (j - i) size (omega arith) (omega arith)
      (ap (λ k. k % size) (omega arith) ∙ sym e)

-- `(index + 1) % size` in `unsigned int` does not wrap, and is the index of the next position.
pub next_index :
    (a size word : ℕ) → 0 < size → size < word → (a % size + 1) % word % size ≡ (a + 1) % size
next_index a size word above lt =
    ap (λ k. k % size) (mod-eq_of_lt (omega (arith, mod-lt a above))) ∙ mod-add-mod a size 1
