-- ===== src/Common/Results.antt =====
-- Outcomes of C code: a value, an abort of the process, or undefined behaviour.
use mathlib.Core.Path.{◌≡◌, refl}
use mathlib.Core.Logic.{◌⊎◌, inl, inr}
use mathlib.Core.Option.{Option, none, some}

-- `aborted`: a failed `assert`, or the `fail` function of the allocator.
-- `undefined`: an access outside of the storage, or a remainder by 0.
pub data Fault : Type 0 where
  aborted undefined : Fault

pub data Result {ℓ} (A : Type ℓ) : Type ℓ where
  err : (why : Fault) → Result A
  ok : (value : A) → Result A

module _ {ℓ κ} {A : Type ℓ} {B : Type κ} where
  infixl 5 ◌>>=◌
  -- The first fault ends the computation.
  abbrev pub ◌>>=◌ : (first : Result A) (then : A → Result B) → Result B
  err why >>= then = err why
  ok value >>= then = then value

  abbrev pub map_result : (g : A → B) → Result A → Result B
  map_result g (err why) = err why
  map_result g (ok value) = ok (g value)

  -- Where two steps succeed, so does the first.
  pub >>=-eq-ok :
      (first : Result A) (then : A → Result B) {out : B}
      → (first >>= then) ≡ ok out
      → (value : A) × (first ≡ ok value) × (then value ≡ ok out)
  >>=-eq-ok (err why) then done = cc
  >>=-eq-ok (ok value) then done = (value, refl, done)

-- A step that is done for its faults only.
infixl 5 ◌>>◌
abbrev pub ◌>>◌ {ℓ} : {B : Type ℓ} → Result (Unit {0}) → Result B → Result B
check >> rest = check >>= λ _. rest

abbrev pub of_option {ℓ} : {A : Type ℓ} → Option A → Fault → Result A
of_option (some value) why = ok value
of_option none why = err why

-- To split on a computed outcome and keep the equation.
pub Result-cases {ℓ} :
    {A : Type ℓ} (m : Result A) → ((value : A) × (m ≡ ok value)) ⊎ ((why : Fault) × (m ≡ err why))
Result-cases (err why) = inr (why, refl)
Result-cases (ok value) = inl (value, refl)
