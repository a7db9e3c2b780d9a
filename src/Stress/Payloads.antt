-- ===== src/Stress/Payloads.antt =====
-- The looks of stress.c find what its stores have put into a payload.
use mulle_fifo.Common.{ℕ, zero, suc, ◌+◌, ◌*◌, ◌<◌, ◌≡◌, refl, arith, ==_iff}
use mulle_fifo.Client.Invariant.{IsWorkload}
use mulle_fifo.Stress.{Payload, fill_payload, look_into_payload, stress}

abbrev PayloadFilled : (ℕ → ℕ) → ℕ → ℕ → Payload → Type 0
PayloadFilled flip i zero p = Unit {0}
PayloadFilled flip i (suc zero) p = p.sequence ≡ i
PayloadFilled flip i (suc (suc zero)) p = (p.sequence ≡ i) × (p.check ≡ flip i)
PayloadFilled flip i (suc (suc (suc zero))) p =
    (p.sequence ≡ i) × (p.check ≡ flip i) × (p.pad_0 ≡ i * 3)
PayloadFilled flip i (suc (suc (suc (suc k)))) p =
    (p.sequence ≡ i) × (p.check ≡ flip i) × (p.pad_0 ≡ i * 3) × (p.pad_5 ≡ i * 7)

module _ (flip : ℕ → ℕ) where
  fills :
      (i j : ℕ) (p : Payload)
      → j < 4
      → PayloadFilled flip i j p
      → PayloadFilled flip i (j + 1) (fill_payload flip j i p)
  unfolding fill_payload
  fills i zero p h f = refl
  fills i (suc zero) p h f = (f, refl)
  fills i (suc (suc zero)) p h (s, c) = (s, c, refl)
  fills i (suc (suc (suc zero))) p h (s, c, a) = (s, c, a, refl)
  fills i (suc (suc (suc (suc j)))) p h f = absurd (omega (arith, h))

  looks :
      (i j corrupt : ℕ) (p : Payload)
      → j + 1 < 4
      → PayloadFilled flip i 4 p
      → look_into_payload flip j p corrupt i ≡ (corrupt, i)
  unfolding look_into_payload
  looks i zero corrupt p h (s, _, _, _) = rw (s, (==_iff i i).1 refl) refl
  looks i (suc zero) corrupt p h (s, c, _, _) = rw (s, c, (==_iff (flip i) (flip i)).1 refl) refl
  looks i (suc (suc zero)) corrupt p h (s, _, a, _) =
      rw (s, a, (==_iff (i * 3) (i * 3)).1 refl) refl
  looks i (suc (suc (suc j))) corrupt p h f = absurd (omega (arith, h))

  looks_last :
      (i j corrupt : ℕ) (p : Payload)
      → j + 1 ≡ 4
      → PayloadFilled flip i 4 p
      → look_into_payload flip j p corrupt i ≡ (corrupt, i + 1)
  unfolding look_into_payload
  looks_last i zero corrupt p h f = absurd (omega (arith, h))
  looks_last i (suc zero) corrupt p h f = absurd (omega (arith, h))
  looks_last i (suc (suc zero)) corrupt p h f = absurd (omega (arith, h))
  looks_last i (suc (suc (suc j))) corrupt p h (s, _, _, b) =
      rw (s, b, (==_iff (i * 7) (i * 7)).1 refl) refl

  pub stress-IsWorkload : IsWorkload (stress flip)
  stress-IsWorkload = record {
    Filled = PayloadFilled flip;
    some_store = omega arith;
    some_look = omega arith;
    start_lem = λ i p. tt;
    store_lem = fills;
    look_lem = looks;
    last_look_lem = looks_last;
  }
