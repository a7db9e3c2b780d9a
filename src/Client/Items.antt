-- ===== src/Client/Items.antt =====
-- What publication.c does with its items.
use mulle_fifo.Common.{ℕ, zero, suc, ◌+◌, ◌<◌, ◌≡◌, refl, arith, ◌==◌, ==_iff, if◌then◌else◌}
use mulle_fifo.Client.{Workload}
use mulle_fifo.Client.Invariant.{IsWorkload}

-- `struct item`
pub record Item : Type 0 where
  pub value : ℕ
  pub check : ℕ

-- `items[ i].value = i` and `items[ i].check = ~i`, where `flip` is `~` on an `intptr_t`.
unfoldable pub fill_item : (ℕ → ℕ) → ℕ → ℕ → Item → Item
fill_item flip zero i item = record item { value = i }
fill_item flip (suc j) i item = record item { check = flip i }

-- `item->check != ~item->value` and `item->value != expect`
unfoldable pub look_into_item : (ℕ → ℕ) → ℕ → Item → ℕ → ℕ → ℕ × ℕ
look_into_item flip zero item corrupt expect =
    (if item.check == flip item.value then corrupt else corrupt + 1, expect)
look_into_item flip (suc j) item corrupt expect = (
  if item.value == expect then corrupt else corrupt + 1,
  if item.value == expect then expect + 1 else expect,
)

abbrev pub publication : (ℕ → ℕ) → Workload Item
publication flip = record {
  blank = record { value = 0; check = 0 };
  stores = 2;
  store = fill_item flip;
  looks = 2;
  look = look_into_item flip;
}

abbrev ItemFilled : (ℕ → ℕ) → ℕ → ℕ → Item → Type 0
ItemFilled flip i zero item = Unit {0}
ItemFilled flip i (suc zero) item = item.value ≡ i
ItemFilled flip i (suc (suc k)) item = (item.value ≡ i) × (item.check ≡ flip i)

module _ (flip : ℕ → ℕ) where
  fills :
      (i j : ℕ) (item : Item)
      → j < 2
      → ItemFilled flip i j item
      → ItemFilled flip i (j + 1) (fill_item flip j i item)
  unfolding fill_item
  fills i zero item h f = refl
  fills i (suc zero) item h f = (f, refl)
  fills i (suc (suc j)) item h f = absurd (omega (arith, h))

  looks :
      (i j corrupt : ℕ) (item : Item)
      → j + 1 < 2
      → ItemFilled flip i 2 item
      → look_into_item flip j item corrupt i ≡ (corrupt, i)
  unfolding look_into_item
  looks i zero corrupt item h (v, c) = rw (v, c, (==_iff (flip i) (flip i)).1 refl) refl
  looks i (suc j) corrupt item h f = absurd (omega (arith, h))

  looks_last :
      (i j corrupt : ℕ) (item : Item)
      → j + 1 ≡ 2
      → ItemFilled flip i 2 item
      → look_into_item flip j item corrupt i ≡ (corrupt, i + 1)
  unfolding look_into_item
  looks_last i zero corrupt item h f = absurd (omega (arith, h))
  looks_last i (suc j) corrupt item h (v, c) = rw (v, (==_iff i i).1 refl) refl

  pub publication-IsWorkload : IsWorkload (publication flip)
  publication-IsWorkload = record {
    Filled = ItemFilled flip;
    some_store = omega arith;
    some_look = omega arith;
    start_lem = λ i item. tt;
    store_lem = fills;
    look_lem = looks;
    last_look_lem = looks_last;
  }
