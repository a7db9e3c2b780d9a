-- ===== src/Ring/Tagged.antt =====
-- What no statement of a read or a write changes may be added to the invariant of a ring.
use mulle_fifo.Common.{ℕ, ◌≡◌, ◌∙◌, ok}
use mulle_fifo.Ring.{Ring, Looks, IsRing}

-- No statement changes `tag`.
pub record KeepsTag {F T : Type 0} (r : Ring F) (tag : F → T) : Type 0 where
  pub store_tag : (x : ℕ) (f f' : F) → r.store x f ≡ ok f' → tag f' ≡ tag f
  pub advance_write_tag : (f f' : F) → r.advance_write f ≡ ok f' → tag f' ≡ tag f
  pub increment_tag : (f : F) → tag (r.increment f) ≡ tag f
  pub advance_read_tag : (f f' : F) → r.advance_read f ≡ ok f' → tag f' ≡ tag f
  pub decrement_tag : (f : F) → tag (r.decrement f) ≡ tag f

abbrev pub Tagged : {F T : Type 0} → (F → Type 0) → (F → T) → T → F → Type 0
Tagged Good tag t f = Good f × (tag f ≡ t)

Looks-Tagged :
    {F T : Type 0} {r : Ring F} {Good : F → Type 0} (tag : F → T) (t : T) {f : F} {n w rd : ℕ}
    {slots : ℕ → ℕ}
    → tag f ≡ t
    → Looks r Good f n w rd slots
    → Looks r (Tagged Good tag t) f n w rd slots
Looks-Tagged tag t e l = record {
  good = (l.good, e);
  counter_is = l.counter_is;
  write_is = l.write_is;
  read_is = l.read_is;
  slot_is = l.slot_is;
}

pub IsRing-Tagged :
    {F T : Type 0} {r : Ring F} {size : ℕ} {Good : F → Type 0} (tag : F → T) (t : T)
    → KeepsTag r tag
    → IsRing r size Good
    → IsRing r size (Tagged Good tag t)
IsRing-Tagged tag t k ring = record {
  get_count_lem = λ f g h. ring.get_count_lem f g.0 h;
  is_full_lem = λ f g h. ring.is_full_lem f g.0 h;
  store_lem = λ x f g h.
      let (f', e, l) = ring.store_lem x f g.0 h in
      (f', e, Looks-Tagged tag t (k.store_tag x f f' e ∙ g.1) l);
  advance_write_lem = λ f a g h.
      let (f', e, l) = ring.advance_write_lem f a g.0 h in
      (f', e, Looks-Tagged tag t (k.advance_write_tag f f' e ∙ g.1) l);
  increment_lem =
      λ f g h. Looks-Tagged tag t (k.increment_tag f ∙ g.1) (ring.increment_lem f g.0 h);
  load_lem = λ f g h. ring.load_lem f g.0 h;
  advance_read_lem = λ f a g h.
      let (f', e, l) = ring.advance_read_lem f a g.0 h in
      (f', e, Looks-Tagged tag t (k.advance_read_tag f f' e ∙ g.1) l);
  decrement_lem =
      λ f n g e h. Looks-Tagged tag t (k.decrement_tag f ∙ g.1) (ring.decrement_lem f n g.0 e h);
}
