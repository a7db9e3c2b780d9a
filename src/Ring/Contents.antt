-- ===== src/Ring/Contents.antt =====
-- Which queue a ring holds, and what each statement of a read or a write does to it.
use mulle_fifo.Common.{
  ℕ, suc, ◌+◌, ◌%◌, ◌<◌, ◌≤◌, ◌≡◌, ◌≢◌, sym, ap, ◌∙◌, [], ◌∷◌, ◌++◌, ok, ◌==◌, length, get_or,
  arith, length-append, get_or-append_left, get_or-append_last, mod-ne_of_offsets,
}
use mulle_fifo.Platform.Cells.{update}
use mulle_fifo.Queue.{Queue}
use mulle_fifo.Ring.{Ring, IsRing}
use native.Mathlib.Decide.{dec_lt}
use native.Mathlib.Nat.{mod-lt}

-- The ring holds `q`, its oldest pointer at position `start`. Positions count all the pointers
-- that ever went through, and position `a` lies at index `a % size`. The two indices stand at
-- positions `w` and `rd`, which a statement of the code may have moved ahead of the counter.
pub record Holds {F : Type 0} (r : Ring F) (Good : F → Type 0) (size : ℕ) (f : F) (start : ℕ)
    (q : Queue) (w rd : ℕ) : Type 0 where
  pub good : Good f
  pub bound : length q ≤ size
  pub counter_is : r.counter f ≡ length q
  pub write_is : r.write_index f ≡ w % size
  pub read_is : r.read_index f ≡ rd % size
  pub slot_is : (i : ℕ) → i < length q → r.slot f ((start + i) % size) ≡ get_or q i 0

update_ne : (f : ℕ → ℕ) (i x j : ℕ) → i ≢ j → update f i x j ≡ f j
update_ne f i x j h = ground arith

update_self : (f : ℕ → ℕ) (i x : ℕ) → update f i x i ≡ x
update_self f i x = ground arith

module _ {F : Type 0} {r : Ring F} {size : ℕ} {Good : F → Type 0} (ring : IsRing r size Good)
    (above : 0 < size) where
  pub Holds-move :
      {f : F} {start : ℕ} {q : Queue} {w rd : ℕ} (w' rd' : ℕ)
      → w ≡ w'
      → rd ≡ rd'
      → Holds r Good size f start q w rd
      → Holds r Good size f start q w' rd'
  Holds-move w' rd' e e' h = rw (← e, ← e') h

  pub get_count-Holds :
      {f : F} {start : ℕ} {q : Queue} {w rd : ℕ}
      → Holds r Good size f start q w rd
      → r.get_count f ≡ length q
  get_count-Holds {f} h = ring.get_count_lem f h.good (omega arith) ∙ h.counter_is

  pub is_full-Holds :
      {f : F} {start : ℕ} {q : Queue} {w rd : ℕ}
      → Holds r Good size f start q w rd
      → r.is_full f ≡ (length q == size)
  is_full-Holds {f} h = ring.is_full_lem f h.good (omega arith) ∙ ap (λ k. k == size) h.counter_is

  -- A write into the slot behind the queue changes no pointer of the queue.
  pub store-Holds :
      (x : ℕ) {f : F} (start : ℕ) (q : Queue) (rd : ℕ)
      → Holds r Good size f start q (start + length q) rd
      → length q < size
      → (f' : F) × (r.store x f ≡ ok f')
        × Holds r Good size f' start q (start + length q) rd
        × (r.slot f' ((start + length q) % size) ≡ x)
  store-Holds x {f} start q rd h room =
      let (f', e, l) = ring.store_lem x f h.good (rw h.write_is (mod-lt _ above)) in
      (
        f',
        e,
        record {
          good = l.good;
          bound = h.bound;
          counter_is = l.counter_is ∙ h.counter_is;
          write_is = l.write_is ∙ h.write_is;
          read_is = l.read_is ∙ h.read_is;
          slot_is = λ i lt.
              l.slot_is _
              ∙ update_ne (r.slot f) _ x _
                  (λ k. mod-ne_of_offsets start i (length q) size lt room (sym k ∙ h.write_is))
              ∙ h.slot_is i lt;
        },
        l.slot_is _ ∙ rw (← h.write_is) (update_self (r.slot f) (r.write_index f) x),
      )

  pub advance_write-Holds :
      {f : F} {start : ℕ} {q : Queue} (w : ℕ) {rd : ℕ}
      → Holds r Good size f start q w rd
      → (f' : F) × (r.advance_write f ≡ ok f')
        × Holds r Good size f' start q (w + 1) rd
        × ((i : ℕ) → r.slot f' i ≡ r.slot f i)
  advance_write-Holds {f} w h =
      let (f', e, l) = ring.advance_write_lem f w h.good h.write_is in
      (
        f',
        e,
        record {
          good = l.good;
          bound = h.bound;
          counter_is = l.counter_is ∙ h.counter_is;
          write_is = l.write_is;
          read_is = l.read_is ∙ h.read_is;
          slot_is = λ i lt. l.slot_is _ ∙ h.slot_is i lt;
        },
        l.slot_is,
      )

  -- The increment makes the slot behind the queue part of it.
  pub increment-Holds :
      {f : F} (start : ℕ) (q : Queue) {w rd : ℕ} (x : ℕ)
      → Holds r Good size f start q w rd
      → length q < size
      → r.slot f ((start + length q) % size) ≡ x
      → Holds r Good size (r.increment f) start (q ++ (x ∷ [])) w rd
  increment-Holds {f} start q x h room v =
      let l = ring.increment_lem f h.good (omega arith) in
      record {
        good = l.good;
        bound = omega (arith, length-append q (x ∷ []));
        counter_is = omega (arith, length-append q (x ∷ []));
        write_is = l.write_is ∙ h.write_is;
        read_is = l.read_is ∙ h.read_is;
        slot_is = λ i lt. l.slot_is _ ∙ elim (dec_lt i (length q)) [
          | yes old ↦ h.slot_is i old ∙ sym (get_or-append_left q (x ∷ []) i 0 old)
          | no new ↦
              let e : i ≡ length q = omega (arith, length-append q (x ∷ [])) in
              rw (e, get_or-append_last q x 0) v
        ];
      }

  pub load-Holds :
      {f : F} {start : ℕ} {x : ℕ} {q : Queue} {w : ℕ}
      → Holds r Good size f start (x ∷ q) w start
      → r.load f ≡ ok x
  load-Holds {f} {start} {x} h =
      ring.load_lem f h.good (rw h.read_is (mod-lt _ above))
      ∙ ap ok
          (ap (r.slot f) (h.read_is ∙ ap (λ k. k % size) (omega arith)) ∙ h.slot_is 0 (omega arith))

  pub advance_read-Holds :
      {f : F} {start : ℕ} {q : Queue} {w : ℕ} (rd : ℕ)
      → Holds r Good size f start q w rd
      → (f' : F) × (r.advance_read f ≡ ok f')
        × Holds r Good size f' start q w (rd + 1)
        × ((i : ℕ) → r.slot f' i ≡ r.slot f i)
  advance_read-Holds {f} rd h =
      let (f', e, l) = ring.advance_read_lem f rd h.good h.read_is in
      (
        f',
        e,
        record {
          good = l.good;
          bound = h.bound;
          counter_is = l.counter_is ∙ h.counter_is;
          write_is = l.write_is ∙ h.write_is;
          read_is = l.read_is;
          slot_is = λ i lt. l.slot_is _ ∙ h.slot_is i lt;
        },
        l.slot_is,
      )

  -- The decrement gives the slot of the oldest pointer back.
  pub decrement-Holds :
      {f : F} (start x : ℕ) (q : Queue) {w rd : ℕ}
      → Holds r Good size f start (x ∷ q) w rd
      → Holds r Good size (r.decrement f) (start + 1) q w rd
        × ((i : ℕ) → r.slot (r.decrement f) i ≡ r.slot f i)
  decrement-Holds {f} start x q h =
      let l = ring.decrement_lem f (length q) h.good h.counter_is (omega (arith, h.bound)) in
      (
        record {
          good = l.good;
          bound = omega (arith, h.bound);
          counter_is = l.counter_is;
          write_is = l.write_is ∙ h.write_is;
          read_is = l.read_is ∙ h.read_is;
          slot_is = λ i lt.
              l.slot_is _
              ∙ ap (λ k. r.slot f (k % size)) (omega arith)
              ∙ h.slot_is (suc i) (omega arith);
        },
        l.slot_is,
      )
