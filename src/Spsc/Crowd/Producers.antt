-- ===== src/Spsc/Crowd/Producers.antt =====
-- Two producers lose a pointer.
use mulle_fifo.Common.{
  ℕ, zero, suc, ◌+◌, ◌%◌, ◌<◌, ◌≡◌, ◌≢◌, refl, ap, ◌∙◌, [], ◌∷◌, ok, arith, mod-ne_of_offsets, ◌↔◌,
  ◌⊎◌, inl, inr, ==_ne, ==_iff, get_or, ◌==◌, false,
}
use native.Mathlib.Nat.{mod-lt}
use mulle_fifo.Platform.Cells.{update}
use mulle_fifo.Queue.{Queue, stored_code, enqueue}
use mulle_fifo.Queue.Trace.{wrote, Conforms}
use mulle_fifo.Ring.{Ring, Looks, IsRing}
use mulle_fifo.Ring.Contents.{Holds, is_full-Holds}
use mulle_fifo.Ring.Sequential.{Represents, Represents-unique}
use mulle_fifo.Spsc.{Producer, producer_turn}
use mulle_fifo.Spsc.Crowd.{Crowd, crowd_turn, crowd_run, same_slot}

update_congr : (f g : ℕ → ℕ) (w w' x i : ℕ) → w ≡ w' → f i ≡ g i → update f w x i ≡ update g w' x i
update_congr f g w w' x i e h = rw (e, h) refl

module _ {F : Type 0} {r : Ring F} {size : ℕ} {Good : F → Type 0} (ring : IsRing r size Good) where
  stores :
      (x : ℕ) (f : F) (n w rd : ℕ) (slots : ℕ → ℕ)
      → Looks r Good f n w rd slots
      → w < size
      → (f' : F) × (r.store x f ≡ ok f') × Looks r Good f' n w rd (update slots w x)
  stores x f n w rd slots l below =
      let (f', e, l') = ring.store_lem x f l.good (rw (l.write_is) below) in
      (
        f',
        e,
        record {
          good = l'.good;
          counter_is = l'.counter_is ∙ l.counter_is;
          write_is = l'.write_is ∙ l.write_is;
          read_is = l'.read_is ∙ l.read_is;
          slot_is = λ i.
              l'.slot_is i
              ∙ update_congr (r.slot f) slots (r.write_index f) w x i l.write_is (l.slot_is i);
        },
      )

  advances :
      (f : F) (n a rd : ℕ) (slots : ℕ → ℕ)
      → Looks r Good f n (a % size) rd slots
      → (f' : F) × (r.advance_write f ≡ ok f') × Looks r Good f' n ((a + 1) % size) rd slots
  advances f n a rd slots l =
      let (f', e, l') = ring.advance_write_lem f a l.good l.write_is in
      (
        f',
        e,
        record {
          good = l'.good;
          counter_is = l'.counter_is ∙ l.counter_is;
          write_is = l'.write_is;
          read_is = l'.read_is ∙ l.read_is;
          slot_is = λ i. l'.slot_is i ∙ l.slot_is i;
        },
      )

  increments :
      (f : F) (n w rd : ℕ) (slots : ℕ → ℕ)
      → Looks r Good f n w rd slots
      → n < size
      → Looks r Good (r.increment f) (n + 1) w rd slots
  increments f n w rd slots l below =
      let l' = ring.increment_lem f l.good (rw (l.counter_is) below) in
      record {
        good = l'.good;
        counter_is = l'.counter_is ∙ ap (λ k. k + 1) l.counter_is;
        write_is = l'.write_is ∙ l.write_is;
        read_is = l'.read_is ∙ l.read_is;
        slot_is = λ i. l'.slot_is i ∙ l.slot_is i;
      }

  -- Two steps of the index and two increments.
  moves_twice :
      (f : F) (n a rd : ℕ) (slots : ℕ → ℕ)
      → Looks r Good f n (a % size) rd slots
      → n + 1 < size
      → (f' : F) × (f'' : F) × (r.advance_write f ≡ ok f')
        × (r.advance_write (r.increment f') ≡ ok f'')
        × Looks r Good (r.increment f'') (n + 1 + 1) ((a + 1 + 1) % size) rd slots
  moves_twice f n a rd slots l below =
      let (f', e, l') = advances f n a rd slots l in
      let (f'', e', l'') =
        advances (r.increment f') (n + 1) (a + 1) rd slots
          (increments f' n ((a + 1) % size) rd slots l' (omega arith)) in
      (f', f'', e, e', increments f'' (n + 1) ((a + 1 + 1) % size) rd slots l'' below)

  -- After two stores into one slot the first pointer is gone, and the slot behind has not been
  -- stored into.
  both_stored :
      (f : F) (slots : ℕ → ℕ) (x y start : ℕ)
      → 1 < size
      → Looks r Good f
          (0 + 1 + 1)
          ((start + 1 + 1) % size)
          (start % size)
          (update (update slots (start % size) x) (start % size) y)
      → Represents r Good size f (y ∷ slots ((start + 1) % size) ∷ [])
  both_stored f slots x y start above l = (
    start,
    record {
      good = l.good;
      bound = above;
      counter_is = l.counter_is;
      write_is = l.write_is ∙ ap (λ k. k % size) (omega arith);
      read_is = l.read_is;
      slot_is = at_slot;
    },
  )
    where
      other : (start % size == (start + 1) % size) ≡ false
      other =
          let ne = λ (e : start % size ≡ (start + 1) % size).
            mod-ne_of_offsets start 0 1 size (omega arith) above
              (ap (λ k. k % size) (omega arith) ∙ e) in
          ground (arith, ne)

      at_slot :
          (i : ℕ)
          → i < 2
          → r.slot f ((start + i) % size) ≡ get_or (y ∷ slots ((start + 1) % size) ∷ []) i 0
      at_slot zero lt =
          let here : start + 0 ≡ start = omega arith in
          ap (λ k. r.slot f (k % size)) here
          ∙ l.slot_is _
          ∙ rw ((==_iff (start % size) (start % size)).1 refl) refl
      at_slot (suc zero) lt = l.slot_is _ ∙ rw other refl
      at_slot (suc (suc i)) lt = absurd (omega arith)

  Holds-Looks :
      (f : F) (start : ℕ)
      → Holds r Good size f start [] (start + 0) start
      → Looks r Good f 0 (start % size) (start % size) (r.slot f)
  Holds-Looks f start h = record {
    good = h.good;
    counter_is = h.counter_is;
    write_is = h.write_is ∙ ap (λ k. k % size) (omega arith);
    read_is = h.read_is;
    slot_is = λ i. refl;
  }

  -- What the two producers do to the FIFO.
  collide :
      (f : F) (x y start : ℕ)
      → 1 < size
      → Looks r Good f 0 (start % size) (start % size) (r.slot f)
      → (f₁ : F) × (f₂ : F) × (f₃ : F) × (f₅ : F) × (r.store x f ≡ ok f₁)
        × (r.store y f₁ ≡ ok f₂)
        × (r.advance_write f₂ ≡ ok f₃)
        × (r.advance_write (r.increment f₃) ≡ ok f₅)
        × Represents r Good size (r.increment f₅) (y ∷ r.slot f ((start + 1) % size) ∷ [])
  collide f x y start above l =
      let w = start % size in
      let below : start % size < size = mod-lt start (omega arith) in
      let (f₁, e₁, l₁) = stores x f 0 w w (r.slot f) l below in
      let (f₂, e₂, l₂) = stores y f₁ 0 w w (update (r.slot f) w x) l₁ below in
      let (f₃, f₅, e₃, e₅, l₅) =
        moves_twice f₂ 0 start w (update (update (r.slot f) w x) w y) l₂ above in
      (f₁, f₂, f₃, f₅, e₁, e₂, e₃, e₅, both_stored (r.increment f₅) (r.slot f) x y start above l₅)

-- Two writes that return 0, in one order or the other, leave an empty atomic queue with `q`.
abbrev pub InSomeOrder : ℕ → ℕ → ℕ → Queue → Type 0
InSomeOrder size x y q =
    Conforms size [] (wrote x stored_code ∷ wrote y stored_code ∷ []) q
    ⊎ Conforms size [] (wrote y stored_code ∷ wrote x stored_code ∷ []) q

two_writes_explained :
    (size x y z : ℕ) → 1 < size → x ≢ 0 → y ≢ 0 → InSomeOrder size x y (y ∷ z ∷ []) ↔ (z ≡ x)
unfolding enqueue
two_writes_explained size x y z above n m = (there, λ e. inr (back e))
  where
    there : InSomeOrder size x y (y ∷ z ∷ []) → z ≡ x
    there (inl c) = ground (arith, c)
    there (inr c) = ground (arith, c)

    back : z ≡ x → Conforms size [] (wrote y stored_code ∷ wrote x stored_code ∷ []) (y ∷ z ∷ [])
    back e = ground arith

-- The run is defined, both writes of the crowd return 0, and the FIFO then holds the second pointer
-- and then what the next slot held before. An atomic queue explains that, in one order of the
-- writes or the other, only if that slot held the first pointer.
pub record Overwrites {F : Type 0} (r : Ring F) (Good : F → Type 0) (size x y : ℕ) (f : F)
    : Type 0 where
  pub after : Crowd F Producer
  pub start : ℕ
  pub at_start : r.read_index f ≡ start % size
  pub returns :
      crowd_run
        (producer_turn r 0)
        same_slot
        (record { fifo = f; first = Producer.entering x; second = Producer.entering y })
      ≡ ok (wrote x stored_code ∷ wrote y stored_code ∷ [], after)
  pub holds : Represents r Good size after.fifo (y ∷ r.slot f ((start + 1) % size) ∷ [])
  pub explained :
      ((q : Queue) × Represents r Good size after.fifo q × InSomeOrder size x y q)
      ↔ (r.slot f ((start + 1) % size) ≡ x)

module _ {F : Type 0} {r : Ring F} {size : ℕ} {Good : F → Type 0} (ring : IsRing r size Good)
    (above : 1 < size) where
  pub producers-Overwrites :
      (f : F) (x y : ℕ) → x ≢ 0 → y ≢ 0 → Represents r Good size f [] → Overwrites r Good size x y f
  unfolding producer_turn crowd_turn crowd_run
  producers-Overwrites f x y n m (start, h) =
      let room : r.is_full f ≡ false = is_full-Holds ring (omega arith) h ∙ ground arith in
      let (f₁, f₂, f₃, f₅, e₁, e₂, e₃, e₅, after) =
        collide ring f x y start above (Holds-Looks ring f start h) in
      let explains = two_writes_explained size x y (r.slot f ((start + 1) % size)) above n m in
      record {
        after = record {
          fifo = r.increment f₅;
          first = Producer.outside;
          second = Producer.outside;
        };
        start = start;
        at_start = h.read_is;
        returns = rw (==_ne x n, room, ==_ne y m, room, e₁, e₂, e₃, e₅) refl;
        holds = after;
        explained = (
          (λ (q, h', order).
              explains.0
                (rw (Represents-unique ring (omega arith) (r.increment f₅) q _ h' after) at order)),
          λ e. (y ∷ r.slot f ((start + 1) % size) ∷ [], after, explains.1 e),
        );
      }
