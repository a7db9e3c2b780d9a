-- ===== src/Spsc/Orders/Relaxed.antt =====
-- Relaxed operations are not enough: a counter that is seen without the slot gives an old pointer.
use mulle_fifo.Common.{
  ℕ, ◌+◌, ◌%◌, ◌<◌, ◌≡◌, ◌≢◌, refl, ap, sym, ◌∙◌, List, [], ◌∷◌, ok, ◌>>=◌, ==_ne, ◌==◌, false,
  arith, ◌↔◌,
}
use native.Mathlib.Nat.{mod-lt}
use mulle_fifo.Queue.{Queue, stored_code, enqueue, dequeue}
use mulle_fifo.Queue.Trace.{wrote, got, Conforms}
use mulle_fifo.Ring.{Ring, IsRing}
use mulle_fifo.Ring.Contents.{
  Holds-move, store-Holds, advance_write-Holds, increment-Holds, advance_read-Holds,
  decrement-Holds,
}
use mulle_fifo.Ring.Sequential.{Represents}
use mulle_fifo.Spsc.{Producer, Consumer, producer_turn, consumer_turn}
use mulle_fifo.Spsc.Orders.{
  relaxed, Sight, IsSight, Views, Turn, write_on, read_on, see_count, write_turn, read_turn,
  view_turn, view_run, all_seen,
}

-- A whole write, a look at the counter alone, and a whole read.
abbrev pub late_slot : ℕ → List Turn
late_slot x =
    write_on x
    ∷ write_on x
    ∷ write_on x
    ∷ write_on x
    ∷ write_on x
    ∷ write_on x
    ∷ see_count
    ∷ read_on
    ∷ read_on
    ∷ read_on
    ∷ read_on
    ∷ read_on
    ∷ []

-- When an atomic queue that is empty explains a write of `x` and a read of `y` after it.
pub write_read_explained :
    (size x y : ℕ)
    → 0 < size
    → x ≢ 0
    → ((q : Queue) × Conforms size [] (wrote x stored_code ∷ got y ∷ []) q) ↔ (y ≡ x)
unfolding enqueue dequeue
write_read_explained size x y above n = (λ c. there c.0 c.1, λ e. ([], back e))
  where
    there : (q : Queue) → Conforms size [] (wrote x stored_code ∷ got y ∷ []) q → y ≡ x
    there q c = ground (arith, c)

    back : y ≡ x → Conforms size [] (wrote x stored_code ∷ got y ∷ []) []
    back e = ground arith

module _ {F : Type 0} {r : Ring F} {size : ℕ} {Good : F → Type 0} (ring : IsRing r size Good)
    (above : 0 < size) {sight : Sight F} (law : IsSight r sight Good) where
  room_seen :
      (f g : F) → Good f → Good g → r.counter g ≡ 0 → r.is_full (sight.with_counter f g) ≡ false
  room_seen f g good good' e =
      let seen : r.counter (sight.with_counter f g) ≡ 0 = law.counter_lem f g ∙ e in
      ring.is_full_lem (sight.with_counter f g) (law.counter_good f g good good')
        (omega (arith, seen))
      ∙ ap (λ k. k == size) seen
      ∙ ground arith

  pointer_seen :
      (f g : F) → Good f → Good g → r.counter g ≡ 1 → r.get_count (sight.with_counter f g) ≡ 1
  pointer_seen f g good good' e =
      let seen : r.counter (sight.with_counter f g) ≡ 1 = law.counter_lem f g ∙ e in
      ring.get_count_lem (sight.with_counter f g) (law.counter_good f g good good')
        (omega (arith, seen))
      ∙ seen

  old_loaded :
      (f g : F) (start : ℕ)
      → Good f
      → Good g
      → r.read_index f ≡ start % size
      → r.load (sight.with_slots f g) ≡ ok (r.slot g (start % size))
  old_loaded f g start good good' e =
      let own : r.read_index (sight.with_slots f g) ≡ start % size = law.index_lem f g ∙ e in
      ring.load_lem (sight.with_slots f g) (law.slots_good f g good good')
        (rw own (mod-lt start above))
      ∙ ap ok (law.slots_lem f g _ ∙ ap (r.slot g) own)

  pub late_slot-stale :
      (f : F) (x : ℕ)
      → x ≢ 0
      → Represents r Good size f []
      → (v : Views F) × (view_run r sight relaxed (late_slot x) (all_seen f)
          ≡ ok (wrote x stored_code ∷ got (r.slot f (r.read_index f)) ∷ [], v))
        × Represents r Good size v.system.fifo []
        × (((q : Queue) × Conforms size []
                (wrote x stored_code ∷ got (r.slot f (r.read_index f)) ∷ [])
                q)
            ↔ (r.slot f (r.read_index f) ≡ x))
  unfolding view_run view_turn write_turn read_turn producer_turn consumer_turn
  late_slot-stale f x n (start, h) =
      let (f₁, e₁, h₁, v₁) = store-Holds ring above x start [] start h above in
      let (f₂, e₂, h₂, same) = advance_write-Holds ring above (start + 0) h₁ in
      let h₃ = increment-Holds ring above start [] x h₂ above (same _ ∙ v₁) in
      let (f₄, e₄, h₄, _) = advance_read-Holds ring above start h₃ in
      let (h₅, _) = decrement-Holds ring above start x [] h₄ in
      let fits = room_seen f f h.good h.good (h.counter_is) in
      let one = pointer_seen (r.increment f₂) (r.increment f₂) h₃.good h₃.good h₃.counter_is in
      let old =
        old_loaded (r.increment f₂) f start h₃.good h.good h₃.read_is
        ∙ ap (λ k. ok (r.slot f k)) (sym h.read_is) in
      (
        record {
          system = record {
            fifo = r.decrement f₄;
            producer = Producer.outside;
            consumer = Consumer.outside;
          };
          full_seen = r.increment f₂;
          count_seen = r.decrement f₄;
          slots_seen = f;
          published = r.increment f₂;
        },
        rw (==_ne x n, fits, ◌>>=◌, e₁, ◌>>=◌, e₂, ◌>>=◌, one, ◌>>=◌, old, ◌>>=◌, e₄) refl,
        (start + 1, Holds-move ring above (start + 1 + 0) (start + 1) (omega arith) refl h₅),
        write_read_explained size x (r.slot f (r.read_index f)) above n,
      )
