-- ===== src/Ring/Sequential.antt =====
-- Reads and writes with nothing between their statements: an atomic bounded queue.
use mulle_fifo.Common.{
  ℕ, ◌+◌, ◌%◌, ◌<◌, ◌≡◌, refl, sym, ap, ◌∙◌, [], ◌∷◌, ◌++◌, ℤ, Result, ok, ◌>>=◌, ◌==◌,
  if◌then◌else◌, length, arith, length-append, list_ext, suc-==-zero, Bool-cases, inl, inr,
}
use mulle_fifo.Queue.{Queue, stored_code, full_code, null_code, enqueue, dequeue}
use mulle_fifo.Ring.{Ring, IsRing}
use mulle_fifo.Ring.Contents.{
  Holds, Holds-move, get_count-Holds, is_full-Holds, store-Holds, advance_write-Holds,
  increment-Holds, load-Holds, advance_read-Holds, decrement-Holds,
}
use native.Mathlib.Nat.{mod-add-mod}

module _ {F : Type 0} (r : Ring F) where
  -- what follows the test for an empty FIFO
  abbrev pub take_out : F → Result (ℕ × F)
  take_out f = do pointer ← r.load f; f' ← r.advance_read f; ok (pointer, r.decrement f')

  -- what follows the test for a full FIFO
  abbrev pub put_in : ℕ → F → Result (ℤ × F)
  put_in x f = do f' ← r.store x f; f'' ← r.advance_write f'; ok (stored_code, r.increment f'')

  unfoldable pub read : F → Result (ℕ × F)
  read f = if r.get_count f == 0 then ok (0, f) else take_out f

  unfoldable pub write : ℕ → F → Result (ℤ × F)
  write x f =
      if x == 0 then ok (null_code, f) else if r.is_full f then ok (full_code, f) else put_in x f

-- No read or write is under way, and the struct holds the queue `q`.
abbrev pub Represents : {F : Type 0} → Ring F → (F → Type 0) → ℕ → F → Queue → Type 0
Represents r Good size f q = (start : ℕ) × Holds r Good size f start q (start + length q) start

module _ {F : Type 0} {r : Ring F} {size : ℕ} {Good : F → Type 0} (ring : IsRing r size Good)
    (above : 0 < size) where
  -- A struct holds one queue only.
  pub Represents-unique :
      (f : F) (q q' : Queue) → Represents r Good size f q → Represents r Good size f q' → q ≡ q'
  Represents-unique f q q' (a, h) (b, k) = list_ext q q' 0 (sym h.counter_is ∙ k.counter_is) λ i lt.
      sym (h.slot_is i lt)
      ∙ ap (r.slot f) (at_index i)
      ∙ k.slot_is i (omega (arith, h.counter_is, k.counter_is))
    where
      at_index : (i : ℕ) → (a + i) % size ≡ (b + i) % size
      at_index i =
          sym (mod-add-mod a size i)
          ∙ ap (λ t. (t + i) % size) (sym h.read_is ∙ k.read_is)
          ∙ mod-add-mod b size i

  stores :
      (x : ℕ) (f : F) (q : Queue)
      → Represents r Good size f q
      → length q < size
      → (f' : F) × (put_in r x f ≡ ok (stored_code, f')) × Represents r Good size f' (q ++ (x ∷ []))
  stores x f q (start, h) room =
      let (g, e, hg, v) = store-Holds ring above x start q start h room in
      let (g', e', hg', same) = advance_write-Holds ring above (start + length q) hg in
      (
        r.increment g',
        rw (e, ◌>>=◌, e'),
        (
          start,
          Holds-move ring above (start + length (q ++ (x ∷ []))) start
              (omega (arith, length-append q (x ∷ []))) refl
              (increment-Holds ring above start q x hg' room (same _ ∙ v)),
        ),
      )

  takes :
      (x : ℕ) (f : F) (q : Queue)
      → Represents r Good size f (x ∷ q)
      → (f' : F) × (take_out r f ≡ ok (x, f')) × Represents r Good size f' q
  takes x f q (start, h) =
      let (g, e, hg, same) = advance_read-Holds ring above start h in
      (
        r.decrement g,
        rw (load-Holds ring above h, ◌>>=◌, e),
        (
          start + 1,
          Holds-move ring above (start + 1 + length q) (start + 1) (omega arith) refl
              (decrement-Holds ring above start x q hg).0,
        ),
      )

  -- A write returns the code of the queue's, on every branch, and leaves the queue's contents.
  pub write_refines :
      (x : ℕ) (f : F) (q : Queue)
      → Represents r Good size f q
      → (f' : F) × (write r x f ≡ ok ((enqueue size x q).0, f'))
        × Represents r Good size f' (enqueue size x q).1
  unfolding write enqueue
  write_refines x f q h = elim (Bool-cases (x == 0)) [
    | inl null ↦ rw null (f, refl, h)
    | inr pointer ↦
        rw (pointer, is_full-Holds ring above h.1)
          (elim (Bool-cases (length q == size)) [
            | inl full ↦ rw full (f, refl, h)
            | inr room ↦ rw room (stores x f q h (ground (arith, h.1.bound)))
          ])
  ]

  -- A read returns the oldest pointer and takes it out, or returns NULL if there is none.
  pub read_refines :
      (f : F) (q : Queue)
      → Represents r Good size f q
      → (f' : F) × (read r f ≡ ok ((dequeue q).0, f')) × Represents r Good size f' (dequeue q).1
  unfolding read dequeue
  read_refines f [] h = rw (get_count-Holds ring above h.1) (f, refl, h)
  read_refines f (x ∷ q) h = rw (get_count-Holds ring above h.1, suc-==-zero) (takes x f q h)
