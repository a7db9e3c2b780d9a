-- ===== src/Pointerfifo/Contract.antt =====
-- The dynamic FIFO, while it is initialized, is a ring of `size` slots.
use mulle_fifo.Common.{
  ℕ, ◌<◌, ◌≡◌, refl, ap, ◌∙◌, some, ok, ◌>>=◌, ◌==◌, ◌%◌, length, set, arith, length-set,
  next_index, ◌+◌,
}
use mulle_fifo.Platform.{Platform, IsPlatform, Block}
use mulle_fifo.Platform.Cells.{
  slot_of, update, count_of_cell, increment_of_cell, decrement_of_cell, slot_of-set, cell_of_slot,
}
use mulle_fifo.Ring.{Looks, IsRing}
use mulle_fifo.Pointerfifo.{
  Pointerfifo, cells_of, remainder, get_count, store, advance_write, increment, load, advance_read,
  decrement, ring,
}

-- The FIFO has room for `size` pointers, and its storage is allocated.
abbrev pub IsOpen : {Cell : Type 0} → ℕ → Pointerfifo Cell → Type 0
IsOpen {Cell} size p =
    (p.size ≡ size) × ((b : Block Cell) × (p.storage ≡ some b) × (length b.cells ≡ size))

remainder-pos : (a b : ℕ) → 0 < b → remainder a b ≡ ok (a % b)
unfolding remainder
remainder-pos a b h = ground arith

module _ {Cell : Type 0} {pl : Platform Cell} (laws : IsPlatform pl) (size : ℕ) (above : 0 < size)
    (fits : size < pl.uint_mod) where
  store-Looks :
      (x : ℕ) (p : Pointerfifo Cell)
      → IsOpen size p
      → p.write < size
      → (p' : Pointerfifo Cell) × (store pl x p ≡ ok p')
        × Looks
            (ring pl)
            (IsOpen size)
            p'
            (pl.atomic_read p.n)
            p.write
            p.read
            (update (slot_of pl (cells_of p)) p.write x)
  unfolding store
  store-Looks x p (z, (b, s, l)) h =
      let (c, e, _) = cell_of_slot laws b.cells p.write (omega arith) in
      (
        record p {
          storage = some (record b { cells = set b.cells p.write (pl.atomic_write x c) });
        },
        rw (s, ◌>>=◌, e),
        record {
          good = (z, (_, refl, length-set b.cells p.write (pl.atomic_write x c) ∙ l));
          counter_is = refl;
          write_is = refl;
          read_is = refl;
          slot_is = λ i. rw s (slot_of-set laws b.cells p.write x c (omega arith) i);
        },
      )

  load-slot :
      (p : Pointerfifo Cell)
      → IsOpen size p
      → p.read < size
      → load pl p ≡ ok (slot_of pl (cells_of p) p.read)
  unfolding load
  load-slot p (z, (b, s, l)) h =
      let (c, e, v) = cell_of_slot laws b.cells p.read (omega arith) in rw (s, ◌>>=◌, e, v)

  next :
      (i a : ℕ) (p : Pointerfifo Cell)
      → IsOpen size p
      → i ≡ a % size
      → remainder ((i + 1) % pl.uint_mod) p.size ≡ ok ((a + 1) % size)
  next i a p (z, _) e =
      rw (z, remainder-pos _ _ above, e) (ap ok (next_index a size pl.uint_mod above fits))

  pub ring-IsRing : IsRing (ring pl) size (IsOpen size)
  unfolding get_count store load increment decrement advance_write advance_read
  ring-IsRing = record {
    get_count_lem = λ p g h. count_of_cell laws p.n (omega arith);
    is_full_lem = λ p g h. rw g.0 (ap (λ k. k == size) (count_of_cell laws p.n (omega arith)));
    store_lem = λ x p g h. store-Looks x p g h;
    advance_write_lem = λ p a g e. (
      record p { write = (a + 1) % size },
      rw (next p.write a p g e),
      record { good = g; counter_is = refl; write_is = refl; read_is = refl; slot_is = λ i. refl },
    );
    increment_lem = λ p g h. record {
      good = g;
      counter_is = increment_of_cell laws p.n (omega arith);
      write_is = refl;
      read_is = refl;
      slot_is = λ i. refl;
    };
    load_lem = λ p g h. load-slot p g h;
    advance_read_lem = λ p a g e. (
      record p { read = (a + 1) % size },
      rw (next p.read a p g e),
      record { good = g; counter_is = refl; write_is = refl; read_is = refl; slot_is = λ i. refl },
    );
    decrement_lem = λ p n g e h. record {
      good = g;
      counter_is = decrement_of_cell laws p.n n e (omega arith);
      write_is = refl;
      read_is = refl;
      slot_is = λ i. refl;
    };
  }
