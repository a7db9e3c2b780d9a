-- ===== src/Fixed/Contract.antt =====
-- The fixed FIFO is a ring of `size` slots.
use mulle_fifo.Common.{
  ℕ, ◌<◌, ◌≡◌, refl, ap, ◌∙◌, ok, ◌==◌, length, set, arith, length-set, next_index,
}
use mulle_fifo.Platform.{Platform, IsPlatform}
use mulle_fifo.Platform.Cells.{
  slot_of, update, count_of_cell, increment_of_cell, decrement_of_cell, slot_of-set, cell_of_slot,
}
use mulle_fifo.Ring.{Looks, IsRing}
use mulle_fifo.Fixed.{
  FixedFifo, get_count, store, advance_write, increment, load, advance_read, decrement, ring,
}

-- The storage has `size` slots.
abbrev pub HasStorage : {Cell : Type 0} → ℕ → FixedFifo Cell → Type 0
HasStorage size p = length p.storage ≡ size

module _ {Cell : Type 0} {pl : Platform Cell} (laws : IsPlatform pl) (size : ℕ) (above : 0 < size)
    (fits : size < pl.uint_mod) where
  store-Looks :
      (x : ℕ) (p : FixedFifo Cell)
      → HasStorage size p
      → p.write < size
      → (p' : FixedFifo Cell) × (store pl x p ≡ ok p')
        × Looks
            (ring pl size)
            (HasStorage size)
            p'
            (pl.atomic_read p.n)
            p.write
            p.read
            (update (slot_of pl p.storage) p.write x)
  unfolding store
  store-Looks x p g h =
      let (c, e, _) = cell_of_slot laws p.storage p.write (omega arith) in
      (
        record p { storage = set p.storage p.write (pl.atomic_write x c) },
        rw e,
        record {
          good = length-set p.storage p.write (pl.atomic_write x c) ∙ g;
          counter_is = refl;
          write_is = refl;
          read_is = refl;
          slot_is = slot_of-set laws p.storage p.write x c (omega arith);
        },
      )

  load-slot :
      (p : FixedFifo Cell)
      → HasStorage size p
      → p.read < size
      → load pl p ≡ ok (slot_of pl p.storage p.read)
  unfolding load
  load-slot p g h = let (c, e, v) = cell_of_slot laws p.storage p.read (omega arith) in rw (e, v)

  pub ring-IsRing : IsRing (ring pl size) size (HasStorage size)
  unfolding get_count store load increment decrement advance_write advance_read
  ring-IsRing = record {
    get_count_lem = λ p g h. count_of_cell laws p.n (omega arith);
    is_full_lem = λ p g h. ap (λ k. k == size) (count_of_cell laws p.n (omega arith));
    store_lem = λ x p g h. store-Looks x p g h;
    advance_write_lem = λ p a g e. (
      advance_write pl size p,
      refl,
      record {
        good = g;
        counter_is = refl;
        write_is = rw e (next_index a size pl.uint_mod above fits);
        read_is = refl;
        slot_is = λ i. refl;
      },
    );
    increment_lem = λ p g h. record {
      good = g;
      counter_is = increment_of_cell laws p.n (omega arith);
      write_is = refl;
      read_is = refl;
      slot_is = λ i. refl;
    };
    load_lem = λ p g h. load-slot p g h;
    advance_read_lem = λ p a g e. (
      advance_read pl size p,
      refl,
      record {
        good = g;
        counter_is = refl;
        write_is = refl;
        read_is = rw e (next_index a size pl.uint_mod above fits);
        slot_is = λ i. refl;
      },
    );
    decrement_lem = λ p n g e h. record {
      good = g;
      counter_is = decrement_of_cell laws p.n n e (omega arith);
      write_is = refl;
      read_is = refl;
      slot_is = λ i. refl;
    };
  }
