-- ===== src/Pointerfifo/Release/Filling.antt =====
-- A dynamic FIFO whose storage has fewer slots than its size says.
use mulle_fifo.Common.{
  ℕ, ◌+◌, ◌%◌, ◌<◌, ◌≡◌, ◌≢◌, refl, ap, ◌∙◌, none, some, List, [], ◌∷◌, map, length, ok, err,
  undefined, ◌>>=◌, get_elem?, get_elem?-of_lt, get_elem?-of_le, set, length-set, arith,
}
use native.Mathlib.Nat.{mod-eq_of_lt}
use mulle_fifo.Platform.{Platform, IsPlatform, Block}
use mulle_fifo.Platform.Cells.{count_of_cell, increment_of_cell}
use mulle_fifo.Queue.{stored_code}
use mulle_fifo.Queue.Trace.{wrote, HasNoNull}
use mulle_fifo.Queue.Replies.{write_call}
use mulle_fifo.Ring.Calls.{calls}
use mulle_fifo.Pointerfifo.{
  Pointerfifo, write, read, get_count, store, advance_write, increment, remainder,
}

module _ {Cell : Type 0} {pl : Platform Cell} (laws : IsPlatform pl) where
  -- `size` slots are asked for, and there are `slots`; the first `i` are used.
  pub record Filling (size slots i : ℕ) (p : Pointerfifo Cell) : Type 0 where
    pub block : Block Cell
    pub stored : p.storage ≡ some block
    pub block_size : length block.cells ≡ slots
    pub size_is : p.size ≡ size
    pub write_is : p.write ≡ i
    pub counter_is : pl.atomic_read p.n ≡ i

  write_step :
      (size slots i x : ℕ) (p : Pointerfifo Cell)
      → slots < size
      → size < pl.uint_mod
      → x ≢ 0
      → i < slots
      → Filling size slots i p
      → (p' : Pointerfifo Cell) × (write pl x p ≡ ok (stored_code, p'))
        × Filling size slots (i + 1) p'
  unfolding write get_count store advance_write increment remainder
  write_step size slots i x p short fits n more f =
      let (c, e) =
        get_elem?-of_lt f.block.cells p.write (omega (arith, f.write_is, f.block_size, more)) in
      let count : pl.atomic_read p.n % pl.uintptr_mod % pl.uint_mod ≡ i =
        count_of_cell laws p.n (omega (arith, f.counter_is, more, short, fits)) ∙ f.counter_is in
      let index : (p.write + 1) % pl.uint_mod % p.size ≡ i + 1 =
        rw (f.write_is, f.size_is)
          (ap (λ k. k % size) (mod-eq_of_lt (omega (arith, more, short, fits)))
            ∙ mod-eq_of_lt (omega (arith, more, short))) in
      let p' : Pointerfifo Cell = record p {
        storage =
            some (record (f.block) { cells = set f.block.cells p.write (pl.atomic_write x c) });
        write = i + 1;
        n = pl.atomic_increment p.n;
      } in
      (
        p',
        ground (arith, n, count, e, index, f.size_is, f.stored, more, short),
        record {
          block = record (f.block) { cells = set f.block.cells p.write (pl.atomic_write x c) };
          stored = refl;
          block_size = length-set f.block.cells p.write (pl.atomic_write x c) ∙ f.block_size;
          size_is = f.size_is;
          write_is = refl;
          counter_is =
              increment_of_cell laws p.n (omega (arith, f.counter_is, more, short, fits))
              ∙ ap (λ k. k + 1) f.counter_is;
        },
      )

  pub fills :
      (size slots i : ℕ) (xs : List ℕ) (p : Pointerfifo Cell)
      → slots < size
      → size < pl.uint_mod
      → HasNoNull xs
      → i + length xs ≡ slots
      → Filling size slots i p
      → (p' : Pointerfifo Cell) × (calls (write pl) (read pl) (get_count pl) (map write_call xs) p
          ≡ ok (map (λ x. wrote x stored_code) xs, p'))
        × Filling size slots slots p'
  unfolding calls
  fills size slots i [] p short fits n e f =
      let same : i ≡ slots = omega (arith, e) in (p, refl, rw same at f)
  fills size slots i (x ∷ xs) p short fits n e f =
      let (p', w, f') = write_step size slots i x p short fits n.0 (omega (arith, e)) f in
      let (p'', ws, f'') = fills size slots (i + 1) xs p' short fits n.1 (omega (arith, e)) f' in
      (p'', rw (w, ◌>>=◌, ws) refl, f'')

  -- With all slots used the next write is out of the storage.
  pub write_beyond :
      (size slots x : ℕ) (p : Pointerfifo Cell)
      → slots < size
      → size < pl.uint_mod
      → x ≢ 0
      → Filling size slots slots p
      → write pl x p ≡ err undefined
  unfolding write get_count store
  write_beyond size slots x p short fits n f =
      let count : pl.atomic_read p.n % pl.uintptr_mod % pl.uint_mod ≡ slots =
        count_of_cell laws p.n (omega (arith, f.counter_is, short, fits)) ∙ f.counter_is in
      let none' : get_elem? f.block.cells p.write ≡ none =
        get_elem?-of_le f.block.cells p.write (omega (arith, f.write_is, f.block_size)) in
      ground (arith, n, count, none', f.size_is, f.stored, short)
