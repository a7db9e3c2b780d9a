-- ===== src/Fixed.antt =====
-- src/mulle--pointerfifo64.h, the template from which bin/create-fifo-sources makes the headers of
-- the other sizes: it replaces every 64 by the size, so here the size is an argument. `Sizes` has
-- the twelve headers.
pub mod Contract
pub mod Sequential
pub mod Concurrent
pub mod Sizes
pub mod Orders
use mulle_fifo.Common.{
  ℕ, ◌+◌, ◌%◌, ◌≡◌, List, Option, none, some, Bool, ℤ, Result, ok, err, undefined, ◌>>=◌, of_option,
  ◌==◌, if◌then◌else◌, length, get_elem?, set,
}
use mulle_fifo.Platform.{Platform}
use mulle_fifo.Platform.Cells.{slot_of}
use mulle_fifo.Queue.{stored_code, full_code, null_code}
use mulle_fifo.Ring.{Ring}

-- `struct mulle__pointerfifo64`
pub record FixedFifo (Cell : Type 0) : Type 0 where
  pub n : Cell
  pub write : ℕ
  pub read : ℕ
  pub storage : List Cell

module _ {Cell : Type 0} (pl : Platform Cell) where
  -- The storage keeps whatever it holds.
  unfoldable pub init : FixedFifo Cell → FixedFifo Cell
  init p = record p { n = pl.nonatomic_write 0 p.n; write = 0; read = 0 }

  unfoldable pub done : FixedFifo Cell → FixedFifo Cell
  done p = p

  -- The casts keep the low bits of the counter.
  unfoldable pub get_count : FixedFifo Cell → ℕ
  get_count p = pl.atomic_read p.n % pl.uintptr_mod % pl.uint_mod

  -- `_mulle_atomic_pointer_write( &p->storage[ p->write], pointer)`
  unfoldable pub store : ℕ → FixedFifo Cell → Result (FixedFifo Cell)
  store x p = do
    cell ← of_option (get_elem? p.storage p.write) undefined
    ok (record p { storage = set p.storage p.write (pl.atomic_write x cell) })

  -- `_mulle_atomic_pointer_increment( &p->n)`
  unfoldable pub increment : FixedFifo Cell → FixedFifo Cell
  increment p = record p { n = pl.atomic_increment p.n }

  -- `_mulle_atomic_pointer_read( &p->storage[ p->read])`
  unfoldable pub load : FixedFifo Cell → Result ℕ
  load p = do cell ← of_option (get_elem? p.storage p.read) undefined; ok (pl.atomic_read cell)

  -- `_mulle_atomic_pointer_decrement( &p->n)`
  unfoldable pub decrement : FixedFifo Cell → FixedFifo Cell
  decrement p = record p { n = pl.atomic_decrement p.n }

  module _ (size : ℕ) where
    -- `p->write = (p->write + 1) % 64`
    unfoldable pub advance_write : FixedFifo Cell → FixedFifo Cell
    advance_write p = record p { write = (p.write + 1) % pl.uint_mod % size }

    -- `p->read = (p->read + 1) % 64`
    unfoldable pub advance_read : FixedFifo Cell → FixedFifo Cell
    advance_read p = record p { read = (p.read + 1) % pl.uint_mod % size }

    -- `_mulle__pointerfifo64_read`
    unfoldable pub read : FixedFifo Cell → Result (ℕ × FixedFifo Cell)
    read p =
        if get_count p == 0
        then ok (0, p)
        else do pointer ← load p; ok (pointer, decrement (advance_read p))

    -- `_mulle__pointerfifo64_write`
    unfoldable pub write : ℕ → FixedFifo Cell → Result (ℤ × FixedFifo Cell)
    write x p =
        if x == 0
        then ok (null_code, p)
        else if get_count p == size
        then ok (full_code, p)
        else do p' ← store x p; ok (stored_code, increment (advance_write p'))

    abbrev pub ring : Ring (FixedFifo Cell)
    ring = record {
      get_count = get_count;
      is_full = λ p. get_count p == size;
      store = store;
      advance_write = λ p. ok (advance_write p);
      increment = increment;
      load = load;
      advance_read = λ p. ok (advance_read p);
      decrement = decrement;
      counter = λ p. pl.atomic_read p.n;
      write_index = λ p. p.write;
      read_index = λ p. p.read;
      slot = λ p. slot_of pl p.storage;
    }
