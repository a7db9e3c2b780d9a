-- ===== src/Pointerfifo.antt =====
-- src/mulle-pointerfifo.h: the FIFO whose size is chosen at run time, with its storage in a block
-- of an allocator. `Tolerant` has the wrappers that take a NULL FIFO.
pub mod Tolerant
pub mod Contract
pub mod Lifecycle
pub mod Refusals
pub mod Sequential
pub mod Concurrent
pub mod AsFixed
pub mod NullCalls
pub mod Abstract
pub mod View
pub mod Misuse
pub mod Owned
pub mod WholeLife
pub mod Swap
pub mod Interleaving
pub mod Release
pub mod Orders
use mulle_fifo.Common.{
  ℕ, ◌+◌, ◌-◌, ◌*◌, ◌/◌, ◌%◌, List, Option, none, some, Bool, ◌||◌, ℤ, Result, ok, err, aborted,
  undefined, ◌>>=◌, ◌>>◌, of_option, leb, ◌==◌, if◌then◌else◌, get_elem?, set, length,
}
use mulle_fifo.Platform.{Platform, Block, Allocator}
use mulle_fifo.Platform.Cells.{slot_of}
use mulle_fifo.Queue.{stored_code, full_code, null_code}
use mulle_fifo.Ring.{Ring}

-- `struct mulle_pointerfifo`. The storage is NULL after `done`.
pub record Pointerfifo (Cell : Type 0) : Type 0 where
  pub n : Cell
  pub write : ℕ
  pub read : ℕ
  pub size : ℕ
  pub allocator : ℕ
  pub storage : Option (Block Cell)

-- `a % b`, which C does not define for b = 0.
unfoldable pub remainder : ℕ → ℕ → Result ℕ
remainder a b = if b == 0 then err undefined else ok (a % b)

-- The array that `p->storage` points to.
abbrev pub cells_of : {Cell : Type 0} → Pointerfifo Cell → List Cell
cells_of p = elim p.storage [ none ↦ List.[] | some b ↦ b.cells ]

module _ {Cell : Type 0} (pl : Platform Cell) where
  -- `assert( test)`
  unfoldable pub assert : Bool → Result (Unit {0})
  assert test = if pl.ndebug || test then ok tt else err aborted

  module _ {Heap : Type 0} (al : Allocator Heap Cell) where
    -- `_mulle_pointerfifo_init`. It sets every field, and writes the counter through its cell.
    unfoldable pub init : Pointerfifo Cell → ℕ → ℕ → Heap → Result (Pointerfifo Cell × Heap)
    init p size allocator h = do
      assert (leb 2 size)
      assert (leb (size % pl.size_mod) ((pl.size_mod - 1) / pl.pointer_size))
      (block, h') ← of_option (al.malloc allocator (size * pl.pointer_size % pl.size_mod) h) aborted
      ok (
        record p {
          n = pl.nonatomic_write 0 p.n;
          write = 0;
          read = 0;
          size = size;
          allocator = allocator;
          storage = some block;
        },
        h',
      )

    -- `_mulle_pointerfifo_done`
    unfoldable pub done : Pointerfifo Cell → Heap → Pointerfifo Cell × Heap
    done p h = elim p.storage [
      | none ↦ (p, h)
      | some block ↦ (record p { storage = none }, al.free p.allocator block h)
    ]

  -- `_mulle_pointerfifo_get_count`: the casts keep the low bits of the counter.
  unfoldable pub get_count : Pointerfifo Cell → ℕ
  get_count p = pl.atomic_read p.n % pl.uintptr_mod % pl.uint_mod

  -- `_mulle_atomic_pointer_write( &p->storage[ p->write], pointer)`
  unfoldable pub store : ℕ → Pointerfifo Cell → Result (Pointerfifo Cell)
  store x p = do
    block ← of_option p.storage undefined
    cell ← of_option (get_elem? block.cells p.write) undefined
    ok (record p {
      storage = some (record block { cells = set block.cells p.write (pl.atomic_write x cell) });
    })

  -- `p->write = (p->write + 1) % p->size`
  unfoldable pub advance_write : Pointerfifo Cell → Result (Pointerfifo Cell)
  advance_write p = do
    index ← remainder ((p.write + 1) % pl.uint_mod) p.size
    ok (record p { write = index })

  -- `_mulle_atomic_pointer_increment( &p->n)`
  unfoldable pub increment : Pointerfifo Cell → Pointerfifo Cell
  increment p = record p { n = pl.atomic_increment p.n }

  -- `_mulle_atomic_pointer_read( &p->storage[ p->read])`
  unfoldable pub load : Pointerfifo Cell → Result ℕ
  load p = do
    block ← of_option p.storage undefined
    cell ← of_option (get_elem? block.cells p.read) undefined
    ok (pl.atomic_read cell)

  -- `p->read = (p->read + 1) % p->size`
  unfoldable pub advance_read : Pointerfifo Cell → Result (Pointerfifo Cell)
  advance_read p = do
    index ← remainder ((p.read + 1) % pl.uint_mod) p.size
    ok (record p { read = index })

  -- `_mulle_atomic_pointer_decrement( &p->n)`
  unfoldable pub decrement : Pointerfifo Cell → Pointerfifo Cell
  decrement p = record p { n = pl.atomic_decrement p.n }

  -- `_mulle_pointerfifo_read`
  unfoldable pub read : Pointerfifo Cell → Result (ℕ × Pointerfifo Cell)
  read p =
      if get_count p == 0
      then ok (0, p)
      else do pointer ← load p; p' ← advance_read p; ok (pointer, decrement p')

  -- `_mulle_pointerfifo_write`
  unfoldable pub write : ℕ → Pointerfifo Cell → Result (ℤ × Pointerfifo Cell)
  write x p =
      if x == 0
      then ok (null_code, p)
      else if get_count p == p.size
      then ok (full_code, p)
      else do p' ← store x p; p'' ← advance_write p'; ok (stored_code, increment p'')

  abbrev pub ring : Ring (Pointerfifo Cell)
  ring = record {
    get_count = get_count;
    is_full = λ p. get_count p == p.size;
    store = store;
    advance_write = advance_write;
    increment = increment;
    load = load;
    advance_read = advance_read;
    decrement = decrement;
    counter = λ p. pl.atomic_read p.n;
    write_index = λ p. p.write;
    read_index = λ p. p.read;
    slot = λ p. slot_of pl (cells_of p);
  }
