-- ===== src/Ring.antt =====
-- The interface between the two FIFO implementations and what is proved of both: the statements of
-- a read and of a write as operations on a struct `F`, and what each does to the counter, the two
-- indices and the slots.
pub mod Contents
pub mod Sequential
pub mod Calls
pub mod Tagged
use mulle_fifo.Common.{ℕ, suc, ◌+◌, ◌%◌, ◌<◌, ◌≤◌, ◌≡◌, Bool, Result, ok, ◌==◌}
use mulle_fifo.Platform.Cells.{update}

-- The statements of `read` and `write`, one field for each, and the four parts of the struct that
-- they work on. Each field that touches memory that both threads see is one atomic access.
pub record Ring (F : Type 0) : Type 0 where
  pub get_count : F → ℕ
  pub is_full : F → Bool  -- get_count( p) == size
  pub store : ℕ → F → Result F  -- storage[ write] = pointer
  pub advance_write : F → Result F  -- write = (write + 1) % size
  pub increment : F → F  -- ++n
  pub load : F → Result ℕ  -- storage[ read]
  pub advance_read : F → Result F  -- read = (read + 1) % size
  pub decrement : F → F  -- --n
  pub counter : F → ℕ
  pub write_index : F → ℕ
  pub read_index : F → ℕ
  pub slot : F → ℕ → ℕ

-- What a struct looks like after a statement.
pub record Looks {F : Type 0} (r : Ring F) (Good : F → Type 0) (f : F) (n w rd : ℕ) (slots : ℕ → ℕ)
    : Type 0 where
  pub good : Good f
  pub counter_is : r.counter f ≡ n
  pub write_is : r.write_index f ≡ w
  pub read_is : r.read_index f ≡ rd
  pub slot_is : (i : ℕ) → r.slot f i ≡ slots i

-- What an implementation with room for `size` pointers owes. `Good` is its own invariant.
pub record IsRing {F : Type 0} (r : Ring F) (size : ℕ) (Good : F → Type 0) : Type 0 where
  pub get_count_lem : (f : F) → Good f → r.counter f ≤ size → r.get_count f ≡ r.counter f
  pub is_full_lem : (f : F) → Good f → r.counter f ≤ size → r.is_full f ≡ (r.counter f == size)
  pub store_lem :
      (x : ℕ) (f : F)
      → Good f
      → r.write_index f < size
      → (f' : F) × (r.store x f ≡ ok f')
        × Looks r Good f'
            (r.counter f)
            (r.write_index f)
            (r.read_index f)
            (update (r.slot f) (r.write_index f) x)
  pub advance_write_lem :
      (f : F) (a : ℕ)
      → Good f
      → r.write_index f ≡ a % size
      → (f' : F) × (r.advance_write f ≡ ok f')
        × Looks r Good f' (r.counter f) ((a + 1) % size) (r.read_index f) (r.slot f)
  pub increment_lem :
      (f : F)
      → Good f
      → r.counter f < size
      → Looks r Good (r.increment f) (r.counter f + 1) (r.write_index f) (r.read_index f) (r.slot f)
  pub load_lem :
      (f : F) → Good f → r.read_index f < size → r.load f ≡ ok (r.slot f (r.read_index f))
  pub advance_read_lem :
      (f : F) (a : ℕ)
      → Good f
      → r.read_index f ≡ a % size
      → (f' : F) × (r.advance_read f ≡ ok f')
        × Looks r Good f' (r.counter f) (r.write_index f) ((a + 1) % size) (r.slot f)
  pub decrement_lem :
      (f : F) (n : ℕ)
      → Good f
      → r.counter f ≡ suc n
      → n < size
      → Looks r Good (r.decrement f) n (r.write_index f) (r.read_index f) (r.slot f)
