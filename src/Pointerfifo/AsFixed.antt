-- ===== src/Pointerfifo/AsFixed.antt =====
-- While it is initialized, the dynamic FIFO does what the fixed FIFO of its size does, step for step.
use mulle_fifo.Common.{
  ℕ, ℤ, ◌≡◌, ◌≢◌, Bool, true, false, Option, none, refl, sym, some, List, ok, map_result, arith,
}
use mulle_fifo.Queue.Replies.{Call}
use mulle_fifo.Ring.Calls.{calls, calls-map}
use mulle_fifo.Platform.{Platform, Block}
use mulle_fifo.Fixed
use mulle_fifo.Fixed.{FixedFifo}
use mulle_fifo.Pointerfifo.{
  Pointerfifo, cells_of, remainder, get_count, store, load, advance_write, advance_read, increment,
  decrement, read, write,
}

-- The struct without the fields that a fixed FIFO does not have.
abbrev pub as_fixed : {Cell : Type 0} → Pointerfifo Cell → FixedFifo Cell
as_fixed p = record { n = p.n; write = p.write; read = p.read; storage = cells_of p }

abbrev is_some : {A : Type 0} → Option A → Bool
is_some none = false
is_some (some a) = true

some_of : {A : Type 0} (o : Option A) → is_some o ≡ true → (a : A) × (o ≡ some a)
some_of none e = ground arith
some_of (some a) e = (a, refl)

module _ {Cell : Type 0} (pl : Platform Cell) where
  write-as_fixed :
      (x : ℕ) (p : Pointerfifo Cell) (b : Block Cell)
      → p.storage ≡ some b
      → p.size ≢ 0
      → map_result (λ (c, p'). (c, as_fixed p')) (write pl x p)
        ≡ Fixed.write pl p.size x (as_fixed p)
  unfolding write get_count store advance_write increment remainder Fixed.write Fixed.get_count
      Fixed.store Fixed.advance_write Fixed.increment
  write-as_fixed x p b s n = ground arith

  read-as_fixed :
      (p : Pointerfifo Cell) (b : Block Cell)
      → p.storage ≡ some b
      → p.size ≢ 0
      → map_result (λ (x, p'). (x, as_fixed p')) (read pl p) ≡ Fixed.read pl p.size (as_fixed p)
  unfolding read get_count load advance_read decrement remainder Fixed.read Fixed.get_count
      Fixed.load Fixed.advance_read Fixed.decrement
  read-as_fixed p b s n = ground arith

  -- The size, and that there is storage.
  abbrev IsReady : ℕ → Pointerfifo Cell → Type 0
  IsReady size p = (p.size ≡ size) × (is_some p.storage ≡ true)

  write-IsReady :
      (size x : ℕ) (p : Pointerfifo Cell) (a : ℤ × Pointerfifo Cell)
      → IsReady size p
      → write pl x p ≡ ok a
      → IsReady size a.1
  unfolding write get_count store advance_write increment remainder
  write-IsReady size x p a (n, s) e = (ground arith, ground arith)

  read-IsReady :
      (size : ℕ) (p : Pointerfifo Cell) (a : ℕ × Pointerfifo Cell)
      → IsReady size p
      → read pl p ≡ ok a
      → IsReady size a.1
  unfolding read get_count load advance_read decrement remainder
  read-IsReady size p a (n, s) e = (ground arith, ground arith)

  -- From any state of a dynamic FIFO with storage and a size other than 0, every sequence of
  -- writes, reads and counts returns what it returns on a fixed FIFO of that size with the same
  -- counter, indices and slots, and leaves the same counter, indices and slots, or both sequences
  -- are undefined.
  pub calls-as_fixed :
      (cs : List Call) (p : Pointerfifo Cell) (b : Block Cell)
      → p.storage ≡ some b
      → p.size ≢ 0
      → calls (Fixed.write pl p.size) (Fixed.read pl p.size) (Fixed.get_count pl) cs (as_fixed p)
        ≡ map_result
            (λ (es, p'). (es, as_fixed p'))
            (calls (write pl) (read pl) (get_count pl) cs p)
  unfolding get_count Fixed.get_count
  calls-as_fixed cs p b s n =
      calls-map {Good = IsReady p.size}
        (record {
          write_same = λ x p' (size, has).
              let (b', s') = some_of p'.storage has in
              rw (← size) (sym (write-as_fixed x p' b' s' (rw size n)));
          write_good = write-IsReady p.size;
          read_same = λ p' (size, has).
              let (b', s') = some_of p'.storage has in
              rw (← size) (sym (read-as_fixed p' b' s' (rw size n)));
          read_good = read-IsReady p.size;
          count_same = λ p' g. refl;
        })
        cs p (refl, rw s refl)
