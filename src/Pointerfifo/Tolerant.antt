-- ===== src/Pointerfifo/Tolerant.antt =====
-- The wrappers of src/mulle-pointerfifo.h without the underscore: a NULL FIFO is `none`.
use mulle_fifo.Common.{ℕ, Option, none, some, ℤ, Result, ok, ◌>>=◌}
use mulle_fifo.Platform.{Platform, Allocator}
use mulle_fifo.Queue.{full_code}
use mulle_fifo.Pointerfifo as Unchecked
use mulle_fifo.Pointerfifo.{Pointerfifo}

module _ {Cell : Type 0} (pl : Platform Cell) where
  module _ {Heap : Type 0} (al : Allocator Heap Cell) where
    -- `mulle_pointerfifo_init`
    unfoldable pub init :
        Option (Pointerfifo Cell) → ℕ → ℕ → Heap → Result (Option (Pointerfifo Cell) × Heap)
    init none size allocator h = ok (none, h)
    init (some p) size allocator h = do
      (p', h') ← Unchecked.init pl al p size allocator h
      ok (some p', h')

    -- `mulle_pointerfifo_done`
    unfoldable pub done : Option (Pointerfifo Cell) → Heap → Option (Pointerfifo Cell) × Heap
    done none h = (none, h)
    done (some p) h = let (p', h') = Unchecked.done pl al p h in (some p', h')

  -- `mulle_pointerfifo_get_count`
  unfoldable pub get_count : Option (Pointerfifo Cell) → ℕ
  get_count none = 0
  get_count (some p) = Unchecked.get_count pl p

  -- `mulle_pointerfifo_read`
  unfoldable pub read : Option (Pointerfifo Cell) → Result (ℕ × Option (Pointerfifo Cell))
  read none = ok (0, none)
  read (some p) = do (pointer, p') ← Unchecked.read pl p; ok (pointer, some p')

  -- `mulle_pointerfifo_write`
  unfoldable pub write : ℕ → Option (Pointerfifo Cell) → Result (ℤ × Option (Pointerfifo Cell))
  write x none = ok (full_code, none)
  write x (some p) = do (code, p') ← Unchecked.write pl x p; ok (code, some p')
