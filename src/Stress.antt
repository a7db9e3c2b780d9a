-- ===== src/Stress.antt =====
-- test/20-multithreaded/stress.c: the loops of `Client` with a larger item, on a fixed FIFO and then
-- on a dynamic one. The waiting with `mulle_thread_yield` is a choice of the schedule.
pub mod Payloads
pub mod Schedules
pub mod Correct
use mulle_fifo.Common.{
  ℕ, zero, suc, ◌+◌, ◌*◌, List, Option, none, some, Bool, Result, ok, ◌>>=◌, ◌==◌, ◌&&◌,
  if◌then◌else◌,
}
use mulle_fifo.Platform.{Platform, Allocator}
use mulle_fifo.Fixed
use mulle_fifo.Fixed.{FixedFifo}
use mulle_fifo.Pointerfifo.{Pointerfifo, ring, init, done}
use mulle_fifo.Client.{Workload, Writer, Reader, Publication, Side, publish, start}

-- `struct payload`. The program uses two of its six words of padding.
pub record Payload : Type 0 where
  pub sequence : ℕ
  pub check : ℕ
  pub pad_0 : ℕ
  pub pad_5 : ℕ

-- The four stores into a payload, where `flip` is `~` on an `intptr_t`.
unfoldable pub fill_payload : (ℕ → ℕ) → ℕ → ℕ → Payload → Payload
fill_payload flip zero i p = record p { sequence = i }
fill_payload flip (suc zero) i p = record p { check = flip i }
fill_payload flip (suc (suc zero)) i p = record p { pad_0 = i * 3 }
fill_payload flip (suc (suc (suc j))) i p = record p { pad_5 = i * 7 }

-- The four comparisons. `++expect` follows the last one.
unfoldable pub look_into_payload : (ℕ → ℕ) → ℕ → Payload → ℕ → ℕ → ℕ × ℕ
look_into_payload flip zero p corrupt expect =
    (if p.sequence == expect then corrupt else corrupt + 1, expect)
look_into_payload flip (suc zero) p corrupt expect =
    (if p.check == flip p.sequence then corrupt else corrupt + 1, expect)
look_into_payload flip (suc (suc zero)) p corrupt expect =
    (if p.pad_0 == p.sequence * 3 then corrupt else corrupt + 1, expect)
look_into_payload flip (suc (suc (suc j))) p corrupt expect =
    (if p.pad_5 == p.sequence * 7 then corrupt else corrupt + 1, expect + 1)

abbrev pub stress : (ℕ → ℕ) → Workload Payload
stress flip = record {
  blank = record { sequence = 0; check = 0; pad_0 = 0; pad_5 = 0 };
  stores = 4;
  store = fill_payload flip;
  looks = 4;
  look = look_into_payload flip;
}

-- `mulle_thread_join` after the consumer's loop: there is a result if both threads are at their ends.
unfoldable pub joined {ℓ} : {A : Type ℓ} → Reader → Writer → A → Option A
joined Reader.finished Writer.finished a = some a
joined Reader.finished w a = none
joined c w a = none

-- What `printf` shows, and what `main` returns.
pub record Verdict : Type 0 where
  pub n_items : ℕ
  pub fixed_corrupt : ℕ
  pub dynamic_corrupt : ℕ
  pub exit_code : ℕ

abbrev pub report : {F Heap : Type 0} → ℕ → ℕ → Option (ℕ × F × Heap) → Option (Verdict × Heap)
report n_items fixed_corrupt none = none
report n_items fixed_corrupt (some (dynamic_corrupt, f, h)) = some (
  record {
    n_items = n_items;
    fixed_corrupt = fixed_corrupt;
    dynamic_corrupt = dynamic_corrupt;
    exit_code = if fixed_corrupt == 0 && dynamic_corrupt == 0 then 0 else 1;
  },
  h,
)

-- The addresses are `&fixed_items[ i]` or `&dynamic_items[ i]`; `sides` is the schedule of the two
-- threads.
module _ {Cell Heap : Type 0} (pl : Platform Cell) (al : Allocator Heap Cell) (flip : ℕ → ℕ)
    (n_items size : ℕ) where
  -- `size` is 32.
  unfoldable pub run_fixed_test :
      (ℕ → ℕ) → List Side → FixedFifo Cell → Result (Option (ℕ × FixedFifo Cell))
  run_fixed_test address sides p = do
    s ←
        publish address (stress flip) n_items (Fixed.ring pl size) sides
          (start (stress flip) (Fixed.init pl p))
    ok (joined s.reader s.writer (s.corrupt, Fixed.done pl s.system.fifo))

  -- `size` is DYNAMIC_SIZE; NULL stands for the default allocator.
  unfoldable pub run_dynamic_test :
      (ℕ → ℕ) → List Side → Pointerfifo Cell → Heap → Result (Option (ℕ × Pointerfifo Cell × Heap))
  run_dynamic_test address sides p h = do
    (fifo, h') ← init pl al p size 0 h
    s ← publish address (stress flip) n_items (ring pl) sides (start (stress flip) fifo)
    let (fifo', h'') = done pl al s.system.fifo h' in
        ok (joined s.reader s.writer (s.corrupt, fifo', h''))

  -- The second test runs if the first one returns.
  abbrev pub after_fixed :
      (ℕ → ℕ)
      → List Side
      → Pointerfifo Cell
      → Heap
      → Option (ℕ × FixedFifo Cell)
      → Result (Option (Verdict × Heap))
  after_fixed address sides p h none = ok none
  after_fixed address sides p h (some (fixed_corrupt, f)) = do
    dynamic ← run_dynamic_test address sides p h
    ok (report n_items fixed_corrupt dynamic)

  -- `none` if a thread does not come to its end in its schedule. Both FIFOs are static.
  unfoldable pub stress_main :
      (fixed_address dynamic_address : ℕ → ℕ) (fixed_sides dynamic_sides : List Side)
      → FixedFifo Cell
      → Pointerfifo Cell
      → Heap
      → Result (Option (Verdict × Heap))
  stress_main fixed_address dynamic_address fixed_sides dynamic_sides f p h = do
    fixed ← run_fixed_test fixed_address fixed_sides f
    after_fixed dynamic_address dynamic_sides p h fixed
