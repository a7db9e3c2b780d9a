-- ===== src/Client/Races.antt =====
-- The two threads never touch the same item at the same time.
use mulle_fifo.Common.{ℕ, ◌<◌, ◌≡◌, ◌≢◌, ap, sym, ◌∙◌, List, Result, ok, arith, []}
use mulle_fifo.Ring.{Ring, IsRing}
use mulle_fifo.Ring.Sequential.{Represents}
use mulle_fifo.Client.{Workload, Writer, Reader, Publication, Side, publish, start}
use mulle_fifo.Client.Progress.{pending}
use mulle_fifo.Client.Invariant.{IsArray, IsWorkload, Sound, Reading, Writing}
use mulle_fifo.Client.Sound.{publish-Sound, start-Sound}

-- The producer's next statement changes `items[ i]`.
abbrev pub Fills : Writer → Type 0
Fills w = (j : ℕ) × (w ≡ Writer.setting j)

-- The consumer's next statement looks into the item at `x`.
abbrev pub LooksInto : ℕ → Reader → Type 0
LooksInto x c = (j : ℕ) × (c ≡ Reader.comparing j x)

-- The schedule is defined, and no item is both filled in and looked into by the statements that
-- come next.
pub record RaceFree {Item F : Type 0} (address : ℕ → ℕ) (out : Result (Publication Item F))
    : Type 0 where
  pub after : Publication Item F
  pub returns : out ≡ ok after
  pub no_race : (x : ℕ) → Fills after.writer → LooksInto x after.reader → x ≢ address after.i

module _ {F : Type 0} {r : Ring F} {Good : F → Type 0} {size : ℕ} (ring : IsRing r size Good)
    (above : 0 < size) (address : ℕ → ℕ) {Item : Type 0} {work : Workload Item}
    (law : IsWorkload work) (n_items : ℕ) (items : IsArray address n_items) where
  item_below :
      (s : Publication Item F)
      → Sound address law n_items r Good size s
      → Fills s.writer
      → s.i < n_items
  item_below s i (j, w) =
      let (_, more, _, _) : Writing address law n_items (Writer.setting j) s.i s.memory
          s.system.producer =
        rw w at i.at_writer in
      more

  looks_back :
      (s : Publication Item F) (x : ℕ)
      → Sound address law n_items r Good size s
      → LooksInto x s.reader
      → (x ≡ address s.received) × (s.received < s.i)
  looks_back s x i (j, c) =
      let (e, _) : Reading address law n_items (Reader.comparing j x) s.received =
        rw c at i.at_reader in
      (e, omega (arith, i.sent, ap pending c))

  apart :
      (s : Publication Item F) (x : ℕ)
      → Sound address law n_items r Good size s
      → Fills s.writer
      → LooksInto x s.reader
      → x ≢ address s.i
  apart s x i w c e =
      let more = item_below s i w in
      let (at, before) = looks_back s x i c in
      let same = items.apart s.received s.i (omega (arith, before, more)) more (sym at ∙ e) in
      omega (arith, same, before)

  pub publish-RaceFree :
      (sides : List Side) (f : F)
      → Represents r Good size f []
      → RaceFree address (publish address work n_items r sides (start work f))
  publish-RaceFree sides f h =
      let d =
        publish-Sound ring above address law n_items items sides (start work f)
          (start-Sound ring above address law n_items items f h) in
      record { after = d.after; returns = d.returns; no_race = λ x. apart d.after x d.good }
