-- ===== src/Client/Finishes.antt =====
-- Both threads come to their ends.
use mulle_fifo.Common.{
  ◌-◌, ℕ, ◌+◌, ◌*◌, ◌<◌, ◌≤◌, ◌≡◌, inl, inr, refl, ap, List, Result, ok, arith, ◌==◌, [],
}
use mulle_fifo.Common.Fair
use mulle_fifo.Ring.{Ring, IsRing}
use mulle_fifo.Ring.Sequential.{Represents}
use mulle_fifo.Client.{
  Workload, Writer, Reader, Publication, Side, producer_side, consumer_side, side_turn, publish,
  start,
}
use mulle_fifo.Client.Progress.{backlog, rank, Stuck, writer_rank, reader_rank}
use mulle_fifo.Client.Invariant.{IsArray, IsWorkload, Sound, Reading, Writing}
use mulle_fifo.Client.Sound.{Acts, side_turn-Keeps, start-Sound, consumer_ends, producer_ends}

-- Rounds that are enough for that many items.
abbrev pub rounds_for : {Item : Type 0} → Workload Item → ℕ → ℕ
rounds_for work n_items = (work.stores + 8) * n_items + 1 + ((work.looks + 8) * n_items + 2)

-- The schedule starts with `k` rounds, in each of which both threads make a turn.
abbrev pub HasRounds : ℕ → List Side → Type 0
HasRounds = Fair.HasRounds Acts

-- Both threads have left their loops, all items were received, and none was corrupt.
pub record Completes {Item F : Type 0} (Good : F → Type 0) (n_items : ℕ)
    (out : Result (Publication Item F)) : Type 0 where
  pub after : Publication Item F
  pub returns : out ≡ ok after
  pub producer_end : after.writer ≡ Writer.finished
  pub consumer_end : after.reader ≡ Reader.finished
  pub sent : after.i ≡ n_items
  pub received : after.received ≡ n_items
  pub clean : after.corrupt ≡ 0
  pub good : Good after.system.fifo

module _ {F : Type 0} (r : Ring F) (Good : F → Type 0) (size : ℕ) (address : ℕ → ℕ) {Item : Type 0}
    {work : Workload Item} (law : IsWorkload work) (n_items : ℕ) where
  -- A thread that has not left its loop has something left to do.
  writer_done :
      (w : Writer) (s : Publication Item F)
      → s.writer ≡ w
      → Writing address law n_items w s.i s.memory s.system.producer
      → writer_rank work.stores (backlog s == size) w (n_items - s.i) s.system.producer ≡ 0
      → w ≡ Writer.finished
  writer_done Writer.testing s w h z = absurd (omega (arith, z))
  writer_done (Writer.setting j) s w h z = absurd (omega (arith, z))
  writer_done Writer.writing s w h z = absurd (omega (arith, z))
  writer_done Writer.finished s w h z = refl

  reader_done :
      (c : Reader) (s : Publication Item F)
      → s.reader ≡ c
      → Sound address law n_items r Good size s
      → Reading address law n_items c s.received
      → reader_rank work.looks (backlog s == 0) c (n_items - s.received) s.system.consumer ≡ 0
      → c ≡ Reader.finished
  reader_done Reader.testing s c i h z = absurd (omega (arith, z))
  reader_done Reader.reading s c i h z = absurd (omega (arith, z, h))
  reader_done (Reader.comparing j x) s c i h z = absurd (omega (arith, z))
  reader_done Reader.finished s c i h z = refl

  -- The threads never wait for each other both at once.
  never_both_wait :
      (s : Publication Item F)
      → 0 < size
      → Sound address law n_items r Good size s
      → ((d : Side) → Stuck size n_items work.stores work.looks d s)
      → rank size n_items work.stores work.looks s ≡ 0
  never_both_wait s above i stuck = elim (stuck producer_side) [
    | inl w ↦ elim (stuck consumer_side) [
      | inl c ↦ rw (w, c) refl
      | inr (empty, none, more) ↦
          let (_, all) : Writing address law n_items Writer.finished s.i s.memory
              s.system.producer =
            rw w at i.at_writer in
          absurd (omega (arith, all, i.sent, none, empty, more))
    ]
    | inr full ↦ elim (stuck consumer_side) [
      | inl c ↦
          let all : Reading address law n_items Reader.finished s.received = rw c at i.at_reader in
          absurd (omega (arith, above, all, i.bound, full))
      | inr (empty, none, more) ↦ absurd (omega (arith, above, full, empty))
    ]
  ]

module _ {F : Type 0} {r : Ring F} {Good : F → Type 0} {size : ℕ} (ring : IsRing r size Good)
    (above : 0 < size) (address : ℕ → ℕ) {Item : Type 0} {work : Workload Item}
    (law : IsWorkload work) (n_items : ℕ) (items : IsArray address n_items) where
  start-rank :
      (f : F) → rank size n_items work.stores work.looks (start work f) ≤ rounds_for work n_items
  start-rank f =
      let all : n_items - 0 ≡ n_items = omega arith in
      omega (arith, ap (λ n. (work.stores + 8) * n) all, ap (λ n. (work.looks + 8) * n) all)

  pub publish-Completes :
      (sides : List Side) (f : F)
      → Represents r Good size f []
      → HasRounds (rounds_for work n_items) sides
      → Completes Good n_items (publish address work n_items r sides (start work f))
  unfolding publish
  publish-Completes sides f h rounds =
      let d =
        Fair.rounds-Ends (side_turn address work n_items r) (Sound address law n_items r Good size)
          (rank size n_items work.stores work.looks) (Stuck size n_items work.stores work.looks)
          Acts (rounds_for work n_items) sides (start work f)
          (side_turn-Keeps ring above address law n_items items)
          (λ s. never_both_wait r Good size address law n_items s above)
          (start-Sound ring above address law n_items items f h) (start-rank f) rounds in
      let w =
        writer_done r Good size address law n_items d.after.writer d.after refl d.good.at_writer
          (omega (arith, d.done)) in
      let c =
        reader_done r Good size address law n_items d.after.reader d.after refl d.good
          d.good.at_reader (omega (arith, d.done)) in
      record {
        after = d.after;
        returns = d.returns;
        producer_end = w;
        consumer_end = c;
        sent = producer_ends ring above address law n_items items d.after d.good w;
        received = consumer_ends ring above address law n_items items d.after d.good c;
        clean = d.good.clean;
        good = d.good.stands.holds.good;
      }
