-- ===== src/Client/Progress.antt =====
-- What is left to do for the threads of publication.c, and when a thread has to wait.
use mulle_fifo.Common.{
  ap, ◌∙◌, suc, ◌≤◌, true, false, arith, ℕ, ◌+◌, ◌-◌, ◌*◌, ◌<◌, ◌≡◌, ◌⊎◌, Bool, ◌==◌, if◌then◌else◌,
}
use native.Mathlib.Nat.{mul-suc}
use mulle_fifo.Spsc.{Producer, Consumer}
use mulle_fifo.Client.{Writer, Reader, Publication, Side, producer_side, consumer_side}

-- The item that the consumer has read and not yet counted.
abbrev pub pending : Reader → ℕ
pending (Reader.comparing j x) = 1
pending Reader.testing = 0
pending Reader.reading = 0
pending Reader.finished = 0

-- The turns that a write still takes; one that will find the FIFO full has to start again.
abbrev pub write_rank : Bool → Producer → ℕ
write_rank full Producer.outside = if full then 7 else 6
write_rank full (Producer.entering x) = if full then 7 else 5
write_rank full (Producer.testing x) = if full then 7 else 4
write_rank full (Producer.storing x) = 3
write_rank full (Producer.stepping x) = 2
write_rank full (Producer.counting x) = 1

abbrev pub read_rank : Bool → Consumer → ℕ
read_rank empty Consumer.outside = if empty then 7 else 6
read_rank empty Consumer.testing = if empty then 7 else 5
read_rank empty Consumer.loading = 4
read_rank empty (Consumer.stepping x) = 3
read_rank empty (Consumer.counting x) = 2

-- The turns that a thread still takes for the items that are left to it, of which each needs as many
-- stores or looks as the first number says.
abbrev pub writer_rank : ℕ → Bool → Writer → ℕ → Producer → ℕ
writer_rank stores full Writer.testing left p = (stores + 8) * left + 1
writer_rank stores full (Writer.setting j) left p = (stores + 8) * (left - 1) + (stores - j) + 8
writer_rank stores full Writer.writing left p = (stores + 8) * (left - 1) + write_rank full p + 1
writer_rank stores full Writer.finished left p = 0

abbrev pub reader_rank : ℕ → Bool → Reader → ℕ → Consumer → ℕ
reader_rank looks empty Reader.testing left c = (looks + 8) * left + 2
reader_rank looks empty Reader.reading left c =
    (looks + 8) * (left - 1) + looks + 3 + read_rank empty c
reader_rank looks empty (Reader.comparing j x) left c = (looks + 8) * (left - 1) + (looks - j) + 2
reader_rank looks empty Reader.finished left c = 0

pub write_rank_bound : (full : Bool) (p : Producer) → write_rank full p ≤ 7
write_rank_bound full Producer.outside = ground arith
write_rank_bound full (Producer.entering x) = ground arith
write_rank_bound full (Producer.testing x) = ground arith
write_rank_bound full (Producer.storing x) = omega arith
write_rank_bound full (Producer.stepping x) = omega arith
write_rank_bound full (Producer.counting x) = omega arith

pub read_rank_cases :
    (empty : Bool) (c : Consumer)
    → (read_rank empty c < 7) ⊎ ((empty ≡ true) × (read_rank empty c ≡ 7))
read_rank_cases empty Consumer.outside = ground arith
read_rank_cases empty Consumer.testing = ground arith
read_rank_cases empty Consumer.loading = ground arith
read_rank_cases empty (Consumer.stepping x) = ground arith
read_rank_cases empty (Consumer.counting x) = ground arith

-- There is less to do when the FIFO is not full, or not empty.
pub write_rank_least : (full : Bool) (p : Producer) → write_rank false p ≤ write_rank full p
write_rank_least full Producer.outside = ground arith
write_rank_least full (Producer.entering x) = ground arith
write_rank_least full (Producer.testing x) = ground arith
write_rank_least full (Producer.storing x) = omega arith
write_rank_least full (Producer.stepping x) = omega arith
write_rank_least full (Producer.counting x) = omega arith

pub read_rank_least : (empty : Bool) (c : Consumer) → read_rank false c ≤ read_rank empty c
read_rank_least empty Consumer.outside = ground arith
read_rank_least empty Consumer.testing = ground arith
read_rank_least empty Consumer.loading = omega arith
read_rank_least empty (Consumer.stepping x) = omega arith
read_rank_least empty (Consumer.counting x) = omega arith

pub writer_rank_least :
    (stores : ℕ) (full : Bool) (w : Writer) (left : ℕ) (p : Producer)
    → writer_rank stores false w left p ≤ writer_rank stores full w left p
writer_rank_least stores full Writer.testing left p = omega arith
writer_rank_least stores full (Writer.setting j) left p = omega arith
writer_rank_least stores full Writer.writing left p = omega (arith, write_rank_least full p)
writer_rank_least stores full Writer.finished left p = omega arith

pub reader_rank_least :
    (looks : ℕ) (empty : Bool) (c : Reader) (left : ℕ) (s : Consumer)
    → reader_rank looks false c left s ≤ reader_rank looks empty c left s
reader_rank_least looks empty Reader.testing left s = omega arith
reader_rank_least looks empty Reader.reading left s = omega (arith, read_rank_least empty s)
reader_rank_least looks empty (Reader.comparing j x) left s = omega arith
reader_rank_least looks empty Reader.finished left s = omega arith

-- The work for one more item.
pub one_more : (k left : ℕ) → 0 < left → k * left ≡ k * (left - 1) + k
one_more k left h =
    let e : left ≡ suc (left - 1) = omega (arith, h) in ap (λ n. k * n) e ∙ mul-suc k (left - 1)

-- The items in the FIFO.
abbrev pub backlog : {Item F : Type 0} → Publication Item F → ℕ
backlog s = s.i - (s.received + pending s.reader)

module _ (size n_items stores looks : ℕ) {Item F : Type 0} where
  abbrev pub rank : Publication Item F → ℕ
  rank s =
      writer_rank stores (backlog s == size) s.writer (n_items - s.i) s.system.producer
      + reader_rank looks (backlog s == 0) s.reader (n_items - s.received) s.system.consumer

  -- The thread is at its end, or it waits for the other one.
  abbrev pub Stuck : Side → Publication Item F → Type 0
  Stuck producer_side s = (s.writer ≡ Writer.finished) ⊎ (backlog s ≡ size)
  Stuck consumer_side s =
      (s.reader ≡ Reader.finished)
      ⊎ ((backlog s ≡ 0) × (pending s.reader ≡ 0) × (s.received < n_items))

  -- The work got less, or the thread was stuck and who is stuck stays the same.
  abbrev pub Progress : Side → Publication Item F → Publication Item F → Type 0
  Progress d s s' =
      (rank s' < rank s) ⊎ (Stuck d s × (rank s' ≡ rank s) × ((e : Side) → Stuck e s' → Stuck e s))
