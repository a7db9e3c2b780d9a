-- ===== src/Spsc/Invariant.antt =====
-- What holds between any two statements of the two threads.
use mulle_fifo.Common.{ℕ, ◌+◌, ◌%◌, ◌≤◌, ◌<◌, ◌≡◌, ◌≢◌, ap, ◌∙◌, [], ◌∷◌, ◌++◌, length, arith}
use mulle_fifo.Queue.{Queue}
use mulle_fifo.Queue.Trace.{HasNoNull}
use mulle_fifo.Ring.{Ring}
use mulle_fifo.Ring.Contents.{Holds}
use mulle_fifo.Ring.Sequential.{Represents}
use mulle_fifo.Spsc.{Producer, Consumer}

-- The write index is one ahead between its update and the increment, and the read index between
-- its update and the decrement.
abbrev pub write_position : Producer → ℕ → ℕ
write_position (Producer.counting x) a = a + 1
write_position Producer.outside a = a
write_position _ a = a

abbrev pub read_position : Consumer → ℕ → ℕ
read_position (Consumer.counting x) a = a + 1
read_position Consumer.outside a = a
read_position _ a = a

-- What the producer knows: `n` pointers are queued, and the slot behind them holds `v`.
abbrev pub Producing : ℕ → ℕ → ℕ → Producer → Type 0
Producing size n v Producer.outside = Unit {0}
Producing size n v (Producer.entering x) = Unit {0}
Producing size n v (Producer.testing x) = x ≢ 0
Producing size n v (Producer.storing x) = (x ≢ 0) × (n < size)
Producing size n v (Producer.stepping x) = (x ≢ 0) × (n < size) × (v ≡ x)
Producing size n v (Producer.counting x) = (x ≢ 0) × (n < size) × (v ≡ x)

-- What the consumer knows: the pointer that it loaded, or will load, is the oldest.
abbrev pub Consuming : Queue → Consumer → Type 0
Consuming q Consumer.outside = Unit {0}
Consuming q Consumer.testing = Unit {0}
Consuming q Consumer.loading = (x : ℕ) × (rest : Queue) × (q ≡ x ∷ rest)
Consuming q (Consumer.stepping x) = (rest : Queue) × (q ≡ x ∷ rest)
Consuming q (Consumer.counting x) = (rest : Queue) × (q ≡ x ∷ rest)

pub Producing-move :
    (size n n' v v' : ℕ) (p : Producer)
    → n' ≤ n
    → v' ≡ v
    → Producing size n v p
    → Producing size n' v' p
Producing-move size n n' v v' Producer.outside le e h = tt
Producing-move size n n' v v' (Producer.entering x) le e h = tt
Producing-move size n n' v v' (Producer.testing x) le e h = h
Producing-move size n n' v v' (Producer.storing x) le e h = (h.0, omega arith)
Producing-move size n n' v v' (Producer.stepping x) le e h = (h.0, omega arith, e ∙ h.2)
Producing-move size n n' v v' (Producer.counting x) le e h = (h.0, omega arith, e ∙ h.2)

pub Consuming-append :
    (q : Queue) (y : ℕ) (c : Consumer) → Consuming q c → Consuming (q ++ (y ∷ [])) c
Consuming-append q y Consumer.outside h = tt
Consuming-append q y Consumer.testing h = tt
Consuming-append q y Consumer.loading (x, rest, e) =
    (x, rest ++ (y ∷ []), ap (λ l. l ++ (y ∷ [])) e)
Consuming-append q y (Consumer.stepping x) (rest, e) = (rest ++ (y ∷ []), ap (λ l. l ++ (y ∷ [])) e)
Consuming-append q y (Consumer.counting x) (rest, e) = (rest ++ (y ∷ []), ap (λ l. l ++ (y ∷ [])) e)

-- The FIFO `f`, with its threads at `p` and `c`, stands for the queue `q`.
pub record Inv {F : Type 0} (r : Ring F) (Good : F → Type 0) (size : ℕ) (f : F) (p : Producer)
    (c : Consumer) (q : Queue) : Type 0 where
  pub start : ℕ
  pub holds :
      Holds r Good size f start q (write_position p (start + length q)) (read_position c start)
  pub no_null : HasNoNull q
  pub producing : Producing size (length q) (r.slot f ((start + length q) % size)) p
  pub consuming : Consuming q c

-- With both threads outside, this is what reads and writes in one piece start from.
pub Inv-at_rest :
    {F : Type 0} {r : Ring F} {Good : F → Type 0} {size : ℕ} {f : F} {q : Queue}
    → Represents r Good size f q
    → HasNoNull q
    → Inv r Good size f Producer.outside Consumer.outside q
Inv-at_rest (start, h) n = record {
  start = start;
  holds = h;
  no_null = n;
  producing = tt;
  consuming = tt;
}

pub Represents-Inv :
    {F : Type 0} {r : Ring F} {Good : F → Type 0} {size : ℕ} {f : F} {q : Queue}
    → Inv r Good size f Producer.outside Consumer.outside q
    → Represents r Good size f q
Represents-Inv i = (i.start, i.holds)
