-- ===== src/Client/WritesSound.antt =====
-- The statements of the producer keep the invariant.
use mulle_fifo.Common.{
  ==_iff, ◌==◌, ℕ, suc, ◌+◌, ◌<◌, ◌≡◌, ap, ◌∙◌, [], ◌∷◌, ◌++◌, ◌==◌, ==_iff, Bool-cases, inl, inr,
  arith,
}
use mulle_fifo.Ring.{Ring}
use mulle_fifo.Spsc.{Producer, System}
use mulle_fifo.Spsc.Linearizable.{Stands}
use mulle_fifo.Client.{Workload, Writer, Publication}
use mulle_fifo.Client.Shape.{Carries}
use mulle_fifo.Client.Progress.{pending}
use mulle_fifo.Client.Invariant.{addresses-append, IsWorkload, Writing, Sound}

module _ {F : Type 0} {r : Ring F} {Good : F → Type 0} {size : ℕ} {address : ℕ → ℕ} {Item : Type 0}
    {work : Workload Item} {law : IsWorkload work} {n_items : ℕ} where
  -- A statement of the producer outside of the FIFO.
  pub writes-Sound :
      (s : Publication Item F) (memory : ℕ → Item) (w : Writer)
      → Sound address law n_items r Good size s
      → ((j : ℕ) → j < s.i → law.Filled j work.stores (memory (address j)))
      → Writing address law n_items w s.i memory s.system.producer
      → Sound address law n_items r Good size (record s { memory = memory; writer = w })
  writes-Sound s memory w i filled at_writer = record {
    queue = i.queue;
    waiting = i.waiting;
    stands = i.stands;
    queued = i.queued;
    sent = i.sent;
    bound = i.bound;
    filled = filled;
    at_writer = at_writer;
    at_reader = i.at_reader;
    clean = i.clean;
    in_order = i.in_order;
  }

  -- The call goes on, or the FIFO was full and the next call starts.
  pub goes_on-Sound :
      (s : Publication Item F) (system : System F)
      → s.writer ≡ Writer.writing
      → (i : Sound address law n_items r Good size s) → Stands r Good size system i.queue
      → Carries (address s.i) system.producer
      → Sound address law n_items r Good size (record s { system = system })
  goes_on-Sound s system w i stands carries =
      let (_, more, item) : Writing address law n_items Writer.writing s.i s.memory
          s.system.producer =
        rw w at i.at_writer in
      record {
        queue = i.queue;
        waiting = i.waiting;
        stands = stands;
        queued = i.queued;
        sent = i.sent;
        bound = i.bound;
        filled = i.filled;
        at_writer = rw w (carries, more, item);
        at_reader = i.at_reader;
        clean = i.clean;
        in_order = i.in_order;
      }

  -- Item `i` has gone into the FIFO.
  pub stored-Sound :
      (s : Publication Item F) (system : System F)
      → s.writer ≡ Writer.writing
      → (i : Sound address law n_items r Good size s)
      → Stands r Good size system (i.queue ++ (address s.i ∷ []))
      → system.producer ≡ Producer.outside
      → Sound address law n_items r Good size
          (record s { system = system; writer = Writer.testing; i = s.i + 1 })
  stored-Sound s system w i stands outside =
      let (_, more, item) : Writing address law n_items Writer.writing s.i s.memory
          s.system.producer =
        rw w at i.at_writer in
      record {
        queue = i.queue ++ (address s.i ∷ []);
        waiting = suc i.waiting;
        stands = stands;
        queued =
            ap (λ q. q ++ (address s.i ∷ [])) i.queued
            ∙ addresses-append address i.waiting (s.received + pending s.reader) s.i i.sent;
        sent = omega (arith, i.sent);
        bound = omega (arith, more);
        filled = λ j k. elim (Bool-cases (j == s.i)) [
          | inl same ↦ rw ((==_iff j s.i).0 same) item
          | inr before ↦ i.filled j (ground arith)
        ];
        at_writer = outside;
        at_reader = i.at_reader;
        clean = i.clean;
        in_order = i.in_order;
      }
