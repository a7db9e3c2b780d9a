-- ===== src/Client/ReadsSound.antt =====
-- The statements of the consumer keep the invariant.
use mulle_fifo.Common.{refl, ℕ, ◌+◌, ◌≡◌, sym, ap, ◌∙◌, ◌∷◌, arith}
use mulle_fifo.Queue.{Queue}
use mulle_fifo.Ring.{Ring}
use mulle_fifo.Spsc.{System}
use mulle_fifo.Spsc.Linearizable.{Stands}
use mulle_fifo.Client.{Workload, Reader, Publication}
use mulle_fifo.Client.Progress.{pending}
use mulle_fifo.Client.Invariant.{addresses, addresses-uncons, IsWorkload, Reading, Sound}

module _ {F : Type 0} {r : Ring F} {Good : F → Type 0} {size : ℕ} {address : ℕ → ℕ} {Item : Type 0}
    {work : Workload Item} {law : IsWorkload work} {n_items : ℕ} where
  -- A statement of the consumer that takes nothing out of the FIFO and counts nothing.
  pub reads-Sound :
      (s : Publication Item F) (system : System F) (c : Reader) (corrupt expect : ℕ)
      → (i : Sound address law n_items r Good size s) → Stands r Good size system i.queue
      → system.producer ≡ s.system.producer
      → pending c ≡ pending s.reader
      → Reading address law n_items c s.received
      → corrupt ≡ 0
      → expect ≡ s.received
      → Sound address law n_items r Good size
          (record s { system = system; reader = c; corrupt = corrupt; expect = expect })
  reads-Sound s system c corrupt expect i stands same p at_reader clean in_order = record {
    queue = i.queue;
    waiting = i.waiting;
    stands = stands;
    queued = rw p (i.queued);
    sent = rw p (i.sent);
    bound = i.bound;
    filled = i.filled;
    at_writer = rw same (i.at_writer);
    at_reader = at_reader;
    clean = clean;
    in_order = in_order;
  }

  -- The item that the consumer looks at is the one that the producer filled in.
  pub item_read :
      (s : Publication Item F) (x : ℕ)
      → pending s.reader ≡ 1
      → x ≡ address s.received
      → Sound address law n_items r Good size s
      → law.Filled s.received work.stores (s.memory x)
  item_read s x p e i = rw e (i.filled s.received (omega (arith, i.sent, p)))

  -- The oldest item has come out of the FIFO.
  pub took-Sound :
      (s : Publication Item F) (system : System F) (x : ℕ) (q : Queue)
      → s.reader ≡ Reader.reading
      → (i : Sound address law n_items r Good size s) → Stands r Good size system q
      → system.producer ≡ s.system.producer
      → i.queue ≡ x ∷ q
      → Sound address law n_items r Good size
          (record s { system = system; reader = Reader.comparing 0 x })
  took-Sound s system x q c i stands same e =
      let start : s.received + pending s.reader ≡ s.received = rw c (omega arith) in
      let (m, n, a, rest) =
        addresses-uncons address x q i.waiting s.received
          (sym e ∙ i.queued ∙ ap (addresses address i.waiting) start) in
      record {
        queue = q;
        waiting = m;
        stands = stands;
        queued = rest;
        sent = omega (arith, i.sent, start, n);
        bound = i.bound;
        filled = i.filled;
        at_writer = rw same (i.at_writer);
        at_reader = (a, law.some_look);
        clean = i.clean;
        in_order = i.in_order;
      }

  -- The item has been looked at and is counted.
  pub counted-Sound :
      (j x : ℕ) (s : Publication Item F)
      → s.reader ≡ Reader.comparing j x
      → Sound address law n_items r Good size s
      → Sound address law n_items r Good size
          (record s { expect = s.received + 1; received = s.received + 1; reader = Reader.testing })
  counted-Sound j x s c i = record {
    queue = i.queue;
    waiting = i.waiting;
    stands = i.stands;
    queued = i.queued ∙ ap (addresses address i.waiting) (rw c (omega arith));
    sent = omega (arith, i.sent, ap pending c);
    bound = i.bound;
    filled = i.filled;
    at_writer = i.at_writer;
    at_reader = tt;
    clean = i.clean;
    in_order = refl;
  }
