-- ===== src/Threads/ReceivesTidy.antt =====
-- The invariant of threads.c over a turn in which the consumer takes a number or takes none.
use mulle_fifo.Common.{ℕ, suc, ◌+◌, ◌≡◌, sym, ap, ◌∙◌, [], ◌∷◌, ◌++◌, arith}
use mulle_fifo.Queue.{Queue}
use mulle_fifo.Ring.{Ring}
use mulle_fifo.Spsc.{System}
use mulle_fifo.Spsc.Linearizable.{Stands}
use mulle_fifo.Client.Invariant.{addresses, addresses-append, addresses-uncons}
use mulle_fifo.Threads.{Sender, Receiver, Chat}
use mulle_fifo.Threads.Invariant.{Tidy, Receiving, Standing, taken_of}

module _ (last : ℕ) {F Heap : Type 0} (r : Ring F) (Good : F → Type 0) (size : ℕ) (opened : Heap)
    (Freed : Heap → Type 0) where
  -- A turn of the consumer that takes nothing out of the FIFO and prints nothing.
  pub same_queue-Tidy :
      (s : Chat F Heap) (system : System F) (c : Receiver)
      → (i : Tidy last r Good size opened Freed s) → system.producer ≡ s.system.producer
      → taken_of c i.shown ≡ taken_of s.receiver i.shown
      → Receiving last opened Freed c i.received s.heap
      → Standing r Good size c system i.queue
      → (c ≡ Receiver.finished → s.sender ≡ Sender.finished)
      → Tidy last r Good size opened Freed (record s { system = system; receiver = c })
  same_queue-Tidy s system c i same as_many at_receiver stands joined = record {
    queue = i.queue;
    waiting = i.waiting;
    received = i.received;
    queued = i.queued;
    sent = i.sent;
    shown = i.shown;
    shown_is = as_many ∙ i.shown_is;
    printed = i.printed;
    at_sender = rw same (i.at_sender);
    at_receiver = at_receiver;
    stands = stands;
    joined = joined;
  }

  -- A number has come out of the FIFO.
  pub taken-Tidy :
      (s : Chat F Heap) (system : System F) (x : ℕ) (q : Queue)
      → s.receiver ≡ Receiver.reading
      → (i : Tidy last r Good size opened Freed s) → system.producer ≡ s.system.producer
      → i.queue ≡ x ∷ q
      → Receiving last opened Freed (Receiver.received x) (suc i.received) s.heap
      → Stands r Good size system q
      → Tidy last r Good size opened Freed
          (record s { system = system; receiver = Receiver.received x })
  taken-Tidy s system x q c i same e at_receiver stands =
      let (m, n, a, rest) = addresses-uncons suc x q i.waiting i.received (sym e ∙ i.queued) in
      let shown_is : i.shown ≡ i.received = rw c at i.shown_is in
      record {
        queue = q;
        waiting = m;
        received = suc i.received;
        queued = rest ∙ ap (addresses suc m) (omega arith);
        sent = omega (arith, i.sent, n);
        shown = i.shown;
        shown_is = omega (arith, shown_is);
        printed = i.printed;
        at_sender = rw same (i.at_sender);
        at_receiver = at_receiver;
        stands = stands;
        joined = λ e. cc e;
      }

  -- A number is printed.
  pub shown-Tidy :
      (s : Chat F Heap) (x : ℕ) (c : Receiver)
      → s.receiver ≡ Receiver.received x
      → (i : Tidy last r Good size opened Freed s) → taken_of c (suc i.shown) ≡ suc i.shown
      → Receiving last opened Freed c i.received s.heap
      → Standing r Good size c s.system i.queue
      → (c ≡ Receiver.finished → s.sender ≡ Sender.finished)
      → Tidy last r Good size opened Freed
          (record s { receiver = c; printed = s.printed ++ (x ∷ []) })
  shown-Tidy s x c e i as_many at_receiver stands joined =
      let (x_is, _, _) : Receiving last opened Freed (Receiver.received x) i.received s.heap =
        rw e at i.at_receiver in
      let shown_is : i.shown + 1 ≡ i.received = rw e at i.shown_is in
      let next : x ≡ suc i.shown = omega (arith, x_is, shown_is) in
      record {
        queue = i.queue;
        waiting = i.waiting;
        received = i.received;
        queued = i.queued;
        sent = i.sent;
        shown = suc i.shown;
        shown_is = omega (arith, as_many, shown_is);
        printed =
            ap (λ l. l ++ (x ∷ [])) i.printed
            ∙ ap (λ k. addresses suc i.shown 0 ++ (k ∷ [])) next
            ∙ addresses-append suc i.shown 0 i.shown (omega arith);
        at_sender = i.at_sender;
        at_receiver = at_receiver;
        stands = stands;
        joined = joined;
      }

  pub next_number :
      (s : Chat F Heap) (x : ℕ) (q : Queue) (i : Tidy last r Good size opened Freed s)
      → i.queue ≡ x ∷ q
      → x ≡ suc i.received
  next_number s x q i e = (addresses-uncons suc x q i.waiting i.received (sym e ∙ i.queued)).2
