-- ===== src/Threads/Closes.antt =====
-- The consumer of threads.c calls `done` and then joins the producer.
use mulle_fifo.Common.{ℕ, ◌≡◌, inl, inr, refl, ◌∙◌, arith}
use mulle_fifo.Ring.{Ring}
use mulle_fifo.Spsc.Linearizable.{Stands}
use mulle_fifo.Threads.{Receiver, Chat, receive_with, receiver_turn, join}
use mulle_fifo.Threads.Invariant.{Tidy, Kept, Receiving, last_sent}
use mulle_fifo.Threads.ReceivesAdvance.{receiver_moves}
use mulle_fifo.Threads.ReceivesTidy.{same_queue-Tidy}

module _ (last : ℕ) {F Heap : Type 0} (r : Ring F) (close : F → Heap → F × Heap) (Good : F → Type 0)
    (size : ℕ) (opened : Heap) (Freed : Heap → Type 0) where
  -- `done` before the join: the producer has made its last access.
  pub closes :
      (n : ℕ) (s : Chat F Heap)
      → ((f : F) → Good f → Freed (close f opened).1)
      → s.receiver ≡ Receiver.closing
      → Tidy last r Good size opened Freed s
      → Kept last r close Good size opened Freed
          (receive_with n)
          s
          (receiver_turn last r close n Receiver.closing s)
  unfolding receiver_turn
  closes n s frees c i =
      let (all, heap) : Receiving last opened Freed Receiver.closing i.received s.heap =
        rw c at i.at_receiver in
      let stands : Stands r Good size s.system i.queue = rw c at i.stands in
      record {
        after = record s {
          system = record (s.system) { fifo = (close s.system.fifo s.heap).0 };
          heap = (close s.system.fifo s.heap).1;
          receiver = Receiver.joining;
        };
        returns = refl;
        good = record {
          queue = i.queue;
          waiting = i.waiting;
          received = i.received;
          queued = i.queued;
          sent = i.sent;
          shown = i.shown;
          shown_is = (rw c refl) ∙ i.shown_is;
          printed = i.printed;
          at_sender = i.at_sender;
          at_receiver = (all, rw heap (frees s.system.fifo stands.holds.good));
          stands = tt;
          joined = λ e. cc e;
        };
        progress = inl (rw c (omega arith));
      }

  pub joins :
      (n : ℕ) (s : Chat F Heap)
      → s.receiver ≡ Receiver.joining
      → Tidy last r Good size opened Freed s
      → Kept last r close Good size opened Freed
          (receive_with n)
          s
          (receiver_turn last r close n Receiver.joining s)
  unfolding receiver_turn join
  joins n s c i =
      let at : Receiving last opened Freed Receiver.joining i.received s.heap =
        rw c at i.at_receiver in
      elim (last_sent last r Good size opened Freed s.sender s i refl at.0).0 [
        | inl busy ↦ record {
          after = s;
          returns = rw busy refl;
          good = i;
          progress = inr (refl, receiver_moves last size n s (inr (inr (c, busy))), λ d h. h);
        }
        | inr ended ↦ record {
          after = record s { receiver = Receiver.finished };
          returns = rw ended refl;
          good =
              same_queue-Tidy last r Good size opened Freed s s.system Receiver.finished i refl
                (rw c refl) at tt (λ e. ended);
          progress = inl (rw c (omega arith));
        }
      ]
