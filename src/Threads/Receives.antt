-- ===== src/Threads/Receives.antt =====
-- Every turn of the consumer of threads.c is defined and keeps the invariant.
use mulle_fifo.Common.{
  ℕ, ◌%◌, ◌≤◌, ◌<◌, ◌≡◌, ◌≢◌, inl, inr, refl, sym, ap, ◌∙◌, [], ◌∷◌, ◌++◌, length, ◌==◌, arith,
  Bool-cases, ==_iff, ==_ne, ltb, ok,
}
use mulle_fifo.Queue.{Queue}
use mulle_fifo.Queue.Trace.{got}
use mulle_fifo.Ring.{Ring, IsRing}
use mulle_fifo.Spsc.{System, turn}
use mulle_fifo.Spsc.Linearizable.{Stands}
use mulle_fifo.Spsc.ConsumerSteps.{consumer_turn-Inv}
use mulle_fifo.Client.Shape.{read_outcome}
use mulle_fifo.Client.Progress.{read_rank}
use mulle_fifo.Threads.{Receiver, Chat, receive_with, receiver_turn, after_receive, after_received}
use mulle_fifo.Threads.Invariant.{
  Tidy, Kept, Receiving, taken, backlog, taken-received, backlog-length, asleep-receive,
}
use mulle_fifo.Threads.ReceivesAdvance.{
  receiver_moves, wake-Advances, go_on-Advances, again-Advances, got-Advances, turned_away-Advances,
  shown-Advances,
}
use mulle_fifo.Threads.ReceivesTidy.{same_queue-Tidy, taken-Tidy, shown-Tidy, next_number}
use mulle_fifo.Threads.Closes.{closes, joins}

module _ (last : ℕ) {F Heap : Type 0} (r : Ring F) (close : F → Heap → F × Heap) (Good : F → Type 0)
    (size : ℕ) (opened : Heap) (Freed : Heap → Type 0) where
  chooses :
      (n : ℕ) (s : Chat F Heap)
      → s.receiver ≡ Receiver.choosing
      → Tidy last r Good size opened Freed s
      → Kept last r close Good size opened Freed
          (receive_with n)
          s
          (receiver_turn last r close n Receiver.choosing s)
  unfolding receiver_turn
  chooses n s c i =
      let (more, heap) : Receiving last opened Freed Receiver.choosing i.received s.heap =
        rw c at i.at_receiver in
      elim (Bool-cases (ltb (n % 8) 4)) [
        | inl awake ↦ record {
          after = record s { receiver = Receiver.reading };
          returns = rw awake refl;
          good =
              same_queue-Tidy last r Good size opened Freed s s.system Receiver.reading i refl
                (rw c refl) (more, heap) (rw c at i.stands) (λ e. cc e);
          progress =
              wake-Advances last size n s c
                (omega (arith, more, taken-received last r Good size opened Freed s i));
        }
        | inr asleep ↦ record {
          after = s;
          returns = rw asleep (ap (λ k. ok (record s { receiver = k })) (sym c));
          good = i;
          progress = inr (refl, (λ d a. absurd (asleep-receive n d asleep a)), λ d h. h);
        }
      ]

  takes :
      (n : ℕ) (s : Chat F Heap) (system : System F) (x : ℕ) (q : Queue)
      → s.receiver ≡ Receiver.reading
      → (i : Tidy last r Good size opened Freed s) → length i.queue ≤ size
      → x ≢ 0
      → i.queue ≡ x ∷ q
      → Stands r Good size system q
      → system.producer ≡ s.system.producer
      → read_rank (backlog s == 0) s.system.consumer ≡ 2
      → Kept last r close Good size opened Freed
          (receive_with n)
          s
          (ok (after_receive (got x ∷ []) (record s { system = system })))
  unfolding after_receive
  takes n s system x q c i bound pointer e stands same two =
      let (more, heap) : Receiving last opened Freed Receiver.reading i.received s.heap =
        rw c at i.at_receiver in
      let b = backlog-length last r Good size opened Freed s i in
      record {
        after = record s { system = system; receiver = Receiver.received x };
        returns = rw (==_ne x pointer) refl;
        good =
            taken-Tidy last r Good size opened Freed s system x q c i same e
              (next_number last r Good size opened Freed s x q i e, omega (arith, more), heap)
              stands;
        progress =
            got-Advances last size n s system x c
              (omega (arith, more, taken-received last r Good size opened Freed s i)) same
              (omega (arith, b, ap length e)) (omega (arith, b, bound)) two;
      }

  turned_away :
      (n : ℕ) (s : Chat F Heap)
      → s.receiver ≡ Receiver.emptied
      → Tidy last r Good size opened Freed s
      → Kept last r close Good size opened Freed
          (receive_with n)
          s
          (receiver_turn last r close n Receiver.emptied s)
  unfolding receiver_turn
  turned_away n s c i =
      let at : Receiving last opened Freed Receiver.emptied i.received s.heap =
        rw c at i.at_receiver in
      record {
        after = record s { receiver = Receiver.choosing };
        returns = refl;
        good =
            same_queue-Tidy last r Good size opened Freed s s.system Receiver.choosing i refl
              (rw c refl) at (rw c at i.stands) (λ e. cc e);
        progress =
            turned_away-Advances last size n s c
              (omega (arith, at.0, taken-received last r Good size opened Freed s i));
      }

  -- The last number, and any other.
  shows :
      (n : ℕ) (s : Chat F Heap) (x : ℕ)
      → s.receiver ≡ Receiver.received x
      → Tidy last r Good size opened Freed s
      → Kept last r close Good size opened Freed
          (receive_with n)
          s
          (receiver_turn last r close n (Receiver.received x) s)
  unfolding receiver_turn after_received
  shows n s x c i =
      let (x_is, below, heap) : Receiving last opened Freed (Receiver.received x) i.received
          s.heap =
        rw c at i.at_receiver in
      let (go_on, end) = shown-Advances last size n s x c in
      elim (Bool-cases (x == last)) [
        | inl final ↦ record {
          after = record s { receiver = Receiver.closing; printed = s.printed ++ (x ∷ []) };
          returns = rw final refl;
          good =
              shown-Tidy last r Good size opened Freed s x Receiver.closing c i refl
                (sym x_is ∙ (==_iff x last).0 final, heap) (rw c at i.stands) (λ e. cc e);
          progress = end;
        }
        | inr other ↦ record {
          after = record s { receiver = Receiver.choosing; printed = s.printed ++ (x ∷ []) };
          returns = rw other refl;
          good =
              shown-Tidy last r Good size opened Freed s x Receiver.choosing c i refl
                (ground (arith, other, below, x_is), heap) (rw c at i.stands) (λ e. cc e);
          progress = go_on;
        }
      ]

  reads :
      (n : ℕ) (s : Chat F Heap)
      → IsRing r size Good
      → 0 < size
      → s.receiver ≡ Receiver.reading
      → Tidy last r Good size opened Freed s
      → Kept last r close Good size opened Freed
          (receive_with n)
          s
          (receiver_turn last r close n Receiver.reading s)
  unfolding receiver_turn turn after_receive
  reads n s ring above c i =
      let at : Receiving last opened Freed Receiver.reading i.received s.heap =
        rw c at i.at_receiver in
      let stands : Stands r Good size s.system i.queue = rw c at i.stands in
      let more : taken s < last =
        omega (arith, at.0, taken-received last r Good size opened Freed s i) in
      let d =
        consumer_turn-Inv ring above s.system.fifo s.system.producer s.system.consumer i.queue
          stands in
      let b = backlog-length last r Good size opened Freed s i in
      let system : System F = record (s.system) { fifo = d.fifo; consumer = d.next } in
      elim (read_outcome r size s.system.consumer s.system.fifo i.queue d.events d.next d.fifo
        d.queue stands.no_null stands.consuming d.returns d.conforms d.inv.consuming) [
          | inl (es, q, rank) ↦ record {
            after = record s { system = system };
            returns = rw (d.returns, es) refl;
            good =
                same_queue-Tidy last r Good size opened Freed s system s.receiver i refl refl
                  i.at_receiver (rw c (rw q at d.inv)) i.joined;
            progress = go_on-Advances last size n s system c more refl (elim rank [
              | inl less ↦ inl (rw (← b) at less)
              | inr (empty, equal) ↦ inr (b ∙ ap length empty, rw (← b) at equal)
            ]);
          }
          | inr (inl (es, q, empty, _, seven)) ↦ record {
            after = record s { system = system; receiver = Receiver.emptied };
            returns = rw (d.returns, es) refl;
            good =
                same_queue-Tidy last r Good size opened Freed s system Receiver.emptied i refl
                  (rw c refl) at (rw q at d.inv) (λ e. cc e);
            progress = again-Advances last size n s system c more refl (b ∙ ap length empty) seven;
          }
          | inr (inr (x, es, pointer, q, two)) ↦
              rw (d.returns, es)
                (takes n s system x d.queue c i stands.holds.bound pointer q d.inv refl
                  (rw (← b) at two))
        ]

  pub receiver_turn-Kept :
      (n : ℕ) (c : Receiver) (s : Chat F Heap)
      → IsRing r size Good
      → 0 < size
      → ((f : F) → Good f → Freed (close f opened).1)
      → s.receiver ≡ c
      → Tidy last r Good size opened Freed s
      → Kept last r close Good size opened Freed
          (receive_with n)
          s
          (receiver_turn last r close n c s)
  unfolding receiver_turn
  receiver_turn-Kept n Receiver.choosing s ring above frees c i = chooses n s c i
  receiver_turn-Kept n Receiver.reading s ring above frees c i = reads n s ring above c i
  receiver_turn-Kept n Receiver.emptied s ring above frees c i = turned_away n s c i
  receiver_turn-Kept n (Receiver.received x) s ring above frees c i = shows n s x c i
  receiver_turn-Kept n Receiver.closing s ring above frees c i =
      closes last r close Good size opened Freed n s frees c i
  receiver_turn-Kept n Receiver.joining s ring above frees c i =
      joins last r close Good size opened Freed n s c i
  receiver_turn-Kept n Receiver.finished s ring above frees c i = record {
    after = s;
    returns = refl;
    good = i;
    progress = inr (refl, receiver_moves last size n s (inl c), λ d h. h);
  }
