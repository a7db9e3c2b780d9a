-- ===== src/Threads/Sends.antt =====
-- Every turn of the producer of threads.c is defined and keeps the invariant.
use mulle_fifo.Common.{
  pos, ℕ, suc, ◌+◌, ◌-◌, ◌%◌, ◌<◌, ◌≡◌, ◌≢◌, inl, inr, refl, sym, ap, ◌∙◌, [], ◌∷◌, ◌++◌, ◌==◌,
  arith, Bool-cases, ==_iff, ltb, ok,
}
use mulle_fifo.Queue.Trace.{wrote}
use mulle_fifo.Ring.{Ring, IsRing}
use mulle_fifo.Spsc.{Producer, System, turn}
use mulle_fifo.Spsc.Linearizable.{Stands}
use mulle_fifo.Spsc.ProducerSteps.{producer_turn-Inv}
use mulle_fifo.Client.Shape.{write_outcome}
use mulle_fifo.Client.Progress.{write_rank}
use mulle_fifo.Client.Invariant.{addresses, addresses-append}
use mulle_fifo.Threads.{Sender, Chat, send_with, sender_turn, after_send, after_written}
use mulle_fifo.Threads.Invariant.{
  Tidy, Kept, Sending, sent_of, taken, backlog, Standing, Stands-Standing, taken-received,
  backlog-length, still_open, asleep-send,
}
use mulle_fifo.Threads.SendsAdvance.{
  sender_moves, wake-Advances, go_on-Advances, refused-Advances, stored-Advances,
  turned_away-Advances, tested-Advances,
}

module _ (last : ℕ) {F Heap : Type 0} (r : Ring F) (close : F → Heap → F × Heap) (Good : F → Type 0)
    (size : ℕ) (opened : Heap) (Freed : Heap → Type 0) where
  -- A turn of the producer that leaves the queue as it is.
  same_queue-Tidy :
      (s : Chat F Heap) (system : System F) (w : Sender) (j : ℕ)
      → s.sender ≢ Sender.finished
      → (i : Tidy last r Good size opened Freed s) → sent_of w j ≡ sent_of s.sender s.i
      → Sending last w j system.producer
      → Standing r Good size s.receiver system i.queue
      → Tidy last r Good size opened Freed (record s { system = system; sender = w; i = j })
  same_queue-Tidy s system w j on i same at_sender stands = record {
    queue = i.queue;
    waiting = i.waiting;
    received = i.received;
    queued = i.queued;
    sent = i.sent ∙ sym same;
    shown = i.shown;
    shown_is = i.shown_is;
    printed = i.printed;
    at_sender = at_sender;
    at_receiver = i.at_receiver;
    stands = stands;
    joined = λ c. absurd (on (i.joined c));
  }

  chooses :
      (n : ℕ) (s : Chat F Heap)
      → s.sender ≡ Sender.choosing
      → Tidy last r Good size opened Freed s
      → Kept last r close Good size opened Freed
          (send_with n)
          s
          (sender_turn last r close n Sender.choosing s)
  unfolding sender_turn
  chooses n s w i =
      let (outside, above, below) : Sending last Sender.choosing s.i s.system.producer =
        rw w at i.at_sender in
      elim (Bool-cases (ltb (n % 8) 4)) [
        | inl awake ↦ record {
          after = record s { sender = Sender.writing };
          returns = rw awake refl;
          good =
              same_queue-Tidy s s.system Sender.writing s.i (λ e. cc (sym w ∙ e)) i (rw w refl)
                (rw outside tt, above, below) i.stands;
          progress = wake-Advances last size n s w outside;
        }
        | inr asleep ↦ record {
          after = s;
          returns = rw asleep (ap (λ k. ok (record s { sender = k })) (sym w));
          good = i;
          progress = inr (refl, (λ d a. absurd (asleep-send n d asleep a)), λ d h. h);
        }
      ]

  turned_away :
      (n : ℕ) (s : Chat F Heap)
      → s.sender ≡ Sender.refused
      → Tidy last r Good size opened Freed s
      → Kept last r close Good size opened Freed
          (send_with n)
          s
          (sender_turn last r close n Sender.refused s)
  unfolding sender_turn
  turned_away n s w i =
      let at : Sending last Sender.refused s.i s.system.producer = rw w at i.at_sender in
      record {
        after = record s { sender = Sender.choosing };
        returns = refl;
        good =
            same_queue-Tidy s s.system Sender.choosing s.i (λ e. cc (sym w ∙ e)) i (rw w refl) at
              i.stands;
        progress = turned_away-Advances last size n s w;
      }

  -- The last number, and any other.
  tests :
      (n : ℕ) (s : Chat F Heap)
      → s.sender ≡ Sender.written
      → Tidy last r Good size opened Freed s
      → Kept last r close Good size opened Freed
          (send_with n)
          s
          (sender_turn last r close n Sender.written s)
  unfolding sender_turn after_written
  tests n s w i =
      let (outside, above, below) : Sending last Sender.written s.i s.system.producer =
        rw w at i.at_sender in
      let (more, end) = tested-Advances last size n s w below in
      elim (Bool-cases (s.i == last)) [
        | inl final ↦ record {
          after = record s { sender = Sender.finished };
          returns = rw final refl;
          good =
              same_queue-Tidy s s.system Sender.finished s.i (λ e. cc (sym w ∙ e)) i (rw w refl)
                (outside, (==_iff s.i last).0 final) i.stands;
          progress = end;
        }
        | inr other ↦ record {
          after = record s { sender = Sender.choosing; i = s.i + 1 };
          returns = rw other refl;
          good =
              same_queue-Tidy s s.system Sender.choosing (s.i + 1) (λ e. cc (sym w ∙ e)) i
                (rw w (omega arith)) (outside, omega arith, ground (arith, other, below)) i.stands;
          progress = more;
        }
      ]

  -- A number has gone into the FIFO.
  stored-Tidy :
      (s : Chat F Heap) (system : System F)
      → s.sender ≡ Sender.writing
      → (i : Tidy last r Good size opened Freed s) → system.producer ≡ Producer.outside
      → Stands r Good size system (i.queue ++ (s.i ∷ []))
      → Tidy last r Good size opened Freed (record s { system = system; sender = Sender.written })
  stored-Tidy s system e i outside stands =
      let (_, above, below) : Sending last Sender.writing s.i s.system.producer =
        rw e at i.at_sender in
      let sent : i.received + i.waiting ≡ s.i - 1 = i.sent ∙ ap (λ k. sent_of k s.i) e in
      let next : suc (s.i - 1) ≡ s.i = omega (arith, above) in
      record {
        queue = i.queue ++ (s.i ∷ []);
        waiting = suc i.waiting;
        received = i.received;
        queued =
            ap (λ q. q ++ (s.i ∷ [])) i.queued
            ∙ ap (λ k. addresses suc i.waiting i.received ++ (k ∷ [])) (sym next)
            ∙ addresses-append suc i.waiting i.received (s.i - 1) sent;
        sent = omega (arith, sent, above);
        shown = i.shown;
        shown_is = i.shown_is;
        printed = i.printed;
        at_sender = (outside, above, below);
        at_receiver = i.at_receiver;
        stands = Stands-Standing r Good size s.receiver system (i.queue ++ (s.i ∷ [])) stands;
        joined = λ c. cc (sym e ∙ i.joined c);
      }

  stores :
      (n : ℕ) (s : Chat F Heap) (system : System F) (x c : ℕ)
      → s.sender ≡ Sender.writing
      → (i : Tidy last r Good size opened Freed s)
      → Stands r Good size system (i.queue ++ (s.i ∷ []))
      → system.producer ≡ Producer.outside
      → system.consumer ≡ s.system.consumer
      → write_rank (backlog s == size) s.system.producer ≡ 1
      → Kept last r close Good size opened Freed
          (send_with n)
          s
          (ok (after_send (wrote x (pos c) ∷ []) (record s { system = system })))
  unfolding after_send
  stores n s system x c w i stands outside same one =
      let (_, above, below) : Sending last Sender.writing s.i s.system.producer =
        rw w at i.at_sender in
      let behind : taken s < s.i = omega (
        arith,
        above,
        taken-received last r Good size opened Freed s i,
        i.sent,
        ap (λ k. sent_of k s.i) w,
      ) in
      record {
        after = record s { system = system; sender = Sender.written };
        returns = refl;
        good = stored-Tidy s system w i outside stands;
        progress = stored-Advances last size n s system w same below behind one;
      }

  writes :
      (n : ℕ) (s : Chat F Heap)
      → IsRing r size Good
      → 0 < size
      → s.sender ≡ Sender.writing
      → Tidy last r Good size opened Freed s
      → Kept last r close Good size opened Freed
          (send_with n)
          s
          (sender_turn last r close n Sender.writing s)
  unfolding sender_turn turn after_send
  writes n s ring above w i =
      let (carries, positive, below) : Sending last Sender.writing s.i s.system.producer =
        rw w at i.at_sender in
      let stands = still_open last r Good size opened Freed s.receiver s i refl w in
      let d =
        producer_turn-Inv ring above s.i s.system.fifo s.system.producer s.system.consumer i.queue
          stands in
      let b = backlog-length last r Good size opened Freed s i in
      let system : System F = record (s.system) { fifo = d.fifo; producer = d.next } in
      elim (write_outcome r size s.i s.system.producer s.system.fifo i.queue d.events d.next d.fifo
        d.queue _ (omega (arith, positive)) carries d.returns d.conforms d.inv.producing) [
          | inl (es, q, on, rank) ↦ record {
            after = record s { system = system };
            returns = rw (d.returns, es) refl;
            good =
                same_queue-Tidy s system s.sender s.i (λ e. cc (sym w ∙ e)) i refl
                  (rw w (on, positive, below))
                  (Stands-Standing r Good size s.receiver system i.queue (rw q at d.inv));
            progress = go_on-Advances last size n s system w refl (rw (← b) at rank);
          }
          | inr (inl (es, q, out, full, seven)) ↦ record {
            after = record s { system = system; sender = Sender.refused };
            returns = rw (d.returns, es) refl;
            good =
                same_queue-Tidy s system Sender.refused s.i (λ e. cc (sym w ∙ e)) i (rw w refl)
                  (out, positive, below)
                  (Stands-Standing r Good size s.receiver system i.queue (rw q at d.inv));
            progress = refused-Advances last size n s system w refl (b ∙ full) seven;
          }
          | inr (inr (es, q, out, one)) ↦
              rw (d.returns, es)
                (stores n s system s.i 0 w i (rw q at d.inv) out refl (rw (← b) at one))
        ]

  pub sender_turn-Kept :
      (n : ℕ) (w : Sender) (s : Chat F Heap)
      → IsRing r size Good
      → 0 < size
      → s.sender ≡ w
      → Tidy last r Good size opened Freed s
      → Kept last r close Good size opened Freed (send_with n) s (sender_turn last r close n w s)
  unfolding sender_turn
  sender_turn-Kept n Sender.choosing s ring above w i = chooses n s w i
  sender_turn-Kept n Sender.writing s ring above w i = writes n s ring above w i
  sender_turn-Kept n Sender.refused s ring above w i = turned_away n s w i
  sender_turn-Kept n Sender.written s ring above w i = tests n s w i
  sender_turn-Kept n Sender.finished s ring above w i = record {
    after = s;
    returns = refl;
    good = i;
    progress = inr (refl, sender_moves last size n s (inl w), λ d h. h);
  }
