-- ===== src/Threads/Outcome.antt =====
-- Schedules of the two threads of threads.c.
use mulle_fifo.Common.{
  ℕ, Bool, ◌-◌, ◌==◌, suc, ◌+◌, ◌*◌, ◌≤◌, ◌<◌, ◌≡◌, ◌⊎◌, inl, inr, refl, sym, ap, ◌∙◌, List, arith,
  ok, Result, [],
}
use mulle_fifo.Common.Fair
use mulle_fifo.Spsc.{Producer, Consumer}
use mulle_fifo.Ring.{Ring, IsRing}
use mulle_fifo.Ring.Sequential.{Represents}
use mulle_fifo.Spsc.Invariant.{Inv-at_rest}
use mulle_fifo.Client.Invariant.{addresses}
use mulle_fifo.Threads.{
  Sender, Receiver, Chat, Pick, send_with, receive_with, pick_turn, chat, begin,
}
use mulle_fifo.Threads.Invariant.{
  Party, the_sender, the_receiver, Acts, Stuck, rank, Tidy, Kept, Sending, Receiving, receiver_rank,
  IsPast, taken_of, taken, backlog, sent_of, last_sent, taken-received,
}
use mulle_fifo.Threads.Sends.{sender_turn-Kept}
use mulle_fifo.Threads.Receives.{receiver_turn-Kept}

-- 1 up to `n`.
abbrev pub numbers : ℕ → List ℕ
numbers n = addresses suc n 0

-- The consumer has called `done`.
abbrev pub HasClosed : Receiver → Type 0
HasClosed c = (c ≡ Receiver.joining) ⊎ (c ≡ Receiver.finished)

-- The producer is between its last access to the FIFO, the increment of `n` for the last number,
-- and its end.
abbrev pub HasSentAll : {F Heap : Type 0} → ℕ → Chat F Heap → Type 0
HasSentAll last s = IsPast s.sender × (s.i ≡ last) × (s.system.producer ≡ Producer.outside)

-- The schedule is defined, and the first numbers are printed, in order. Once the consumer has called
-- `done` they are all printed, the producer has written the last number and is out of the call, and
-- the heap is what `done` leaves; once it has joined the producer, that is at its end.
pub record Prints {F Heap : Type 0} (last : ℕ) (Freed : Heap → Type 0) (out : Result (Chat F Heap))
    : Type 0 where
  pub after : Chat F Heap
  pub returns : out ≡ ok after
  pub count : ℕ
  pub up_to : count ≤ last
  pub printed : after.printed ≡ numbers count
  pub once_closed :
      HasClosed after.receiver → (count ≡ last) × HasSentAll last after × Freed after.heap
  pub once_joined : after.receiver ≡ Receiver.finished → after.sender ≡ Sender.finished

-- The schedule is defined and ends with both threads at their ends and all numbers printed.
pub record PrintsAll {F Heap : Type 0} (last : ℕ) (Freed : Heap → Type 0)
    (out : Result (Chat F Heap)) : Type 0 where
  pub after : Chat F Heap
  pub returns : out ≡ ok after
  pub sender_end : after.sender ≡ Sender.finished
  pub receiver_end : after.receiver ≡ Receiver.finished
  pub printed : after.printed ≡ numbers last
  pub freed : Freed after.heap

shown-le-taken : (c : Receiver) (n : ℕ) → n ≤ taken_of c n
shown-le-taken Receiver.choosing n = omega arith
shown-le-taken Receiver.reading n = omega arith
shown-le-taken Receiver.emptied n = omega arith
shown-le-taken (Receiver.received x) n = omega arith
shown-le-taken Receiver.closing n = omega arith
shown-le-taken Receiver.joining n = omega arith
shown-le-taken Receiver.finished n = omega arith

module _ (last : ℕ) {Heap : Type 0} (opened : Heap) (Freed : Heap → Type 0) where
  received_bound : (c : Receiver) (n : ℕ) (h : Heap) → Receiving last opened Freed c n h → n ≤ last
  received_bound Receiver.choosing n h at = omega (arith, at.0)
  received_bound Receiver.reading n h at = omega (arith, at.0)
  received_bound Receiver.emptied n h at = omega (arith, at.0)
  received_bound (Receiver.received x) n h at = omega (arith, at.1)
  received_bound Receiver.closing n h at = omega (arith, at.0)
  received_bound Receiver.joining n h at = omega (arith, at.0)
  received_bound Receiver.finished n h at = omega (arith, at.0)

  -- A consumer that is not at its end has something left to do.
  receiver_done :
      (c : Receiver) (n m : ℕ) (h : Heap) (empty : Bool) (x : Consumer)
      → m ≡ n
      → Receiving last opened Freed c n h
      → receiver_rank empty c (last - m) x ≡ 0
      → c ≡ Receiver.finished
  receiver_done Receiver.choosing n m h empty x same at z = absurd (omega (arith, z))
  receiver_done Receiver.reading n m h empty x same at z = absurd (omega (arith, z, at.0, same))
  receiver_done Receiver.emptied n m h empty x same at z = absurd (omega (arith, z, at.0, same))
  receiver_done (Receiver.received y) n m h empty x same at z = absurd (omega (arith, z))
  receiver_done Receiver.closing n m h empty x same at z = absurd (omega (arith, z))
  receiver_done Receiver.joining n m h empty x same at z = absurd (omega (arith, z))
  receiver_done Receiver.finished n m h empty x same at z = refl

module _ (last : ℕ) {F Heap : Type 0} (r : Ring F) (close : F → Heap → F × Heap) (Good : F → Type 0)
    (size : ℕ) (opened : Heap) (Freed : Heap → Type 0) where
  pub pick_turn-Kept :
      (p : Pick) (s : Chat F Heap)
      → IsRing r size Good
      → 0 < size
      → ((f : F) → Good f → Freed (close f opened).1)
      → Tidy last r Good size opened Freed s
      → Kept last r close Good size opened Freed p s (pick_turn last r close p s)
  unfolding pick_turn
  pick_turn-Kept (send_with n) s ring above frees i =
      sender_turn-Kept last r close Good size opened Freed n s.sender s ring above refl i
  pick_turn-Kept (receive_with n) s ring above frees i =
      receiver_turn-Kept last r close Good size opened Freed n s.receiver s ring above frees refl i

  end_printed :
      (s : Chat F Heap) (i : Tidy last r Good size opened Freed s)
      → HasClosed s.receiver
      → (i.shown ≡ last) × HasSentAll last s × Freed s.heap
  end_printed s i (inl c) =
      let at : Receiving last opened Freed Receiver.joining i.received s.heap =
        rw c at i.at_receiver in
      (
        (rw c at i.shown_is) ∙ at.0,
        last_sent last r Good size opened Freed s.sender s i refl at.0,
        at.1,
      )
  end_printed s i (inr c) =
      let at : Receiving last opened Freed Receiver.finished i.received s.heap =
        rw c at i.at_receiver in
      (
        (rw c at i.shown_is) ∙ at.0,
        last_sent last r Good size opened Freed s.sender s i refl at.0,
        at.1,
      )

  -- The producer has written the last number, so it is out or in the FIFO.
  end_sent :
      (s : Chat F Heap) (i : Tidy last r Good size opened Freed s)
      → s.sender ≡ Sender.finished
      → i.received + i.waiting ≡ last
  end_sent s i w =
      let at : Sending last Sender.finished s.i s.system.producer = rw w at i.at_sender in
      i.sent ∙ ap (λ k. sent_of k s.i) w ∙ at.1

  -- While the consumer waits for the producer's end, the FIFO is not full.
  busy_alone :
      (s : Chat F Heap)
      → 0 < size
      → Tidy last r Good size opened Freed s
      → s.receiver ≡ Receiver.joining
      → s.sender ≡ Sender.written
      → ¬ (Stuck last size the_sender s)
  busy_alone s above i c w (inl e) = cc (sym w ∙ e)
  busy_alone s above i c w (inr full) =
      let (all, (_, final, _), _) = end_printed s i (inl c) in
      let shown_is : i.shown ≡ i.received = rw c at i.shown_is in
      absurd (
        omega (
          arith,
          above,
          full,
          all,
          shown_is,
          final,
          ap (λ k. sent_of k s.i) w,
          taken-received last r Good size opened Freed s i,
        ))

  -- The threads never wait for each other both at once.
  never_both_wait :
      (s : Chat F Heap)
      → 0 < size
      → Tidy last r Good size opened Freed s
      → ((d : Party) → Stuck last size d s)
      → rank last size s ≡ 0
  never_both_wait s above i stuck = elim (stuck the_receiver) [
    | inl c ↦ rw (c, i.joined c) refl
    | inr (inr (c, w)) ↦ absurd (busy_alone s above i c w (stuck the_sender))
    | inr (inl (_, empty, more)) ↦ elim (stuck the_sender) [
      | inl w ↦ absurd (
          omega (
            arith,
            end_sent s i w,
            i.sent,
            empty,
            more,
            taken-received last r Good size opened Freed s i,
          ))
      | inr full ↦ absurd (omega (arith, above, full, empty))
    ]
  ]

  begin-Tidy :
      (f : F)
      → 0 < last
      → Represents r Good size f []
      → Tidy last r Good size opened Freed (begin f opened)
  begin-Tidy f some h = record {
    queue = [];
    waiting = 0;
    received = 0;
    shown = 0;
    shown_is = refl;
    queued = refl;
    sent = refl;
    printed = refl;
    at_sender = (refl, omega arith, some);
    at_receiver = (some, refl);
    stands = Inv-at_rest h tt;
    joined = λ e. cc e;
  }

  pub chat-Prints :
      (ps : List Pick) (f : F)
      → IsRing r size Good
      → 0 < size
      → ((f : F) → Good f → Freed (close f opened).1)
      → 0 < last
      → Represents r Good size f []
      → Prints last Freed (chat last r close ps (begin f opened))
  unfolding chat
  chat-Prints ps f ring above frees some h =
      let d =
        Fair.schedule-Keeps (pick_turn last r close) (Tidy last r Good size opened Freed)
          (rank last size) (Stuck last size) Acts ps (begin f opened)
          (λ p s. pick_turn-Kept p s ring above frees) (begin-Tidy f some h) in
      record {
        after = d.after;
        returns = d.returns;
        count = d.good.shown;
        up_to = omega (
          arith,
          shown-le-taken d.after.receiver d.good.shown,
          d.good.shown_is,
          received_bound last opened Freed d.after.receiver d.good.received d.after.heap
              d.good.at_receiver,
        );
        printed = d.good.printed;
        once_closed = end_printed d.after d.good;
        once_joined = d.good.joined;
      }

  pub chat-PrintsAll :
      (ps : List Pick) (f : F)
      → IsRing r size Good
      → 0 < size
      → ((f : F) → Good f → Freed (close f opened).1)
      → 0 < last
      → Represents r Good size f []
      → Fair.HasRounds Acts (20 * last + 14) ps
      → PrintsAll last Freed (chat last r close ps (begin f opened))
  unfolding chat
  chat-PrintsAll ps f ring above frees some h rounds =
      let d =
        Fair.rounds-Ends (pick_turn last r close) (Tidy last r Good size opened Freed)
          (rank last size) (Stuck last size) Acts (20 * last + 14) ps (begin f opened)
          (λ p s. pick_turn-Kept p s ring above frees) (λ s. never_both_wait s above)
          (begin-Tidy f some h) (omega arith) rounds in
      let c =
        receiver_done last opened Freed d.after.receiver d.good.received (taken d.after)
          d.after.heap (backlog d.after == 0) d.after.system.consumer
          (taken-received last r Good size opened Freed d.after d.good) d.good.at_receiver
          (omega (arith, d.done)) in
      let (all, _, freed) = end_printed d.after d.good (inr c) in
      record {
        after = d.after;
        returns = d.returns;
        sender_end = d.good.joined c;
        receiver_end = c;
        printed = d.good.printed ∙ ap numbers all;
        freed = freed;
      }
