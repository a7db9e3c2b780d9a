-- ===== src/Threads/Invariant.antt =====
-- What holds between any two turns of the two threads of threads.c, and what is left to do.
use mulle_fifo.Common.{
  ltb, false, Result, ℕ, suc, ◌+◌, ◌-◌, ◌*◌, ◌%◌, ◌≤◌, ◌<◌, ◌≡◌, ◌⊎◌, inl, inr, refl, if◌then◌else◌,
  ap, length, Bool, ◌==◌, arith, ◌∙◌,
}
use mulle_fifo.Common.Fair
use mulle_fifo.Queue.{Queue}
use mulle_fifo.Ring.{Ring}
use mulle_fifo.Spsc.{Producer, Consumer, System}
use mulle_fifo.Spsc.Linearizable.{Stands}
use mulle_fifo.Client.Progress.{write_rank, read_rank}
use mulle_fifo.Client.Shape.{Carries}
use mulle_fifo.Client.Invariant.{addresses, length-addresses}
use mulle_fifo.Threads.{Sender, Receiver, Chat, Pick, send_with, receive_with, pick_turn}

pub data Party : Type 0 where
  the_sender the_receiver : Party

-- The thread makes a statement other than to sleep.
abbrev pub Acts : Party → Pick → Type 0
Acts the_sender (send_with n) = n % 8 < 4
Acts the_receiver (receive_with n) = n % 8 < 4
Acts the_sender (receive_with n) = ⊥
Acts the_receiver (send_with n) = ⊥

-- How many numbers are in the FIFO or were in it.
abbrev pub sent_of : Sender → ℕ → ℕ
sent_of Sender.choosing i = i - 1
sent_of Sender.writing i = i - 1
sent_of Sender.refused i = i - 1
sent_of Sender.written i = i
sent_of Sender.finished i = i

abbrev pub sender_rank : Bool → Sender → ℕ → Producer → ℕ
sender_rank full Sender.choosing left p = 10 * left + 7
sender_rank full Sender.writing left p = 10 * left + write_rank full p
sender_rank full Sender.refused left p = 10 * left + (if full then 7 else 8)
sender_rank full Sender.written left p = 10 * left - 1
sender_rank full Sender.finished left p = 0

abbrev pub receiver_rank : Bool → Receiver → ℕ → Consumer → ℕ
receiver_rank empty Receiver.choosing left c = 10 * left + 7
receiver_rank empty Receiver.reading left c = 10 * left + read_rank empty c
receiver_rank empty Receiver.emptied left c = 10 * left + (if empty then 7 else 8)
receiver_rank empty (Receiver.received x) left c = 10 * left + 8
receiver_rank empty Receiver.closing left c = 2
receiver_rank empty Receiver.joining left c = 1
receiver_rank empty Receiver.finished left c = 0

-- How many numbers have come out of the FIFO, if `n` are printed.
abbrev pub taken_of : Receiver → ℕ → ℕ
taken_of Receiver.choosing n = n
taken_of Receiver.reading n = n
taken_of Receiver.emptied n = n
taken_of (Receiver.received x) n = n + 1
taken_of Receiver.closing n = n
taken_of Receiver.joining n = n
taken_of Receiver.finished n = n

abbrev pub taken : {F Heap : Type 0} → Chat F Heap → ℕ
taken s = taken_of s.receiver (length s.printed)

abbrev pub backlog : {F Heap : Type 0} → Chat F Heap → ℕ
backlog s = sent_of s.sender s.i - taken s

abbrev pub Awaits : Receiver → Type 0
Awaits c = (c ≡ Receiver.choosing) ⊎ (c ≡ Receiver.reading) ⊎ (c ≡ Receiver.emptied)

module _ (last size : ℕ) {F Heap : Type 0} where
  abbrev pub rank : Chat F Heap → ℕ
  rank s =
      sender_rank (backlog s == size) s.sender (last + 1 - s.i) s.system.producer
      + receiver_rank (backlog s == 0) s.receiver (last - taken s) s.system.consumer

  -- The thread is at its end, or it waits for the other one.
  abbrev pub Stuck : Party → Chat F Heap → Type 0
  Stuck the_sender s = (s.sender ≡ Sender.finished) ⊎ (backlog s ≡ size)
  Stuck the_receiver s =
      (s.receiver ≡ Receiver.finished)
      ⊎ (Awaits s.receiver × (backlog s ≡ 0) × (taken s < last))
      ⊎ ((s.receiver ≡ Receiver.joining) × (s.sender ≡ Sender.written))

module _ (last : ℕ) where
  abbrev pub Sending : Sender → ℕ → Producer → Type 0
  Sending Sender.choosing i p = (p ≡ Producer.outside) × (0 < i) × (i ≤ last)
  Sending Sender.writing i p = Carries i p × (0 < i) × (i ≤ last)
  Sending Sender.refused i p = (p ≡ Producer.outside) × (0 < i) × (i ≤ last)
  Sending Sender.written i p = (p ≡ Producer.outside) × (0 < i) × (i ≤ last)
  Sending Sender.finished i p = (p ≡ Producer.outside) × (i ≡ last)

  -- The heap is that after `init` until `done`, and afterwards what `done` makes of it.
  abbrev pub Receiving : {Heap : Type 0} → Heap → (Heap → Type 0) → Receiver → ℕ → Heap → Type 0
  Receiving opened Freed Receiver.choosing n h = (n < last) × (h ≡ opened)
  Receiving opened Freed Receiver.reading n h = (n < last) × (h ≡ opened)
  Receiving opened Freed Receiver.emptied n h = (n < last) × (h ≡ opened)
  Receiving opened Freed (Receiver.received x) n h = (x ≡ n) × (n ≤ last) × (h ≡ opened)
  Receiving opened Freed Receiver.closing n h = (n ≡ last) × (h ≡ opened)
  Receiving opened Freed Receiver.joining n h = (n ≡ last) × Freed h
  Receiving opened Freed Receiver.finished n h = (n ≡ last) × Freed h

-- After `done` the FIFO is not looked at any more.
abbrev pub Standing :
    {F : Type 0} → Ring F → (F → Type 0) → ℕ → Receiver → System F → Queue → Type 0
Standing r Good size Receiver.choosing s q = Stands r Good size s q
Standing r Good size Receiver.reading s q = Stands r Good size s q
Standing r Good size Receiver.emptied s q = Stands r Good size s q
Standing r Good size (Receiver.received x) s q = Stands r Good size s q
Standing r Good size Receiver.closing s q = Stands r Good size s q
Standing r Good size Receiver.joining s q = Unit {0}
Standing r Good size Receiver.finished s q = Unit {0}

-- The producer has made its last access to the FIFO.
abbrev pub IsPast : Sender → Type 0
IsPast w = (w ≡ Sender.written) ⊎ (w ≡ Sender.finished)

writing_on : ¬ (IsPast Sender.writing)
writing_on (inl e) = cc e
writing_on (inr e) = cc e

-- The numbers up to `shown` are printed, those up to `received` have come out of the FIFO, and the
-- next `waiting` are in it.
pub record Tidy (last : ℕ) {F Heap : Type 0} (r : Ring F) (Good : F → Type 0) (size : ℕ)
    (opened : Heap) (Freed : Heap → Type 0) (s : Chat F Heap) : Type 0 where
  pub queue : Queue
  pub waiting : ℕ
  pub received : ℕ
  pub queued : queue ≡ addresses suc waiting received
  pub sent : received + waiting ≡ sent_of s.sender s.i
  pub shown : ℕ
  pub shown_is : taken_of s.receiver shown ≡ received
  pub printed : s.printed ≡ addresses suc shown 0
  pub at_sender : Sending last s.sender s.i s.system.producer
  pub at_receiver : Receiving last opened Freed s.receiver received s.heap
  pub stands : Standing r Good size s.receiver s.system queue
  pub joined : s.receiver ≡ Receiver.finished → s.sender ≡ Sender.finished

pub Stands-Standing :
    {F : Type 0} (r : Ring F) (Good : F → Type 0) (size : ℕ) (c : Receiver) (s : System F)
    (q : Queue)
    → Stands r Good size s q
    → Standing r Good size c s q
Stands-Standing r Good size Receiver.choosing s q h = h
Stands-Standing r Good size Receiver.reading s q h = h
Stands-Standing r Good size Receiver.emptied s q h = h
Stands-Standing r Good size (Receiver.received x) s q h = h
Stands-Standing r Good size Receiver.closing s q h = h
Stands-Standing r Good size Receiver.joining s q h = tt
Stands-Standing r Good size Receiver.finished s q h = tt

module _ (last : ℕ) {F Heap : Type 0} (r : Ring F) (Good : F → Type 0) (size : ℕ) (opened : Heap)
    (Freed : Heap → Type 0) where
  pub taken-received :
      (s : Chat F Heap) (i : Tidy last r Good size opened Freed s) → taken s ≡ i.received
  taken-received s i =
      ap (taken_of s.receiver) (ap length i.printed ∙ length-addresses suc i.shown 0) ∙ i.shown_is

  pub backlog-length :
      (s : Chat F Heap) (i : Tidy last r Good size opened Freed s) → backlog s ≡ length i.queue
  backlog-length s i = omega (
    arith,
    i.sent,
    taken-received s i,
    ap length i.queued ∙ length-addresses suc i.waiting i.received,
  )

  -- After the last number the producer touches the FIFO no more.
  pub last_sent :
      (w : Sender) (s : Chat F Heap) (i : Tidy last r Good size opened Freed s)
      → s.sender ≡ w
      → i.received ≡ last
      → IsPast w × (s.i ≡ last) × (s.system.producer ≡ Producer.outside)
  last_sent Sender.choosing s i w e =
      let at : Sending last Sender.choosing s.i s.system.producer = rw w at i.at_sender in
      absurd (omega (arith, at.1, at.2, e, i.sent, ap (λ k. sent_of k s.i) w))
  last_sent Sender.writing s i w e =
      let at : Sending last Sender.writing s.i s.system.producer = rw w at i.at_sender in
      absurd (omega (arith, at.1, at.2, e, i.sent, ap (λ k. sent_of k s.i) w))
  last_sent Sender.refused s i w e =
      let at : Sending last Sender.refused s.i s.system.producer = rw w at i.at_sender in
      absurd (omega (arith, at.1, at.2, e, i.sent, ap (λ k. sent_of k s.i) w))
  last_sent Sender.written s i w e =
      let at : Sending last Sender.written s.i s.system.producer = rw w at i.at_sender in
      (inl refl, omega (arith, at.2, e, i.sent, ap (λ k. sent_of k s.i) w), at.0)
  last_sent Sender.finished s i w e =
      let at : Sending last Sender.finished s.i s.system.producer = rw w at i.at_sender in
      (inr refl, at.1, at.0)

  -- While the producer is in a call the FIFO is open.
  pub still_open :
      (c : Receiver) (s : Chat F Heap) (i : Tidy last r Good size opened Freed s)
      → s.receiver ≡ c
      → s.sender ≡ Sender.writing
      → Stands r Good size s.system i.queue
  still_open Receiver.choosing s i c w = rw c at i.stands
  still_open Receiver.reading s i c w = rw c at i.stands
  still_open Receiver.emptied s i c w = rw c at i.stands
  still_open (Receiver.received x) s i c w = rw c at i.stands
  still_open Receiver.closing s i c w = rw c at i.stands
  still_open Receiver.joining s i c w =
      let at : Receiving last opened Freed Receiver.joining i.received s.heap =
        rw c at i.at_receiver in
      absurd (writing_on (last_sent Sender.writing s i w at.0).0)
  still_open Receiver.finished s i c w =
      let at : Receiving last opened Freed Receiver.finished i.received s.heap =
        rw c at i.at_receiver in
      absurd (writing_on (last_sent Sender.writing s i w at.0).0)

-- A turn of threads.c keeps the invariant and leaves less to do, unless the thread sleeps or waits.
abbrev pub Kept :
    (last : ℕ) {F Heap : Type 0} (r : Ring F) (close : F → Heap → F × Heap) (Good : F → Type 0)
    (size : ℕ) (opened : Heap) (Freed : Heap → Type 0)
    → Pick
    → Chat F Heap
    → Result (Chat F Heap)
    → Type 0
Kept last r close Good size opened Freed p s out =
    Fair.Keeps (pick_turn last r close) (Tidy last r Good size opened Freed) (rank last size)
      (Stuck last size) Acts (λ d. Acts d p) s out

abbrev pub Advances : (last size : ℕ) {F Heap : Type 0} → Pick → Chat F Heap → Chat F Heap → Type 0
Advances last size p s s' =
    (rank last size s' < rank last size s)
    ⊎ ((rank last size s' ≡ rank last size s)
        × ((d : Party) → Acts d p → Stuck last size d s)
        × ((d : Party) → Stuck last size d s' → Stuck last size d s))

pub asleep-send : (n : ℕ) (d : Party) → ltb (n % 8) 4 ≡ false → Acts d (send_with n) → ⊥
asleep-send n the_sender asleep a = ground (arith, a)
asleep-send n the_receiver asleep a = a

pub asleep-receive : (n : ℕ) (d : Party) → ltb (n % 8) 4 ≡ false → Acts d (receive_with n) → ⊥
asleep-receive n the_sender asleep a = a
asleep-receive n the_receiver asleep a = ground (arith, a)
