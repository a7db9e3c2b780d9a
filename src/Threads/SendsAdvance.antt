-- ===== src/Threads/SendsAdvance.antt =====
-- What is left to do after a statement of the producer of threads.c.
use mulle_fifo.Common.{
  ℕ, ◌+◌, ◌-◌, ◌≤◌, ◌<◌, ◌≡◌, ◌≢◌, ◌⊎◌, inl, inr, refl, sym, ◌∙◌, Bool, true, false, ◌==◌, arith,
  Bool-cases, ==_iff,
}
use mulle_fifo.Spsc.{Producer, Consumer, System}
use mulle_fifo.Client.Progress.{write_rank, read_rank_least}
use mulle_fifo.Threads.{Sender, Receiver, Chat, send_with}
use mulle_fifo.Threads.Invariant.{
  Party, the_sender, the_receiver, Acts, Stuck, sent_of, receiver_rank, taken, backlog, Advances,
}

pub receiver_rank_least :
    (empty : Bool) (c : Receiver) (left : ℕ) (s : Consumer)
    → receiver_rank false c left s ≤ receiver_rank empty c left s + 1
receiver_rank_least empty Receiver.choosing left s = omega arith
receiver_rank_least empty Receiver.reading left s = omega (arith, read_rank_least empty s)
receiver_rank_least empty Receiver.emptied left s = ground arith
receiver_rank_least empty (Receiver.received x) left s = omega arith
receiver_rank_least empty Receiver.closing left s = omega arith
receiver_rank_least empty Receiver.joining left s = omega arith
receiver_rank_least empty Receiver.finished left s = omega arith

module _ (last size : ℕ) {F Heap : Type 0} where
  pub sender_moves :
      (n : ℕ) (s : Chat F Heap)
      → Stuck last size the_sender s
      → (d : Party) → Acts d (send_with n)
      → Stuck last size d s
  sender_moves n s stuck the_sender a = stuck
  sender_moves n s stuck the_receiver a = absurd a

  -- Only the producer's state, with as many numbers sent.
  same_waiters :
      (s : Chat F Heap) (system : System F) (w : Sender)
      → sent_of w s.i ≡ sent_of s.sender s.i
      → w ≢ Sender.written
      → backlog s ≡ size
      → (d : Party) → Stuck last size d (record s { system = system; sender = w })
      → Stuck last size d s
  same_waiters s system w same on full the_sender h = inr full
  same_waiters s system w same on full the_receiver (inl c) = inl c
  same_waiters s system w same on full the_receiver (inr (inl (c, empty, more))) =
      inr (inl (c, omega (arith, same, empty), more))
  same_waiters s system w same on full the_receiver (inr (inr (c, e))) = absurd (on e)

  pub wake-Advances :
      (n : ℕ) (s : Chat F Heap)
      → s.sender ≡ Sender.choosing
      → s.system.producer ≡ Producer.outside
      → Advances last size (send_with n) s (record s { sender = Sender.writing })
  wake-Advances n s w outside = elim (Bool-cases (s.i - 1 - taken s == size)) [
    | inl full ↦
        let waits : backlog s ≡ size = rw w ((==_iff _ size).0 full) in
        inr (
          rw (w, outside, full) refl,
          sender_moves n s (inr waits),
          same_waiters s s.system Sender.writing (rw w refl) (λ e. cc e) waits,
        )
    | inr room ↦ inl (rw (w, outside, room) (omega arith))
  ]

  pub turned_away-Advances :
      (n : ℕ) (s : Chat F Heap)
      → s.sender ≡ Sender.refused
      → Advances last size (send_with n) s (record s { sender = Sender.choosing })
  turned_away-Advances n s w = elim (Bool-cases (s.i - 1 - taken s == size)) [
    | inl full ↦
        let waits : backlog s ≡ size = rw w ((==_iff _ size).0 full) in
        inr (
          rw (w, full) refl,
          sender_moves n s (inr waits),
          same_waiters s s.system Sender.choosing (rw w refl) (λ e. cc e) waits,
        )
    | inr room ↦ inl (rw (w, room) (omega arith))
  ]

  pub go_on-Advances :
      (n : ℕ) (s : Chat F Heap) (system : System F)
      → s.sender ≡ Sender.writing
      → system.consumer ≡ s.system.consumer
      → (write_rank (backlog s == size) system.producer
          < write_rank (backlog s == size) s.system.producer)
        ⊎ ((backlog s ≡ size)
            × (write_rank (backlog s == size) system.producer
                ≡ write_rank (backlog s == size) s.system.producer))
      → Advances last size (send_with n) s (record s { system = system })
  go_on-Advances n s system w same (inl less) = inl (rw (w, same) (omega (arith, (rw w at less))))
  go_on-Advances n s system w same (inr (full, equal)) = inr (
    rw (w, same, (rw w at equal)) refl,
    sender_moves n s (inr full),
    same_waiters s system s.sender refl (λ e. cc (sym w ∙ e)) full,
  )

  pub refused-Advances :
      (n : ℕ) (s : Chat F Heap) (system : System F)
      → s.sender ≡ Sender.writing
      → system.consumer ≡ s.system.consumer
      → backlog s ≡ size
      → write_rank true s.system.producer ≡ 7
      → Advances last size (send_with n) s (record s { system = system; sender = Sender.refused })
  refused-Advances n s system w same full seven = inr (
    rw (w, same, (==_iff _ size).1 (rw w at full), seven) refl,
    sender_moves n s (inr full),
    same_waiters s system Sender.refused (rw w refl) (λ e. cc e) full,
  )

  pub stored-Advances :
      (n : ℕ) (s : Chat F Heap) (system : System F)
      → s.sender ≡ Sender.writing
      → system.consumer ≡ s.system.consumer
      → s.i ≤ last
      → taken s < s.i
      → write_rank (backlog s == size) s.system.producer ≡ 1
      → Advances last size (send_with n) s (record s { system = system; sender = Sender.written })
  stored-Advances n s system w same below behind one =
      let some : (s.i - taken s == 0) ≡ false = ground (arith, behind) in
      let least =
        receiver_rank_least (s.i - 1 - taken s == 0) s.receiver (last - taken s)
          s.system.consumer in
      inl (rw (w, same, (rw w at one), some) (omega (arith, least, below)))

  -- After the test of `i`.
  pub tested-Advances :
      (n : ℕ) (s : Chat F Heap)
      → s.sender ≡ Sender.written
      → s.i ≤ last
      → Advances last size (send_with n) s (record s { sender = Sender.choosing; i = s.i + 1 })
        × Advances last size (send_with n) s (record s { sender = Sender.finished })
  tested-Advances n s w below =
      let shift : s.i + 1 - 1 ≡ s.i = omega arith in
      (inl (rw (w, shift) (omega (arith, below))), inl (rw w (omega (arith, below))))
