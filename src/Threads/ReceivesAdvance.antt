-- ===== src/Threads/ReceivesAdvance.antt =====
-- What is left to do after a statement of the consumer of threads.c.
use mulle_fifo.Common.{
  ℕ, ◌+◌, ◌-◌, ◌≤◌, ◌<◌, ◌≡◌, ◌⊎◌, inl, inr, refl, length, Bool, true, false, ◌==◌, arith, ==_iff,
  Bool-cases, [], ◌∷◌, ◌++◌, length-append,
}
use mulle_fifo.Spsc.{Producer, System}
use mulle_fifo.Client.Progress.{read_rank, read_rank_cases, write_rank_least}
use mulle_fifo.Threads.{Sender, Receiver, Chat, receive_with}
use mulle_fifo.Threads.Invariant.{
  Party, the_sender, the_receiver, Acts, Stuck, sent_of, sender_rank, taken_of, taken, backlog,
  Advances, Awaits,
}

sender_rank_least :
    (full : Bool) (w : Sender) (left : ℕ) (p : Producer)
    → sender_rank false w left p ≤ sender_rank full w left p + 1
sender_rank_least full Sender.choosing left p = omega arith
sender_rank_least full Sender.writing left p = omega (arith, write_rank_least full p)
sender_rank_least full Sender.refused left p = ground arith
sender_rank_least full Sender.written left p = omega arith
sender_rank_least full Sender.finished left p = omega arith

module _ (last size : ℕ) {F Heap : Type 0} where
  abbrev Waits : Chat F Heap → Type 0
  Waits s = Awaits s.receiver × (backlog s ≡ 0) × (taken s < last)

  pub receiver_moves :
      (n : ℕ) (s : Chat F Heap)
      → Stuck last size the_receiver s
      → (d : Party) → Acts d (receive_with n)
      → Stuck last size d s
  receiver_moves n s stuck the_sender a = absurd a
  receiver_moves n s stuck the_receiver a = stuck

  -- Only the consumer's state, with as many numbers taken.
  same_waiters :
      (s : Chat F Heap) (system : System F) (c : Receiver)
      → taken_of c (length s.printed) ≡ taken s
      → Waits s
      → (d : Party) → Stuck last size d (record s { system = system; receiver = c })
      → Stuck last size d s
  same_waiters s system c same waits the_sender (inl e) = inl e
  same_waiters s system c same waits the_sender (inr full) = inr (omega (arith, same, full))
  same_waiters s system c same waits the_receiver h = inr (inl waits)

  pub wake-Advances :
      (n : ℕ) (s : Chat F Heap)
      → s.receiver ≡ Receiver.choosing
      → taken s < last
      → Advances last size (receive_with n) s (record s { receiver = Receiver.reading })
  wake-Advances n s c more =
      elim (read_rank_cases (sent_of s.sender s.i - length s.printed == 0) s.system.consumer) [
        | inl less ↦ inl (rw c (omega (arith, less)))
        | inr (empty, seven) ↦
            let waits : Waits s = (inl c, rw c ((==_iff _ 0).0 empty), more) in
            inr (
              rw (c, seven) refl,
              receiver_moves n s (inr (inl waits)),
              same_waiters s s.system Receiver.reading (rw c refl) waits,
            )
      ]

  pub go_on-Advances :
      (n : ℕ) (s : Chat F Heap) (system : System F)
      → s.receiver ≡ Receiver.reading
      → taken s < last
      → system.producer ≡ s.system.producer
      → (read_rank (backlog s == 0) system.consumer < read_rank (backlog s == 0) s.system.consumer)
        ⊎ ((backlog s ≡ 0)
            × (read_rank (backlog s == 0) system.consumer
                ≡ read_rank (backlog s == 0) s.system.consumer))
      → Advances last size (receive_with n) s (record s { system = system })
  go_on-Advances n s system c more same (inl less) =
      inl (rw (c, same) (omega (arith, (rw c at less))))
  go_on-Advances n s system c more same (inr (empty, equal)) =
      let waits : Waits s = (inr (inl c), empty, more) in
      inr (
        rw (c, same, (rw c at equal)) refl,
        receiver_moves n s (inr (inl waits)),
        same_waiters s system s.receiver refl waits,
      )

  pub again-Advances :
      (n : ℕ) (s : Chat F Heap) (system : System F)
      → s.receiver ≡ Receiver.reading
      → taken s < last
      → system.producer ≡ s.system.producer
      → backlog s ≡ 0
      → read_rank true s.system.consumer ≡ 7
      → Advances last size
          (receive_with n)
          s
          (record s { system = system; receiver = Receiver.emptied })
  again-Advances n s system c more same empty seven =
      let waits : Waits s = (inr (inl c), empty, more) in
      inr (
        rw (c, same, (==_iff _ 0).1 (rw c at empty), seven) refl,
        receiver_moves n s (inr (inl waits)),
        same_waiters s system Receiver.emptied (rw c refl) waits,
      )

  pub got-Advances :
      (n : ℕ) (s : Chat F Heap) (system : System F) (x : ℕ)
      → s.receiver ≡ Receiver.reading
      → taken s < last
      → system.producer ≡ s.system.producer
      → 0 < backlog s
      → backlog s ≤ size
      → read_rank (backlog s == 0) s.system.consumer ≡ 2
      → Advances last size
          (receive_with n)
          s
          (record s { system = system; receiver = Receiver.received x })
  got-Advances n s system x c more same some bound two =
      let below : length s.printed < last = rw c at more in
      let room : (sent_of s.sender s.i - (length s.printed + 1) == size) ≡ false =
        ground (arith, (rw c at some), (rw c at bound)) in
      let least =
        sender_rank_least (sent_of s.sender s.i - length s.printed == size) s.sender
          (last + 1 - s.i) s.system.producer in
      inl (rw (c, same, (rw c at two), room) (omega (arith, least, below)))

  pub turned_away-Advances :
      (n : ℕ) (s : Chat F Heap)
      → s.receiver ≡ Receiver.emptied
      → taken s < last
      → Advances last size (receive_with n) s (record s { receiver = Receiver.choosing })
  turned_away-Advances n s c more =
      elim (Bool-cases (sent_of s.sender s.i - length s.printed == 0)) [
        | inl empty ↦
            let waits : Waits s = (inr (inr c), rw c ((==_iff _ 0).0 empty), more) in
            inr (
              rw (c, empty) refl,
              receiver_moves n s (inr (inl waits)),
              same_waiters s s.system Receiver.choosing (rw c refl) waits,
            )
        | inr some ↦ inl (rw (c, some) (omega arith))
      ]

  -- After `printf` and the comparison.
  pub shown-Advances :
      (n : ℕ) (s : Chat F Heap) (x : ℕ)
      → s.receiver ≡ Receiver.received x
      → Advances last size
          (receive_with n)
          s
          (record s { receiver = Receiver.choosing; printed = s.printed ++ (x ∷ []) })
        × Advances last size
            (receive_with n)
            s
            (record s { receiver = Receiver.closing; printed = s.printed ++ (x ∷ []) })
  shown-Advances n s x c =
      let grown : length (s.printed ++ (x ∷ [])) ≡ length s.printed + 1 =
        length-append s.printed (x ∷ []) in
      (inl (rw (c, grown) (omega arith)), inl (rw (c, grown) (omega arith)))
