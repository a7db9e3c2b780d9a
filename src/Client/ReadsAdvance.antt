-- ===== src/Client/ReadsAdvance.antt =====
-- What is left to do after a statement of the consumer.
use mulle_fifo.Common.{
  ℕ, ◌+◌, ◌-◌, ◌<◌, ◌≤◌, ◌≡◌, ◌⊎◌, inl, inr, refl, ◌==◌, arith, ==_iff, false, true,
}
use mulle_fifo.Spsc.{System}
use mulle_fifo.Client.{Reader, Publication, Side, producer_side, consumer_side}
use mulle_fifo.Client.Progress.{
  pending, backlog, read_rank, read_rank_cases, writer_rank_least, one_more, Progress, Stuck,
}

module _ (size n_items stores looks : ℕ) {Item F : Type 0} where
  abbrev Advances : Publication Item F → Publication Item F → Type 0
  Advances = Progress size n_items stores looks consumer_side

  abbrev Waits : Publication Item F → Type 0
  Waits s = (backlog s ≡ 0) × (pending s.reader ≡ 0) × (s.received < n_items)

  -- A consumer that waits changes nothing for the producer.
  same_waiters :
      (s : Publication Item F) (system : System F) (c : Reader)
      → Waits s
      → pending c ≡ pending s.reader
      → (d : Side) → Stuck size n_items stores looks d (record s { system = system; reader = c })
      → Stuck size n_items stores looks d s
  same_waiters s system c h p producer_side (inl w) = inl w
  same_waiters s system c h p producer_side (inr e) = inr (rw p at e)
  same_waiters s system c h p consumer_side e = inr h

  pub finish-Progress :
      (s : Publication Item F)
      → s.reader ≡ Reader.testing
      → Advances s (record s { reader = Reader.finished })
  finish-Progress s e = inl (rw e (omega arith))

  pub test-Progress :
      (s : Publication Item F)
      → s.reader ≡ Reader.testing
      → s.received < n_items
      → Advances s (record s { reader = Reader.reading })
  test-Progress s e more = elim (read_rank_cases (s.i - (s.received + 0) == 0) s.system.consumer) [
    | inl less ↦ inl (
        rw e
          (omega (arith, less, one_more (looks + 8) (n_items - s.received) (omega (arith, more)))))
    | inr (empty, seven) ↦
        let waits : Waits s = (rw e ((==_iff _ 0).0 empty), rw e refl, more) in
        inr (
          inr waits,
          rw (e, seven)
              (omega (arith, one_more (looks + 8) (n_items - s.received) (omega (arith, more)))),
          same_waiters s s.system Reader.reading waits (rw e refl),
        )
  ]

  pub look-Progress :
      (s : Publication Item F) (j x expect corrupt : ℕ)
      → s.reader ≡ Reader.comparing j x
      → j < looks
      → Advances s
          (record s { expect = expect; corrupt = corrupt; reader = Reader.comparing (j + 1) x })
  look-Progress s j x expect corrupt e more = inl (rw e (omega (arith, more)))

  pub last_look-Progress :
      (s : Publication Item F) (j x expect corrupt : ℕ)
      → s.reader ≡ Reader.comparing j x
      → j < looks
      → s.received < n_items
      → Advances s (record s {
        expect = expect;
        corrupt = corrupt;
        received = s.received + 1;
        reader = Reader.testing;
      })
  last_look-Progress s j x expect corrupt e below more =
      inl (rw (e, same, less) (omega (arith, below)))
    where
      same : s.i - (s.received + 1 + 0) ≡ s.i - (s.received + 1)
      same = omega arith

      less : n_items - (s.received + 1) ≡ n_items - s.received - 1
      less = omega arith

  pub go_on-Progress :
      (s : Publication Item F) (system : System F)
      → s.reader ≡ Reader.reading
      → s.received < n_items
      → system.producer ≡ s.system.producer
      → (read_rank (backlog s == 0) system.consumer < read_rank (backlog s == 0) s.system.consumer)
        ⊎ ((backlog s ≡ 0)
            × (read_rank (backlog s == 0) system.consumer
                ≡ read_rank (backlog s == 0) s.system.consumer))
      → Advances s (record s { system = system })
  go_on-Progress s system e more same (inl less) =
      inl (rw (e, same) (omega (arith, more, (rw e at less))))
  go_on-Progress s system e more same (inr (empty, equal)) =
      let waits : Waits s = (empty, rw e refl, more) in
      inr (inr waits, rw (e, same, (rw e at equal)) refl, same_waiters s system s.reader waits refl)

  pub again-Progress :
      (s : Publication Item F) (system : System F)
      → s.reader ≡ Reader.reading
      → s.received < n_items
      → system.producer ≡ s.system.producer
      → backlog s ≡ 0
      → read_rank true s.system.consumer ≡ 7
      → Advances s (record s { system = system; reader = Reader.testing })
  again-Progress s system e more same empty seven =
      let waits : Waits s = (empty, rw e refl, more) in
      inr (
        inr waits,
        rw (e, same, (==_iff _ 0).1 (rw e at empty), seven)
            (omega (arith, one_more (looks + 8) (n_items - s.received) (omega (arith, more)))),
        same_waiters s system Reader.testing waits (rw e refl),
      )

  pub took-Progress :
      (s : Publication Item F) (system : System F) (x : ℕ)
      → s.reader ≡ Reader.reading
      → s.received < n_items
      → system.producer ≡ s.system.producer
      → 0 < backlog s
      → backlog s ≤ size
      → read_rank (backlog s == 0) s.system.consumer ≡ 2
      → Advances s (record s { system = system; reader = Reader.comparing 0 x })
  took-Progress s system x e more same some bound two =
      let some' : 0 < s.i - (s.received + 0) = rw e at some in
      let bound' : s.i - (s.received + 0) ≤ size = rw e at bound in
      let room : (s.i - (s.received + 1) == size) ≡ false = ground (arith, some', bound') in
      inl (
        rw (e, same, (rw e at two), room)
          (omega (
            arith,
            more,
            writer_rank_least stores (s.i - (s.received + 0) == size) s.writer (n_items - s.i)
                s.system.producer,
          )))
