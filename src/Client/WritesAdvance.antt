-- ===== src/Client/WritesAdvance.antt =====
-- What is left to do after a statement of the producer.
use mulle_fifo.Common.{
  true, sym, false, ℕ, ◌+◌, ◌-◌, ◌<◌, ◌≡◌, ◌⊎◌, inl, inr, refl, ◌==◌, arith, ==_iff,
}
use mulle_fifo.Spsc.{System, Producer}
use mulle_fifo.Client.{Writer, Publication, Side, producer_side, consumer_side}
use mulle_fifo.Client.Progress.{
  pending, backlog, write_rank, write_rank_bound, one_more, reader_rank_least, Progress, Stuck,
}

module _ (size n_items stores looks : ℕ) {Item F : Type 0} where
  abbrev Advances : Publication Item F → Publication Item F → Type 0
  Advances = Progress size n_items stores looks producer_side

  pub start-Progress :
      (s : Publication Item F)
      → s.writer ≡ Writer.testing
      → s.i < n_items
      → Advances s (record s { writer = Writer.setting 0 })
  start-Progress s e more =
      inl (rw e (omega (arith, one_more (stores + 8) (n_items - s.i) (omega (arith, more)))))

  pub end-Progress :
      (s : Publication Item F)
      → s.writer ≡ Writer.testing
      → Advances s (record s { writer = Writer.finished })
  end-Progress s e = inl (rw e (omega arith))

  pub set-Progress :
      (s : Publication Item F) (memory : ℕ → Item) (j : ℕ)
      → s.writer ≡ Writer.setting j
      → j + 1 < stores
      → Advances s (record s { memory = memory; writer = Writer.setting (j + 1) })
  set-Progress s memory j e more = inl (rw e (omega (arith, more)))

  pub last_set-Progress :
      (s : Publication Item F) (memory : ℕ → Item) (j : ℕ)
      → s.writer ≡ Writer.setting j
      → j < stores
      → Advances s (record s { memory = memory; writer = Writer.writing })
  last_set-Progress s memory j e more =
      inl (rw e (omega (arith, more, write_rank_bound (backlog s == size) s.system.producer)))

  same_waiters :
      (s : Publication Item F) (system : System F) (d : Side)
      → Stuck size n_items stores looks d (record s { system = system })
      → Stuck size n_items stores looks d s
  same_waiters s system producer_side h = h
  same_waiters s system consumer_side h = h

  pub go_on-Progress :
      (s : Publication Item F) (system : System F)
      → s.writer ≡ Writer.writing
      → s.i < n_items
      → system.consumer ≡ s.system.consumer
      → (write_rank (backlog s == size) system.producer
          < write_rank (backlog s == size) s.system.producer)
        ⊎ ((backlog s ≡ size)
            × (write_rank (backlog s == size) system.producer
                ≡ write_rank (backlog s == size) s.system.producer))
      → Advances s (record s { system = system })
  go_on-Progress s system e more same (inl less) = inl (rw (e, same) (omega (arith, more, less)))
  go_on-Progress s system e more same (inr (full, equal)) =
      inr (inr full, rw (e, same, equal) refl, same_waiters s system)

  pub full-write_rank :
      (s : Publication Item F) (system : System F)
      → system.producer ≡ Producer.outside
      → backlog s ≡ size
      → write_rank true s.system.producer ≡ 7
      → write_rank (backlog s == size) system.producer
        ≡ write_rank (backlog s == size) s.system.producer
  full-write_rank s system out full seven = rw (out, (==_iff (backlog s) size).1 full) (sym seven)

  pub stored-Progress :
      (s : Publication Item F) (system : System F)
      → s.writer ≡ Writer.writing
      → s.i < n_items
      → system.consumer ≡ s.system.consumer
      → s.received + pending s.reader < s.i + 1
      → write_rank (backlog s == size) s.system.producer ≡ 1
      → Advances s (record s { system = system; writer = Writer.testing; i = s.i + 1 })
  stored-Progress s system e more same sent one = inl (
      rw (e, same, one, nonempty, less)
        (omega (
          arith,
          more,
          reader_rank_least looks (backlog s == 0) s.reader (n_items - s.received)
              s.system.consumer,
        )))
    where
      nonempty : (s.i + 1 - (s.received + pending s.reader) == 0) ≡ false
      nonempty = ground (arith, sent)

      less : n_items - (s.i + 1) ≡ n_items - s.i - 1
      less = omega arith
