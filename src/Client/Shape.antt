-- ===== src/Client/Shape.antt =====
-- The events that a turn of a call can have, and what they say of the queue.
use mulle_fifo.Common.{true, ◌<◌, ◌==◌, length, ℕ, ◌≡◌, ◌≢◌, ◌⊎◌, List, [], ◌∷◌, ◌++◌, ok, arith}
use mulle_fifo.Queue.{Queue, stored_code, full_code, enqueue, dequeue}
use mulle_fifo.Queue.Trace.{Event, wrote, got, Conforms, HasNoNull}
use mulle_fifo.Spsc.Invariant.{Producing, Consuming}
use mulle_fifo.Client.Progress.{write_rank, read_rank}
use mulle_fifo.Ring.{Ring}
use mulle_fifo.Spsc.{Producer, Consumer, producer_turn, consumer_turn}

-- A call that is under way writes `x`.
abbrev pub Carries : ℕ → Producer → Type 0
Carries x Producer.outside = Unit {0}
Carries x (Producer.entering y) = y ≡ x
Carries x (Producer.testing y) = y ≡ x
Carries x (Producer.storing y) = y ≡ x
Carries x (Producer.stepping y) = y ≡ x
Carries x (Producer.counting y) = y ≡ x

abbrev pub WriteOutcome : ℕ → ℕ → Queue → List Event → Producer → Producer → Queue → Type 0
WriteOutcome size x q es p p' q' =
    ((es ≡ [])
      × (q' ≡ q)
      × Carries x p'
      × ((write_rank (length q == size) p' < write_rank (length q == size) p)
          ⊎ ((length q ≡ size)
              × (write_rank (length q == size) p' ≡ write_rank (length q == size) p))))
    ⊎ (((es ≡ wrote x full_code ∷ [])
          × (q' ≡ q)
          × (p' ≡ Producer.outside)
          × (length q ≡ size)
          × (write_rank true p ≡ 7))
        ⊎ ((es ≡ wrote x stored_code ∷ [])
            × (q' ≡ q ++ (x ∷ []))
            × (p' ≡ Producer.outside)
            × (write_rank (length q == size) p ≡ 1)))

abbrev pub ReadOutcome : Queue → List Event → Consumer → Consumer → Queue → Type 0
ReadOutcome q es c c' q' =
    ((es ≡ [])
      × (q' ≡ q)
      × ((read_rank (length q == 0) c' < read_rank (length q == 0) c)
          ⊎ ((q ≡ []) × (read_rank (length q == 0) c' ≡ read_rank (length q == 0) c))))
    ⊎ (((es ≡ got 0 ∷ []) × (q' ≡ q) × (q ≡ []) × (c' ≡ Consumer.outside) × (read_rank true c ≡ 7))
        ⊎ ((x : ℕ) × (es ≡ got x ∷ [])
            × (x ≢ 0)
            × (q ≡ x ∷ q')
            × (read_rank (length q == 0) c ≡ 2)))

module _ {F : Type 0} (r : Ring F) (size : ℕ) where
  pub write_outcome :
      (x : ℕ) (p : Producer) (f : F) (q : Queue) (es : List Event) (p' : Producer) (f' : F)
      (q' : Queue) (v : ℕ)
      → x ≢ 0
      → Carries x p
      → producer_turn r x p f ≡ ok (es, p', f')
      → Conforms size q es q'
      → Producing size (length q') v p'
      → WriteOutcome size x q es p p' q'
  unfolding producer_turn enqueue
  write_outcome x Producer.outside f q es p' f' q' v n c e h k = ground arith
  write_outcome x (Producer.entering y) f q es p' f' q' v n c e h k = ground arith
  write_outcome x (Producer.testing y) f q es p' f' q' v n c e h k = ground arith
  write_outcome x (Producer.storing y) f q es p' f' q' v n c e h k = ground arith
  write_outcome x (Producer.stepping y) f q es p' f' q' v n c e h k = ground arith
  write_outcome x (Producer.counting y) f q es p' f' q' v n c e h k = ground arith

  pub read_outcome :
      (c : Consumer) (f : F) (q : Queue) (es : List Event) (c' : Consumer) (f' : F) (q' : Queue)
      → HasNoNull q
      → Consuming q c
      → consumer_turn r c f ≡ ok (es, c', f')
      → Conforms size q es q'
      → Consuming q' c'
      → ReadOutcome q es c c' q'
  unfolding consumer_turn dequeue
  read_outcome Consumer.outside f q es c' f' q' n g e h k = ground arith
  read_outcome Consumer.testing f [] es c' f' q' n g e h k = ground arith
  read_outcome Consumer.testing f (y ∷ q) es c' f' q' n g e h k = ground arith
  read_outcome Consumer.loading f q es c' f' q' n g e h k = ground arith
  read_outcome (Consumer.stepping x) f q es c' f' q' n g e h k = ground arith
  read_outcome (Consumer.counting x) f [] es c' f' q' n (rest, g) e h k = ground (arith, g)
  read_outcome (Consumer.counting x) f (y ∷ q) es c' f' q' n g e h k = ground arith
