-- ===== src/Pointerfifo/Swap.antt =====
-- A statement of the producer and one of the consumer of a dynamic FIFO, in both orders.
use mathlib.Core.List.{append_assoc}
use mulle_fifo.Common.{
  Option, none, some, get_elem?, get_elem?-set_ne, ℕ, ◌≡◌, ◌≢◌, refl, List, ◌∷◌, ◌++◌, ok, ◌>>=◌,
  Result, arith,
}
use mulle_fifo.Platform.{Platform, Block}
use mulle_fifo.Spsc.{
  Producer, Consumer, System, Turn, produce, consume, run, turn, producer_turn, consumer_turn,
}
use mulle_fifo.Queue.Trace.{Event}
use mulle_fifo.Pointerfifo.{
  Pointerfifo, ring, store, load, advance_write, advance_read, increment, decrement, get_count,
  remainder,
}

-- What a turn of the producer and one of the consumer give, in that order.
abbrev pub producer_first :
    {Cell : Type 0}
    → Platform Cell
    → ℕ
    → Producer
    → Consumer
    → Pointerfifo Cell
    → Result (List Event × Producer × Consumer × Pointerfifo Cell)
producer_first pl x s c p = do
  (es, s', p') ← producer_turn (ring pl) x s p
  (fs, c', p'') ← consumer_turn (ring pl) c p'
  ok (es ++ fs, s', c', p'')

abbrev pub consumer_first :
    {Cell : Type 0}
    → Platform Cell
    → ℕ
    → Producer
    → Consumer
    → Pointerfifo Cell
    → Result (List Event × Producer × Consumer × Pointerfifo Cell)
consumer_first pl x s c p = do
  (fs, c', p') ← consumer_turn (ring pl) c p
  (es, s', p'') ← producer_turn (ring pl) x s p'
  ok (fs ++ es, s', c', p'')

-- The producer's next statement neither accesses the counter nor completes a call.
abbrev pub IsQuiet : Producer → Type 0
IsQuiet Producer.outside = Unit {0}
IsQuiet (Producer.entering x) = ⊥
IsQuiet (Producer.testing x) = ⊥
IsQuiet (Producer.storing x) = Unit {0}
IsQuiet (Producer.stepping x) = Unit {0}
IsQuiet (Producer.counting x) = ⊥

-- The same of the consumer's.
abbrev pub IsSilent : Consumer → Type 0
IsSilent Consumer.outside = Unit {0}
IsSilent Consumer.testing = ⊥
IsSilent Consumer.loading = Unit {0}
IsSilent (Consumer.stepping x) = Unit {0}
IsSilent (Consumer.counting x) = ⊥

module _ {Cell : Type 0} (pl : Platform Cell) where
  stepping_swaps :
      (x y : ℕ) (c : Consumer) (p : Pointerfifo Cell)
      → producer_first pl x (Producer.stepping y) c p
        ≡ consumer_first pl x (Producer.stepping y) c p
  unfolding producer_turn consumer_turn store load advance_write advance_read increment decrement
      get_count remainder
  stepping_swaps x y c p = grind arith

  outside_swaps :
      (x : ℕ) (c : Consumer) (p : Pointerfifo Cell)
      → producer_first pl x Producer.outside c p ≡ consumer_first pl x Producer.outside c p
  unfolding producer_turn consumer_turn store load advance_write advance_read increment decrement
      get_count remainder
  outside_swaps x c p = grind arith

  slot_swaps :
      (x y : ℕ) (p : Pointerfifo Cell) (b : Block Cell) (w r : Option Cell)
      → p.storage ≡ some b
      → get_elem? b.cells p.write ≡ w
      → get_elem? b.cells p.read ≡ r
      → p.write ≢ p.read
      → producer_first pl x (Producer.storing y) Consumer.loading p
        ≡ consumer_first pl x (Producer.storing y) Consumer.loading p
  unfolding producer_turn consumer_turn store load
  slot_swaps x y p b none none e d f a = rw (e, d, f) refl
  slot_swaps x y p b none (some c) e d f a = rw (e, d, f, d) refl
  slot_swaps x y p b (some c) none e d f a =
      rw (e, d, f, get_elem?-set_ne b.cells p.write p.read (pl.atomic_write y c) a, f) refl
  slot_swaps x y p b (some c) (some c') e d f a =
      rw (e, d, f, get_elem?-set_ne b.cells p.write p.read (pl.atomic_write y c) a, f, d) refl

  storage_swaps :
      (x y : ℕ) (p : Pointerfifo Cell) (o : Option (Block Cell))
      → p.storage ≡ o
      → p.write ≢ p.read
      → producer_first pl x (Producer.storing y) Consumer.loading p
        ≡ consumer_first pl x (Producer.storing y) Consumer.loading p
  unfolding producer_turn consumer_turn store load
  storage_swaps x y p none e a = rw e refl
  storage_swaps x y p (some b) e a = slot_swaps x y p b _ _ e refl refl a

  storing_swaps :
      (x y : ℕ) (c : Consumer) (p : Pointerfifo Cell)
      → (c ≡ Consumer.loading → p.write ≢ p.read)
      → producer_first pl x (Producer.storing y) c p ≡ consumer_first pl x (Producer.storing y) c p
  unfolding producer_turn consumer_turn store load advance_write advance_read increment decrement
      get_count remainder
  storing_swaps x y Consumer.outside p a = ground arith
  storing_swaps x y Consumer.testing p a = ground arith
  storing_swaps x y Consumer.loading p a = storage_swaps x y p p.storage refl (a refl)
  storing_swaps x y (Consumer.stepping z) p a = ground arith
  storing_swaps x y (Consumer.counting z) p a = ground arith

  reader_stepping_swaps :
      (x z : ℕ) (s : Producer) (p : Pointerfifo Cell)
      → producer_first pl x s (Consumer.stepping z) p
        ≡ consumer_first pl x s (Consumer.stepping z) p
  unfolding producer_turn consumer_turn store load advance_write advance_read increment decrement
      get_count remainder
  reader_stepping_swaps x z s p = grind arith

  loading_swaps :
      (x : ℕ) (s : Producer) (p : Pointerfifo Cell)
      → ((y : ℕ) → s ≡ Producer.storing y → p.write ≢ p.read)
      → producer_first pl x s Consumer.loading p ≡ consumer_first pl x s Consumer.loading p
  unfolding producer_turn consumer_turn store load advance_write advance_read increment decrement
      get_count remainder
  loading_swaps x Producer.outside p a = ground arith
  loading_swaps x (Producer.entering y) p a = ground arith
  loading_swaps x (Producer.testing y) p a = ground arith
  loading_swaps x (Producer.storing y) p a = storing_swaps x y Consumer.loading p (λ e. a y refl)
  loading_swaps x (Producer.stepping y) p a = ground arith
  loading_swaps x (Producer.counting y) p a = ground arith

  pub in_turn :
      (x : ℕ) (us : List Turn) (s : System (Pointerfifo Cell))
      → run (ring pl) (produce x ∷ consume ∷ us) s ≡ (do
        (es, w, c, f) ← producer_first pl x s.producer s.consumer s.fifo
        (fs, s') ← run (ring pl) us (record { fifo = f; producer = w; consumer = c })
        ok (es ++ fs, s'))
  unfolding run turn
  in_turn x us s = grind (arith, append_assoc {A = Event})

  pub in_other_turn :
      (x : ℕ) (us : List Turn) (s : System (Pointerfifo Cell))
      → run (ring pl) (consume ∷ produce x ∷ us) s ≡ (do
        (es, w, c, f) ← consumer_first pl x s.producer s.consumer s.fifo
        (fs, s') ← run (ring pl) us (record { fifo = f; producer = w; consumer = c })
        ok (es ++ fs, s'))
  unfolding run turn
  in_other_turn x us s = grind (arith, append_assoc {A = Event})

  reader_outside_swaps :
      (x : ℕ) (s : Producer) (p : Pointerfifo Cell)
      → producer_first pl x s Consumer.outside p ≡ consumer_first pl x s Consumer.outside p
  unfolding producer_turn consumer_turn store load advance_write advance_read increment decrement
      get_count remainder
  reader_outside_swaps x s p = grind arith

  pub quiet_swaps :
      (x : ℕ) (s : Producer) (c : Consumer) (p : Pointerfifo Cell)
      → IsQuiet s
      → ((y : ℕ) → s ≡ Producer.storing y → c ≡ Consumer.loading → p.write ≢ p.read)
      → producer_first pl x s c p ≡ consumer_first pl x s c p
  quiet_swaps x Producer.outside c p i a = outside_swaps x c p
  quiet_swaps x (Producer.entering y) c p i a = absurd i
  quiet_swaps x (Producer.testing y) c p i a = absurd i
  quiet_swaps x (Producer.storing y) c p i a = storing_swaps x y c p (a y refl)
  quiet_swaps x (Producer.stepping y) c p i a = stepping_swaps x y c p
  quiet_swaps x (Producer.counting y) c p i a = absurd i

  pub silent_swaps :
      (x : ℕ) (s : Producer) (c : Consumer) (p : Pointerfifo Cell)
      → IsSilent c
      → ((y : ℕ) → s ≡ Producer.storing y → c ≡ Consumer.loading → p.write ≢ p.read)
      → producer_first pl x s c p ≡ consumer_first pl x s c p
  silent_swaps x s Consumer.outside p i a = reader_outside_swaps x s p
  silent_swaps x s Consumer.testing p i a = absurd i
  silent_swaps x s Consumer.loading p i a = loading_swaps x s p (λ y e. a y e refl)
  silent_swaps x s (Consumer.stepping z) p i a = reader_stepping_swaps x z s p
  silent_swaps x s (Consumer.counting z) p i a = absurd i
