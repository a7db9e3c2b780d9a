-- ===== src/Spsc.antt =====
-- One producer thread and one consumer thread on a FIFO, interleaved between any two accesses of
-- shared memory: the contract of dox/API_POINTERFIFO.md. The bodies of `write` and `read` in
-- src/mulle-pointerfifo.h and src/mulle--pointerfifo64.h are cut into their statements, each of
-- which makes one atomic access or changes one index that the other thread never looks at.
pub mod Invariant
pub mod ProducerSteps
pub mod ConsumerSteps
pub mod Linearizable
pub mod WaitFree
pub mod Whole
pub mod Promises
pub mod Crowd
pub mod Orders
use mulle_fifo.Common.{ℕ, ◌≡◌, List, [], ◌∷◌, ◌++◌, Result, ok, ◌>>=◌, ◌==◌, if◌then◌else◌}
use mulle_fifo.Queue.{stored_code, full_code, null_code}
use mulle_fifo.Queue.Trace.{Event, wrote, got, counted}
use mulle_fifo.Ring.{Ring}

-- Where the producer stands in `write( p, pointer)`.
pub data Producer : Type 0 where
  outside : Producer  -- in no call
  entering : ℕ → Producer  -- before `if( ! pointer)`
  testing : ℕ → Producer  -- before the test for a full FIFO
  storing : ℕ → Producer  -- before the store into the slot
  stepping : ℕ → Producer  -- before the new write index
  counting : ℕ → Producer  -- before the increment

-- Where the consumer stands in `read( p)`, with the pointer that it has loaded.
pub data Consumer : Type 0 where
  outside : Consumer  -- in no call
  testing : Consumer  -- before the test for an empty FIFO
  loading : Consumer  -- before the load from the slot
  stepping : ℕ → Consumer  -- before the new read index
  counting : ℕ → Consumer  -- before the decrement

pub record System (F : Type 0) : Type 0 where
  pub fifo : F
  pub producer : Producer
  pub consumer : Consumer

-- Whose turn it is. A producer in no call starts to write the given pointer; a third party only
-- asks for the count.
pub data Turn : Type 0 where
  produce : ℕ → Turn
  consume : Turn
  observe : Turn

module _ {F : Type 0} (r : Ring F) where
  -- The event is the call that the turn completes, with what it returns.
  unfoldable pub producer_turn : ℕ → Producer → F → Result (List Event × Producer × F)
  producer_turn x Producer.outside f = ok ([], Producer.entering x, f)
  producer_turn _ (Producer.entering x) f =
      if x == 0
      then ok (wrote x null_code ∷ [], Producer.outside, f)
      else ok ([], Producer.testing x, f)
  producer_turn _ (Producer.testing x) f =
      if r.is_full f
      then ok (wrote x full_code ∷ [], Producer.outside, f)
      else ok ([], Producer.storing x, f)
  producer_turn _ (Producer.storing x) f = do f' ← r.store x f; ok ([], Producer.stepping x, f')
  producer_turn _ (Producer.stepping x) f = do
    f' ← r.advance_write f
    ok ([], Producer.counting x, f')
  producer_turn _ (Producer.counting x) f =
      ok (wrote x stored_code ∷ [], Producer.outside, r.increment f)

  unfoldable pub consumer_turn : Consumer → F → Result (List Event × Consumer × F)
  consumer_turn Consumer.outside f = ok ([], Consumer.testing, f)
  consumer_turn Consumer.testing f =
      if r.get_count f == 0
      then ok (got 0 ∷ [], Consumer.outside, f)
      else ok ([], Consumer.loading, f)
  consumer_turn Consumer.loading f = do x ← r.load f; ok ([], Consumer.stepping x, f)
  consumer_turn (Consumer.stepping x) f = do f' ← r.advance_read f; ok ([], Consumer.counting x, f')
  consumer_turn (Consumer.counting x) f = ok (got x ∷ [], Consumer.outside, r.decrement f)

  unfoldable pub turn : Turn → System F → Result (List Event × System F)
  turn (produce x) s = do
    (es, p, f) ← producer_turn x s.producer s.fifo
    ok (es, record s { fifo = f; producer = p })
  turn consume s = do
    (es, c, f) ← consumer_turn s.consumer s.fifo
    ok (es, record s { fifo = f; consumer = c })
  turn observe s = ok (counted (r.get_count s.fifo) ∷ [], s)

  -- A schedule, with the calls that it completes in their order.
  unfoldable pub run : List Turn → System F → Result (List Event × System F)
  run [] s = ok ([], s)
  run (t ∷ ts) s = do (es, s') ← turn t s; (fs, s'') ← run ts s'; ok (es ++ fs, s'')

-- Both threads in no call.
abbrev pub at_rest : {F : Type 0} → F → System F
at_rest f = record { fifo = f; producer = Producer.outside; consumer = Consumer.outside }
