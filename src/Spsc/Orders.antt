-- ===== src/Spsc/Orders.antt =====
-- The two threads of Spsc where a thread may see an older value than the newest one: README.md says
-- that the atomic operations are relaxed, dox/API_POINTERFIFO.md that they publish what was written
-- before them. Each statement is that of Spsc, on the struct as its thread sees it.
pub mod Invariant
pub mod Writes
pub mod Reads
pub mod InOrder
pub mod Relaxed
pub mod Newest
use mulle_fifo.Common.{ℕ, ◌≡◌, List, [], ◌∷◌, ◌++◌, Result, ok, ◌>>=◌}
use mulle_fifo.Queue.Trace.{Event}
use mulle_fifo.Ring.{Ring}
use mulle_fifo.Spsc.{Producer, Consumer, System, producer_turn, consumer_turn, at_rest}

-- Whether to see the counter means to see what was stored before its increment.
pub data Order : Type 0 where
  publishing relaxed : Order

-- A struct with the counter or with the slots of another: what a thread sees of memory that both
-- threads use, and its own index.
pub record Sight (F : Type 0) : Type 0 where
  pub with_counter : F → F → F
  pub with_slots : F → F → F

-- The newest values, and the older ones that the threads see: the producer's view of the counter,
-- the consumer's of the counter and of the slots, and the state of the last increment.
pub record Views (F : Type 0) : Type 0 where
  pub system : System F
  pub full_seen : F
  pub count_seen : F
  pub slots_seen : F
  pub published : F

-- A statement of a thread, or a newer value reaches it.
pub data Turn : Type 0 where
  write_on : ℕ → Turn
  read_on : Turn
  see_full : Turn
  see_count : Turn
  see_slots : Turn

module _ {F : Type 0} (r : Ring F) (sight : Sight F) where
  -- The increment works on the newest counter, and publishes.
  unfoldable pub write_turn : ℕ → Producer → Views F → Result (List Event × Views F)
  write_turn x (Producer.testing y) v = do
    (es, p, f) ←
        producer_turn r x (Producer.testing y) (sight.with_counter v.system.fifo v.full_seen)
    ok (es, record v { system = record v.system { producer = p } })
  write_turn x (Producer.counting y) v = do
    (es, p, f) ← producer_turn r x (Producer.counting y) v.system.fifo
    ok (
      es,
      record v {
        system = record v.system { fifo = f; producer = p };
        full_seen = f;
        published = f;
      },
    )
  write_turn x s v = do
    (es, p, f) ← producer_turn r x s v.system.fifo
    ok (es, record v { system = record v.system { fifo = f; producer = p } })

module _ {F : Type 0} (r : Ring F) (sight : Sight F) (order : Order) where
  -- The slots that come with a newer view of the counter.
  abbrev pub acquire : Views F → F
  acquire v = elim order [ publishing ↦ v.published | relaxed ↦ v.slots_seen ]

  -- The decrement works on the newest counter.
  unfoldable pub read_turn : Consumer → Views F → Result (List Event × Views F)
  read_turn Consumer.testing v = do
    (es, c, f) ← consumer_turn r Consumer.testing (sight.with_counter v.system.fifo v.count_seen)
    ok (es, record v { system = record v.system { consumer = c } })
  read_turn Consumer.loading v = do
    (es, c, f) ← consumer_turn r Consumer.loading (sight.with_slots v.system.fifo v.slots_seen)
    ok (es, record v { system = record v.system { consumer = c } })
  read_turn (Consumer.counting y) v = do
    (es, c, f) ← consumer_turn r (Consumer.counting y) v.system.fifo
    ok (
      es,
      record v {
        system = record v.system { fifo = f; consumer = c };
        count_seen = f;
        slots_seen = acquire v;
      },
    )
  read_turn s v = do
    (es, c, f) ← consumer_turn r s v.system.fifo
    ok (es, record v { system = record v.system { fifo = f; consumer = c } })

  unfoldable pub view_turn : Turn → Views F → Result (List Event × Views F)
  view_turn (write_on x) v = write_turn r sight x v.system.producer v
  view_turn read_on v = read_turn v.system.consumer v
  view_turn see_full v = ok ([], record v { full_seen = v.system.fifo })
  view_turn see_count v = ok ([], record v { count_seen = v.system.fifo; slots_seen = acquire v })
  view_turn see_slots v = ok ([], record v { slots_seen = v.system.fifo })

  unfoldable pub view_run : List Turn → Views F → Result (List Event × Views F)
  view_run [] v = ok ([], v)
  view_run (t ∷ ts) v = do (es, v') ← view_turn t v; (fs, v'') ← view_run ts v'; ok (es ++ fs, v'')

-- Both threads in no call, and everything seen, as after `init`.
abbrev pub all_seen : {F : Type 0} → F → Views F
all_seen f = record {
  system = at_rest f;
  full_seen = f;
  count_seen = f;
  slots_seen = f;
  published = f;
}

-- What sight owes: the parts come from where they are seen, the read index is the thread's own.
pub record IsSight {F : Type 0} (r : Ring F) (sight : Sight F) (Good : F → Type 0) : Type 0 where
  pub counter_lem : (f g : F) → r.counter (sight.with_counter f g) ≡ r.counter g
  pub counter_good : (f g : F) → Good f → Good g → Good (sight.with_counter f g)
  pub slots_lem : (f g : F) (i : ℕ) → r.slot (sight.with_slots f g) i ≡ r.slot g i
  pub index_lem : (f g : F) → r.read_index (sight.with_slots f g) ≡ r.read_index f
  pub slots_good : (f g : F) → Good f → Good g → Good (sight.with_slots f g)
