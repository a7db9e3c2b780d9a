-- ===== src/Spsc/Linearizable.antt =====
-- Every schedule is explained by an atomic queue.
use mulle_fifo.Common.{ℕ, ◌<◌, ◌≡◌, refl, List, [], ◌∷◌, ◌++◌, Result, ok, ◌>>=◌, length, ◌≤◌}
use mulle_fifo.Queue.{Queue}
use mulle_fifo.Queue.Trace.{Event, counted, Conforms, Conforms-append}
use mulle_fifo.Queue.Trace.{accepted, received, received-accepted}
use mulle_fifo.Ring.{Ring, IsRing}
use mulle_fifo.Ring.Contents.{get_count-Holds}
use mulle_fifo.Spsc.{
  Producer, Consumer, System, Turn, produce, consume, observe, turn, run, at_rest,
}
use mulle_fifo.Ring.Sequential.{Represents}
use mulle_fifo.Spsc.Invariant.{Inv, Inv-at_rest, Represents-Inv}
use mulle_fifo.Spsc.ProducerSteps.{producer_turn-Inv}
use mulle_fifo.Spsc.ConsumerSteps.{consumer_turn-Inv}

abbrev pub Stands : {F : Type 0} → Ring F → (F → Type 0) → ℕ → System F → Queue → Type 0
Stands r Good size s q = Inv r Good size s.fifo s.producer s.consumer q

-- What ran is defined, its calls return what the queue `q` returns, and the rest of the queue is
-- what the FIFO then stands for.
pub record Explained {F : Type 0} (r : Ring F) (Good : F → Type 0) (size : ℕ) (q : Queue)
    (out : Result (List Event × System F)) : Type 0 where
  pub events : List Event
  pub after : System F
  pub queue : Queue
  pub returns : out ≡ ok (events, after)
  pub conforms : Conforms size q events queue
  pub stands : Stands r Good size after queue

module _ {F : Type 0} {r : Ring F} {size : ℕ} {Good : F → Type 0} (ring : IsRing r size Good)
    (above : 0 < size) where
  pub turn-Explained :
      (t : Turn) (s : System F) (q : Queue)
      → Stands r Good size s q
      → Explained r Good size q (turn r t s)
  unfolding turn
  turn-Explained (produce x) s q i =
      let d = producer_turn-Inv ring above x s.fifo s.producer s.consumer q i in
      record {
        events = d.events;
        after = record s { fifo = d.fifo; producer = d.next };
        queue = d.queue;
        returns = rw (d.returns);
        conforms = d.conforms;
        stands = d.inv;
      }
  turn-Explained consume s q i =
      let d = consumer_turn-Inv ring above s.fifo s.producer s.consumer q i in
      record {
        events = d.events;
        after = record s { fifo = d.fifo; consumer = d.next };
        queue = d.queue;
        returns = rw (d.returns);
        conforms = d.conforms;
        stands = d.inv;
      }
  turn-Explained observe s q i = record {
    events = counted (r.get_count s.fifo) ∷ [];
    after = s;
    queue = q;
    returns = refl;
    conforms = (get_count-Holds ring above i.holds, refl);
    stands = i;
  }

  -- Whatever the schedule, no turn is undefined, every completed call returns what an atomic
  -- bounded queue returns, and the FIFO stands for what is left of that queue.
  pub run-Explained :
      (ts : List Turn) (s : System F) (q : Queue)
      → Stands r Good size s q
      → Explained r Good size q (run r ts s)
  unfolding run
  run-Explained [] s q i = record {
    events = [];
    after = s;
    queue = q;
    returns = refl;
    conforms = refl;
    stands = i;
  }
  run-Explained (t ∷ ts) s q i =
      let d = turn-Explained t s q i in
      let e = run-Explained ts d.after d.queue d.stands in
      record {
        events = d.events ++ e.events;
        after = e.after;
        queue = e.queue;
        returns = rw (d.returns, ◌>>=◌, e.returns);
        conforms = Conforms-append size q d.events d.queue e.events e.queue d.conforms e.conforms;
        stands = e.stands;
      }

-- The run is defined; the accepted pointers are those received, in the same order, and then those
-- still in the FIFO, of which there are at most `size`. If both threads have returned, the FIFO
-- holds just these.
pub record Delivers {F : Type 0} (r : Ring F) (Good : F → Type 0) (size : ℕ)
    (out : Result (List Event × System F)) : Type 0 where
  pub events : List Event
  pub after : System F
  pub left : Queue
  pub returns : out ≡ ok (events, after)
  pub in_order : accepted events ≡ received events ++ left
  pub bounded : length left ≤ size
  pub settled :
      after.producer ≡ Producer.outside
      → after.consumer ≡ Consumer.outside
      → Represents r Good size after.fifo left

module _ {F : Type 0} {r : Ring F} {size : ℕ} {Good : F → Type 0} (ring : IsRing r size Good)
    (above : 0 < size) where
  settle :
      (s : System F) (q : Queue)
      → Stands r Good size s q
      → s.producer ≡ Producer.outside
      → s.consumer ≡ Consumer.outside
      → Represents r Good size s.fifo q
  settle s q i p c = Represents-Inv (rw p at (rw c at i))

  pub run-Delivers :
      (ts : List Turn) (f : F)
      → Represents r Good size f []
      → Delivers r Good size (run r ts (at_rest f))
  run-Delivers ts f h =
      let e = run-Explained ring above ts (at_rest f) [] (Inv-at_rest h tt) in
      record {
        events = e.events;
        after = e.after;
        left = e.queue;
        returns = e.returns;
        in_order = received-accepted size [] e.events e.queue tt e.conforms;
        bounded = e.stands.holds.bound;
        settled = settle e.after e.queue e.stands;
      }
