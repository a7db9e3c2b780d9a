-- ===== src/Spsc/Promises.antt =====
-- What a thread may conclude from the count, and which slots the two threads touch.
use mulle_fifo.Common.{
  ℕ, ◌-◌, ◌%◌, ◌≤◌, ◌<◌, ◌≡◌, ◌≢◌, sym, ap, ◌∙◌, List, ok, length, arith, mod-ne_of_offsets,
}
use mulle_fifo.Queue.{Queue}
use mulle_fifo.Queue.Trace.{Event}
use mulle_fifo.Queue.Promises.{Yields, Accepts, Conforms-Yields, Conforms-Accepts}
use mulle_fifo.Ring.{Ring, IsRing}
use mulle_fifo.Ring.Contents.{get_count-Holds}
use mulle_fifo.Spsc.{Producer, Consumer, System, Turn, run}
use mulle_fifo.Spsc.Invariant.{Inv}
use mulle_fifo.Spsc.Linearizable.{Stands, run-Explained}

-- The schedule `ts` and then the schedule `ts'` are defined. If the count between them is `n`,
-- then among the calls that complete in `ts'` the first `n` reads return pointers and the first
-- `size - n` writes of pointers that are not NULL return 0.
pub record Promises {F : Type 0} (r : Ring F) (size : ℕ) (ts ts' : List Turn) (s : System F)
    : Type 0 where
  pub earlier : List Event
  pub now : System F
  pub runs : run r ts s ≡ ok (earlier, now)
  pub later : List Event
  pub after : System F
  pub runs_on : run r ts' now ≡ ok (later, after)
  pub bounded : r.get_count now.fifo ≤ size
  pub yields : Yields (r.get_count now.fifo) later
  pub accepts : Accepts (size - r.get_count now.fifo) later

-- The schedule is defined, and if then the producer is about to store into its slot and the
-- consumer about to load from its own, these are two slots.
pub record Apart {F : Type 0} (r : Ring F) (ts : List Turn) (s : System F) : Type 0 where
  pub events : List Event
  pub after : System F
  pub returns : run r ts s ≡ ok (events, after)
  pub apart :
      (x : ℕ)
      → after.producer ≡ Producer.storing x
      → after.consumer ≡ Consumer.loading
      → r.write_index after.fifo ≢ r.read_index after.fifo

module _ {F : Type 0} {r : Ring F} {size : ℕ} {Good : F → Type 0} (ring : IsRing r size Good)
    (above : 0 < size) where
  pub run-Promises :
      (ts ts' : List Turn) (s : System F) (q : Queue)
      → Stands r Good size s q
      → Promises r size ts ts' s
  run-Promises ts ts' s q i =
      let e = run-Explained ring above ts s q i in
      let e' = run-Explained ring above ts' e.after e.queue e.stands in
      let n = get_count-Holds ring above e.stands.holds in
      record {
        earlier = e.events;
        now = e.after;
        runs = e.returns;
        later = e'.events;
        after = e'.after;
        runs_on = e'.returns;
        bounded = omega (arith, n, e.stands.holds.bound);
        yields =
            Conforms-Yields size _ e.queue e'.events e'.queue e.stands.no_null (omega (arith, n))
              e'.conforms;
        accepts =
            Conforms-Accepts size _ e.queue e'.events e'.queue
              (omega (arith, n, e.stands.holds.bound)) e'.conforms;
      }

  indices_apart :
      (f : F) (x : ℕ) (q : Queue)
      → Inv r Good size f (Producer.storing x) Consumer.loading q
      → r.write_index f ≢ r.read_index f
  indices_apart f x q i e =
      let (y, rest, some) = i.consuming in
      mod-ne_of_offsets i.start 0 (length q) size (omega (arith, ap length some)) (i.producing.1)
        (ap (λ k. k % size) (omega arith) ∙ sym (i.holds.read_is) ∙ sym e ∙ i.holds.write_is)

  pub run-Apart :
      (ts : List Turn) (s : System F) (q : Queue) → Stands r Good size s q → Apart r ts s
  run-Apart ts s q i =
      let e = run-Explained ring above ts s q i in
      record {
        events = e.events;
        after = e.after;
        returns = e.returns;
        apart = λ x p c. indices_apart e.after.fifo x e.queue (rw p at (rw c at e.stands));
      }
