-- ===== src/Spsc/ConsumerSteps.antt =====
-- Every turn of the consumer does on the queue what its event says.
use mulle_fifo.Common.{
  ℕ, suc, ◌+◌, ◌%◌, ◌<◌, ◌≡◌, refl, sym, ap, ◌∙◌, List, [], ◌∷◌, Result, ok, length, arith,
  suc-==-zero,
}
use mulle_fifo.Queue.{Queue, dequeue}
use mulle_fifo.Queue.Trace.{Event, got, Conforms}
use mulle_fifo.Ring.{Ring, IsRing}
use mulle_fifo.Ring.Contents.{
  Holds-move, get_count-Holds, load-Holds, advance_read-Holds, decrement-Holds,
}
use mulle_fifo.Spsc.{Producer, Consumer, consumer_turn}
use mulle_fifo.Spsc.Invariant.{Producing-move, write_position, Inv}

-- The end of a read takes its pointer out, and no other turn changes the queue.
abbrev pub Shrinks : Consumer → ℕ → Queue → ℕ → Queue → Type 0
Shrinks (Consumer.counting x) start q start' q' = (start' ≡ start + 1) × (q ≡ x ∷ q')
Shrinks Consumer.outside start q start' q' = (start' ≡ start) × (q' ≡ q)
Shrinks _ start q start' q' = (start' ≡ start) × (q' ≡ q)

-- The turn is defined, and the queue explains its event and its outcome.
pub record Consumes {F : Type 0} (r : Ring F) (Good : F → Type 0) (size : ℕ) (p : Producer)
    (c : Consumer) (q : Queue) (start : ℕ) (out : Result (List Event × Consumer × F)) : Type 0 where
  pub events : List Event
  pub next : Consumer
  pub fifo : F
  pub queue : Queue
  pub returns : out ≡ ok (events, next, fifo)
  pub conforms : Conforms size q events queue
  pub inv : Inv r Good size fifo p next queue
  pub shrinks : Shrinks c start q inv.start queue

module _ {F : Type 0} {r : Ring F} {size : ℕ} {Good : F → Type 0} (ring : IsRing r size Good)
    (above : 0 < size) where
  tests :
      (f : F) (p : Producer) (q : Queue)
      → (i : Inv r Good size f p Consumer.testing q)
      → Consumes r Good size p Consumer.testing q i.start (consumer_turn r Consumer.testing f)
  unfolding consumer_turn dequeue
  tests f p [] i = record {
    events = got 0 ∷ [];
    next = Consumer.outside;
    fifo = f;
    queue = [];
    returns = rw (get_count-Holds ring above i.holds);
    conforms = (refl, refl);
    inv = record {
      start = i.start;
      holds = i.holds;
      no_null = i.no_null;
      producing = i.producing;
      consuming = tt;
    };
    shrinks = (refl, refl);
  }
  tests f p (x ∷ q) i = record {
    events = [];
    next = Consumer.loading;
    fifo = f;
    queue = x ∷ q;
    returns = rw (get_count-Holds ring above i.holds, suc-==-zero);
    conforms = refl;
    inv = record {
      start = i.start;
      holds = i.holds;
      no_null = i.no_null;
      producing = i.producing;
      consuming = (x, q, refl);
    };
    shrinks = (refl, refl);
  }

  loads :
      (f : F) (p : Producer) (q : Queue)
      → (i : Inv r Good size f p Consumer.loading q)
      → Consumes r Good size p Consumer.loading q i.start (consumer_turn r Consumer.loading f)
  unfolding consumer_turn
  loads f p q i =
      let (x, rest, e) = i.consuming in
      record {
        events = [];
        next = Consumer.stepping x;
        fifo = f;
        queue = q;
        returns = rw (load-Holds ring above (rw e at i.holds));
        conforms = refl;
        inv = record {
          start = i.start;
          holds = i.holds;
          no_null = i.no_null;
          producing = i.producing;
          consuming = (rest, e);
        };
        shrinks = (refl, refl);
      }

  steps :
      (f : F) (x : ℕ) (p : Producer) (q : Queue)
      → (i : Inv r Good size f p (Consumer.stepping x) q)
      → Consumes r Good size p
          (Consumer.stepping x)
          q
          i.start
          (consumer_turn r (Consumer.stepping x) f)
  unfolding consumer_turn
  steps f x p q i =
      let (f', e, h, same) = advance_read-Holds ring above _ i.holds in
      record {
        events = [];
        next = Consumer.counting x;
        fifo = f';
        queue = q;
        returns = rw e;
        conforms = refl;
        inv = record {
          start = i.start;
          holds = h;
          no_null = i.no_null;
          producing =
              Producing-move size (length q) (length q) _ _ p (omega arith) (same _) i.producing;
          consuming = i.consuming;
        };
        shrinks = (refl, refl);
      }

  counts :
      (f : F) (x : ℕ) (p : Producer) (q : Queue)
      → (i : Inv r Good size f p (Consumer.counting x) (x ∷ q))
      → Consumes r Good size p
          (Consumer.counting x)
          (x ∷ q)
          i.start
          (consumer_turn r (Consumer.counting x) f)
  unfolding consumer_turn dequeue
  counts f x p q i =
      let (h, same) = decrement-Holds ring above i.start x q i.holds in
      let shift : i.start + suc (length q) ≡ i.start + 1 + length q = omega arith in
      record {
        events = got x ∷ [];
        next = Consumer.outside;
        fifo = r.decrement f;
        queue = q;
        returns = refl;
        conforms = (refl, refl);
        inv = record {
          start = i.start + 1;
          holds =
              Holds-move ring above (write_position p (i.start + 1 + length q)) (i.start + 1)
                (ap (write_position p) shift) refl h;
          no_null = i.no_null.1;
          producing =
              Producing-move size (suc (length q)) (length q) _ _ p (omega arith)
                (same _ ∙ ap (λ k. r.slot f (k % size)) (sym shift)) i.producing;
          consuming = tt;
        };
        shrinks = (refl, refl);
      }

  pub consumer_turn-Inv :
      (f : F) (p : Producer) (c : Consumer) (q : Queue)
      → (i : Inv r Good size f p c q) → Consumes r Good size p c q i.start (consumer_turn r c f)
  unfolding consumer_turn
  consumer_turn-Inv f p Consumer.outside q i = record {
    events = [];
    next = Consumer.testing;
    fifo = f;
    queue = q;
    returns = refl;
    conforms = refl;
    inv = record {
      start = i.start;
      holds = i.holds;
      no_null = i.no_null;
      producing = i.producing;
      consuming = tt;
    };
    shrinks = (refl, refl);
  }
  consumer_turn-Inv f p Consumer.testing q i = tests f p q i
  consumer_turn-Inv f p Consumer.loading q i = loads f p q i
  consumer_turn-Inv f p (Consumer.stepping x) q i = steps f x p q i
  consumer_turn-Inv f p (Consumer.counting x) q i =
      let (rest, e) = i.consuming in rw e (counts f x p rest (rw e at i))
