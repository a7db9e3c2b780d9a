-- ===== src/Spsc/ProducerSteps.antt =====
-- Every turn of the producer does on the queue what its event says.
use mulle_fifo.Common.{
  ℕ, ◌+◌, ◌<◌, ◌≡◌, refl, ◌∙◌, List, [], ◌∷◌, ◌++◌, Result, ok, ◌==◌, length, arith, length-append,
  Bool-cases, inl, inr, ==_iff,
}
use mulle_fifo.Queue.{Queue, stored_code, full_code, null_code, enqueue}
use mulle_fifo.Queue.Trace.{Event, wrote, Conforms, HasNoNull-append}
use mulle_fifo.Ring.{Ring, IsRing}
use mulle_fifo.Ring.Contents.{
  Holds-move, is_full-Holds, store-Holds, advance_write-Holds, increment-Holds,
}
use mulle_fifo.Spsc.{Producer, Consumer, producer_turn}
use mulle_fifo.Spsc.Invariant.{Consuming-append, read_position, Inv}

-- The end of a write appends its pointer, and no other turn changes the queue.
abbrev pub Grows : Producer → Queue → Queue → Type 0
Grows (Producer.counting x) q q' = q' ≡ q ++ (x ∷ [])
Grows Producer.outside q q' = q' ≡ q
Grows _ q q' = q' ≡ q

-- The turn is defined, and the queue explains its event and its outcome.
pub record Produces {F : Type 0} (r : Ring F) (Good : F → Type 0) (size : ℕ) (p : Producer)
    (c : Consumer) (q : Queue) (start : ℕ) (out : Result (List Event × Producer × F)) : Type 0 where
  pub events : List Event
  pub next : Producer
  pub fifo : F
  pub queue : Queue
  pub returns : out ≡ ok (events, next, fifo)
  pub conforms : Conforms size q events queue
  pub inv : Inv r Good size fifo next c queue
  pub still : inv.start ≡ start
  pub grows : Grows p q queue

module _ {F : Type 0} {r : Ring F} {size : ℕ} {Good : F → Type 0} (ring : IsRing r size Good)
    (above : 0 < size) where
  enters :
      (f : F) (x : ℕ) (c : Consumer) (q : Queue)
      → (i : Inv r Good size f (Producer.entering x) c q)
      → Produces r Good size
          (Producer.entering x)
          c
          q
          i.start
          (producer_turn r 0 (Producer.entering x) f)
  unfolding producer_turn enqueue
  enters f x c q i = elim (Bool-cases (x == 0)) [
    | inl null ↦ record {
      events = wrote x null_code ∷ [];
      next = Producer.outside;
      fifo = f;
      queue = q;
      returns = rw null;
      conforms = rw null (refl, refl);
      inv = record {
        start = i.start;
        holds = i.holds;
        no_null = i.no_null;
        producing = tt;
        consuming = i.consuming;
      };
      still = refl;
      grows = refl;
    }
    | inr pointer ↦ record {
      events = [];
      next = Producer.testing x;
      fifo = f;
      queue = q;
      returns = rw pointer;
      conforms = refl;
      inv = record {
        start = i.start;
        holds = i.holds;
        no_null = i.no_null;
        producing = λ e. cc (pointer, (==_iff x 0).1 e);
        consuming = i.consuming;
      };
      still = refl;
      grows = refl;
    }
  ]

  tests :
      (f : F) (x : ℕ) (c : Consumer) (q : Queue)
      → (i : Inv r Good size f (Producer.testing x) c q)
      → Produces r Good size
          (Producer.testing x)
          c
          q
          i.start
          (producer_turn r 0 (Producer.testing x) f)
  unfolding producer_turn enqueue
  tests f x c q i = elim (Bool-cases (length q == size)) [
    | inl full ↦ record {
      events = wrote x full_code ∷ [];
      next = Producer.outside;
      fifo = f;
      queue = q;
      returns = rw (is_full-Holds ring above i.holds, full);
      conforms = ground (arith, i.producing);
      inv = record {
        start = i.start;
        holds = i.holds;
        no_null = i.no_null;
        producing = tt;
        consuming = i.consuming;
      };
      still = refl;
      grows = refl;
    }
    | inr room ↦ record {
      events = [];
      next = Producer.storing x;
      fifo = f;
      queue = q;
      returns = rw (is_full-Holds ring above i.holds, room);
      conforms = refl;
      inv = record {
        start = i.start;
        holds = i.holds;
        no_null = i.no_null;
        producing = (i.producing, ground (arith, i.holds.bound));
        consuming = i.consuming;
      };
      still = refl;
      grows = refl;
    }
  ]

  stores :
      (f : F) (x : ℕ) (c : Consumer) (q : Queue)
      → (i : Inv r Good size f (Producer.storing x) c q)
      → Produces r Good size
          (Producer.storing x)
          c
          q
          i.start
          (producer_turn r 0 (Producer.storing x) f)
  unfolding producer_turn
  stores f x c q i =
      let (f', e, h, v) = store-Holds ring above x i.start q _ i.holds i.producing.1 in
      record {
        events = [];
        next = Producer.stepping x;
        fifo = f';
        queue = q;
        returns = rw e;
        conforms = refl;
        inv = record {
          start = i.start;
          holds = h;
          no_null = i.no_null;
          producing = (i.producing.0, i.producing.1, v);
          consuming = i.consuming;
        };
        still = refl;
        grows = refl;
      }

  steps :
      (f : F) (x : ℕ) (c : Consumer) (q : Queue)
      → (i : Inv r Good size f (Producer.stepping x) c q)
      → Produces r Good size
          (Producer.stepping x)
          c
          q
          i.start
          (producer_turn r 0 (Producer.stepping x) f)
  unfolding producer_turn
  steps f x c q i =
      let (f', e, h, same) = advance_write-Holds ring above _ i.holds in
      record {
        events = [];
        next = Producer.counting x;
        fifo = f';
        queue = q;
        returns = rw e;
        conforms = refl;
        inv = record {
          start = i.start;
          holds = h;
          no_null = i.no_null;
          producing = (i.producing.0, i.producing.1, same _ ∙ i.producing.2);
          consuming = i.consuming;
        };
        still = refl;
        grows = refl;
      }

  counts :
      (f : F) (x : ℕ) (c : Consumer) (q : Queue)
      → (i : Inv r Good size f (Producer.counting x) c q)
      → Produces r Good size
          (Producer.counting x)
          c
          q
          i.start
          (producer_turn r 0 (Producer.counting x) f)
  unfolding producer_turn enqueue
  counts f x c q i = record {
    events = wrote x stored_code ∷ [];
    next = Producer.outside;
    fifo = r.increment f;
    queue = q ++ (x ∷ []);
    returns = refl;
    conforms = ground (arith, i.producing);
    inv = record {
      start = i.start;
      holds =
          Holds-move ring above (i.start + length (q ++ (x ∷ []))) (read_position c i.start)
            (omega (arith, length-append q (x ∷ []))) refl
            (increment-Holds ring above i.start q x i.holds i.producing.1 i.producing.2);
      no_null = HasNoNull-append q x i.no_null i.producing.0;
      producing = tt;
      consuming = Consuming-append q x c i.consuming;
    };
    still = refl;
    grows = refl;
  }

  pub producer_turn-Inv :
      (x : ℕ) (f : F) (p : Producer) (c : Consumer) (q : Queue)
      → (i : Inv r Good size f p c q) → Produces r Good size p c q i.start (producer_turn r x p f)
  unfolding producer_turn
  producer_turn-Inv x f Producer.outside c q i = record {
    events = [];
    next = Producer.entering x;
    fifo = f;
    queue = q;
    returns = refl;
    conforms = refl;
    inv = record {
      start = i.start;
      holds = i.holds;
      no_null = i.no_null;
      producing = tt;
      consuming = i.consuming;
    };
    still = refl;
    grows = refl;
  }
  producer_turn-Inv _ f (Producer.entering x) c q i = enters f x c q i
  producer_turn-Inv _ f (Producer.testing x) c q i = tests f x c q i
  producer_turn-Inv _ f (Producer.storing x) c q i = stores f x c q i
  producer_turn-Inv _ f (Producer.stepping x) c q i = steps f x c q i
  producer_turn-Inv _ f (Producer.counting x) c q i = counts f x c q i
