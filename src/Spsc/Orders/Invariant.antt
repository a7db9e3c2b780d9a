-- ===== src/Spsc/Orders/Invariant.antt =====
-- What the older values that the threads see have in common with the newest.
use mulle_fifo.Common.{
  ℕ, suc, ◌+◌, ◌%◌, ◌<◌, ◌≤◌, ◌≡◌, ap, ◌∙◌, List, [], ◌∷◌, ◌++◌, Result, ok, length, get_or, arith,
  length-append, get_or-append_left, sym,
}
use mulle_fifo.Queue.{Queue}
use mulle_fifo.Queue.Trace.{Event}
use mulle_fifo.Queue.Excuses.{Allows}
use mulle_fifo.Ring.{Ring}
use mulle_fifo.Ring.Contents.{Holds}
use mulle_fifo.Spsc.{Producer, Consumer}
use mulle_fifo.Spsc.Invariant.{Inv, Consuming}
use mulle_fifo.Spsc.Orders.{Views}

-- The parts of the views, to split on where a thread stands.
abbrev pub views : {F : Type 0} → F → Producer → Consumer → F → F → F → F → Views F
views f p c full_seen count_seen slots_seen published = record {
  system = record { fifo = f; producer = p; consumer = c };
  full_seen = full_seen;
  count_seen = count_seen;
  slots_seen = slots_seen;
  published = published;
}

-- In the slots of `f` stand the first `k` pointers of the queue.
abbrev pub Covers : {F : Type 0} → Ring F → ℕ → F → ℕ → Queue → ℕ → Type 0
Covers r size f start q k = (i : ℕ) → i < k → r.slot f ((start + i) % size) ≡ get_or q i 0

-- The producer sees at least as many pointers as there are, and the consumer at most; in the slots
-- that the consumer sees stand as many pointers as it sees counted.
pub record Sees {F : Type 0} (r : Ring F) (Good : F → Type 0) (size start : ℕ) (q : Queue)
    (full_seen count_seen slots_seen published : F) : Type 0 where
  pub full_good : Good full_seen
  pub full_low : length q ≤ r.counter full_seen
  pub full_high : r.counter full_seen ≤ size
  pub count_good : Good count_seen
  pub count_high : r.counter count_seen ≤ length q
  pub slots_good : Good slots_seen
  pub slots_are : Covers r size slots_seen start q (r.counter count_seen)
  pub published_good : Good published
  pub published_are : Covers r size published start q (length q)

-- Before it loads, the consumer has seen a pointer.
abbrev pub Aware : ℕ → Consumer → Type 0
Aware n Consumer.loading = 0 < n
Aware n Consumer.outside = Unit {0}
Aware n _ = Unit {0}

pub record ViewInv {F : Type 0} (r : Ring F) (Good : F → Type 0) (size : ℕ) (v : Views F)
    (q : Queue) : Type 0 where
  pub inv : Inv r Good size v.system.fifo v.system.producer v.system.consumer q
  pub sees : Sees r Good size inv.start q v.full_seen v.count_seen v.slots_seen v.published
  pub aware : Aware (r.counter v.count_seen) v.system.consumer

-- A turn is defined, the queue allows its events, and the invariant stays.
pub record Follows {F : Type 0} (r : Ring F) (Good : F → Type 0) (size : ℕ) (q : Queue)
    (out : Result (List Event × Views F)) : Type 0 where
  pub events : List Event
  pub after : Views F
  pub queue : Queue
  pub returns : out ≡ ok (events, after)
  pub allows : Allows size q events queue
  pub view_inv : ViewInv r Good size after queue

module _ {F : Type 0} {r : Ring F} {Good : F → Type 0} {size : ℕ} where
  pub Sees-same :
      {start start' : ℕ} {q q' : Queue} {a b c d : F}
      → start' ≡ start
      → q' ≡ q
      → Sees r Good size start q a b c d
      → Sees r Good size start' q' a b c d
  Sees-same e e' s = rw (e, e') s

  -- At the end of a write the producer sees the newest counter and publishes the slots.
  pub Sees-write :
      {start start' : ℕ} {q q' : Queue} {a b c d f : F} {w rd : ℕ} (x : ℕ)
      → start' ≡ start
      → q' ≡ q ++ (x ∷ [])
      → Holds r Good size f start' q' w rd
      → Sees r Good size start q a b c d
      → Sees r Good size start' q' f b c f
  Sees-write {start} {start'} {q} {q'} {c = c} {f = f} x e e' h s = record {
    full_good = h.good;
    full_low = omega (arith, h.counter_is);
    full_high = omega (arith, h.counter_is, h.bound);
    count_good = s.count_good;
    count_high = omega (arith, s.count_high, ap length e', length-append q (x ∷ []));
    slots_good = s.slots_good;
    slots_are = λ i lt.
        ap (λ k. r.slot c ((k + i) % size)) e
        ∙ s.slots_are i lt
        ∙ sym (
            ap (λ l. get_or l i 0) e'
            ∙ get_or-append_left q (x ∷ []) i 0 (omega (arith, lt, s.count_high)));
    published_good = h.good;
    published_are = h.slot_is;
  }

  -- At the end of a read the consumer sees the newest counter and the slots that were published.
  pub Sees-read :
      {start start' : ℕ} {q q' : Queue} {a b c d f : F} {w rd : ℕ} (x : ℕ)
      → start' ≡ start + 1
      → q ≡ x ∷ q'
      → Holds r Good size f start' q' w rd
      → Sees r Good size start q a b c d
      → Sees r Good size start' q' a f d d
  Sees-read {start} {start'} {q} {q'} {d = d} x e e' h s =
      let shorter : length q ≡ suc (length q') = ap length e' in
      let rest : Covers r size d start' q' (length q') = λ i lt.
        ap (λ k. r.slot d (k % size)) (omega (arith, e))
        ∙ s.published_are (suc i) (omega (arith, shorter, lt))
        ∙ ap (λ l. get_or l (suc i) 0) e' in
      record {
        full_good = s.full_good;
        full_low = omega (arith, s.full_low, shorter);
        full_high = s.full_high;
        count_good = h.good;
        count_high = omega (arith, h.counter_is);
        slots_good = s.published_good;
        slots_are = λ i lt. rest i (omega (arith, lt, h.counter_is));
        published_good = s.published_good;
        published_are = rest;
      }

  -- A newer value reaches a thread.
  pub Sees-full :
      {start : ℕ} {q : Queue} {a b c d f : F} {w rd : ℕ}
      → Holds r Good size f start q w rd
      → Sees r Good size start q a b c d
      → Sees r Good size start q f b c d
  Sees-full h s = record {
    full_good = h.good;
    full_low = omega (arith, h.counter_is);
    full_high = omega (arith, h.counter_is, h.bound);
    count_good = s.count_good;
    count_high = s.count_high;
    slots_good = s.slots_good;
    slots_are = s.slots_are;
    published_good = s.published_good;
    published_are = s.published_are;
  }

  pub Sees-count :
      {start : ℕ} {q : Queue} {a b c d f : F} {w rd : ℕ}
      → Holds r Good size f start q w rd
      → Sees r Good size start q a b c d
      → Sees r Good size start q a f d d
  Sees-count h s = record {
    full_good = s.full_good;
    full_low = s.full_low;
    full_high = s.full_high;
    count_good = h.good;
    count_high = omega (arith, h.counter_is);
    slots_good = s.published_good;
    slots_are = λ i lt. s.published_are i (omega (arith, lt, h.counter_is));
    published_good = s.published_good;
    published_are = s.published_are;
  }

  pub Sees-slots :
      {start : ℕ} {q : Queue} {a b c d f : F} {w rd : ℕ}
      → Holds r Good size f start q w rd
      → Sees r Good size start q a b c d
      → Sees r Good size start q a b f d
  Sees-slots h s = record {
    full_good = s.full_good;
    full_low = s.full_low;
    full_high = s.full_high;
    count_good = s.count_good;
    count_high = s.count_high;
    slots_good = h.good;
    slots_are = λ i lt. h.slot_is i (omega (arith, lt, s.count_high));
    published_good = s.published_good;
    published_are = s.published_are;
  }

-- With the newest counter a consumer that is to load has seen a pointer.
pub Aware-newest : (q : Queue) (n : ℕ) (c : Consumer) → n ≡ length q → Consuming q c → Aware n c
Aware-newest q n Consumer.outside e h = tt
Aware-newest q n Consumer.testing e h = tt
Aware-newest q n Consumer.loading e (x, rest, e') = omega (arith, e, ap length e')
Aware-newest q n (Consumer.stepping x) e h = tt
Aware-newest q n (Consumer.counting x) e h = tt
