-- ===== src/Spsc/Orders/Reads.antt =====
-- The consumer's turns, and what it sees of the counter and of the slots, if the increment
-- publishes.
use mulle_fifo.Common.{
  ℕ, ◌%◌, ◌<◌, ◌≡◌, refl, ap, ◌∙◌, List, [], ◌∷◌, ok, ◌>>=◌, ◌≢◌, >>=-eq-ok, ◌==◌, length, arith,
  Bool-cases, inl, inr,
}
use native.Mathlib.Nat.{mod-lt}
use mulle_fifo.Queue.{Queue}
use mulle_fifo.Queue.Trace.{Event, got}
use mulle_fifo.Queue.Excuses.{Conforms-Allows}
use mulle_fifo.Ring.{Ring, IsRing}
use mulle_fifo.Spsc.{Producer, Consumer, consumer_turn}
use mulle_fifo.Spsc.ConsumerSteps.{Consumes, consumer_turn-Inv}
use mulle_fifo.Spsc.Orders.{publishing, Sight, IsSight, read_turn}
use mulle_fifo.Spsc.Orders.Invariant.{views, ViewInv, Follows, Aware, Sees-same, Sees-read}

module _ {F : Type 0} {r : Ring F} {size : ℕ} {Good : F → Type 0} (ring : IsRing r size Good)
    (above : 0 < size) {sight : Sight F} (law : IsSight r sight Good) where
  head_of : (q : Queue) → 0 < length q → (x : ℕ) × (rest : Queue) × (q ≡ x ∷ rest)
  head_of [] h = elim h [ ]
  head_of (x ∷ q) h = (x, q, refl)

  -- The test on a counter that may be too low: an empty FIFO may be seen where there is a pointer,
  -- and never a pointer where there is none.
  tests_seen :
      (f : F) (p : Producer) (a b s d : F) (q : Queue)
      → ViewInv r Good size (views f p Consumer.testing a b s d) q
      → Follows r Good size q
          (read_turn r sight publishing Consumer.testing (views f p Consumer.testing a b s d))
  unfolding read_turn consumer_turn
  tests_seen f p a b s d q i =
      let seen : r.counter (sight.with_counter f b) ≡ r.counter b = law.counter_lem f b in
      let count : r.get_count (sight.with_counter f b) ≡ r.counter b =
        ring.get_count_lem (sight.with_counter f b)
          (law.counter_good f b i.inv.holds.good i.sees.count_good)
          (omega (arith, seen, i.sees.count_high, i.inv.holds.bound))
        ∙ seen in
      elim (Bool-cases (r.counter b == 0)) [
        | inl empty ↦ record {
          events = got 0 ∷ [];
          after = views f p Consumer.outside a b s d;
          queue = q;
          returns = rw (count, empty) refl;
          allows = inr (refl, refl);
          view_inv = record {
            inv = record {
              start = i.inv.start;
              holds = i.inv.holds;
              no_null = i.inv.no_null;
              producing = i.inv.producing;
              consuming = tt;
            };
            sees = i.sees;
            aware = tt;
          };
        }
        | inr some ↦
            let more : 0 < r.counter b = ground (arith, some) in
            record {
              events = [];
              after = views f p Consumer.loading a b s d;
              queue = q;
              returns = rw (count, some) refl;
              allows = refl;
              view_inv = record {
                inv = record {
                  start = i.inv.start;
                  holds = i.inv.holds;
                  no_null = i.inv.no_null;
                  producing = i.inv.producing;
                  consuming = head_of q (omega (arith, more, i.sees.count_high));
                };
                sees = i.sees;
                aware = more;
              };
            }
      ]

  -- The load from slots that may be old finds the oldest pointer all the same.
  load_seen :
      (f : F) (p : Producer) (a b s d : F) (q : Queue)
      → ViewInv r Good size (views f p Consumer.loading a b s d) q
      → Follows r Good size q
          (read_turn r sight publishing Consumer.loading (views f p Consumer.loading a b s d))
  unfolding read_turn consumer_turn
  load_seen f p a b s d q i =
      let (x, rest, e) = i.inv.consuming in
      let own : r.read_index (sight.with_slots f s) ≡ i.inv.start % size =
        law.index_lem f s ∙ i.inv.holds.read_is in
      let loaded : r.load (sight.with_slots f s) ≡ ok x =
        ring.load_lem (sight.with_slots f s) (law.slots_good f s i.inv.holds.good i.sees.slots_good)
          (rw own (mod-lt i.inv.start above))
        ∙ ap ok (
            law.slots_lem f s _
            ∙ ap (r.slot s) (own ∙ ap (λ k. k % size) (omega arith))
            ∙ i.sees.slots_are 0 i.aware
            ∙ rw e refl) in
      record {
        events = [];
        after = views f p (Consumer.stepping x) a b s d;
        queue = q;
        returns = rw loaded refl;
        allows = refl;
        view_inv = record {
          inv = record {
            start = i.inv.start;
            holds = i.inv.holds;
            no_null = i.inv.no_null;
            producing = i.inv.producing;
            consuming = (rest, e);
          };
          sees = i.sees;
          aware = tt;
        };
      }

  -- Only the test leads to the load.
  calm :
      (c : Consumer) (f : F) (es : List Event) (c' : Consumer) (f' : F) (n : ℕ)
      → c ≢ Consumer.testing
      → consumer_turn r c f ≡ ok (es, c', f')
      → Aware n c'
  unfolding consumer_turn
  calm Consumer.outside f es c' f' n ne e = let next : Consumer.testing ≡ c' = cc in rw (← next) tt
  calm Consumer.testing f es c' f' n ne e = absurd (ne refl)
  calm Consumer.loading f es c' f' n ne e =
      let (x, _, e') = >>=-eq-ok (r.load f) _ e in
      let next : Consumer.stepping x ≡ c' = cc in rw (← next) tt
  calm (Consumer.stepping y) f es c' f' n ne e =
      let (_, _, e') = >>=-eq-ok (r.advance_read f) _ e in
      let next : Consumer.counting y ≡ c' = cc in rw (← next) tt
  calm (Consumer.counting y) f es c' f' n ne e =
      let next : Consumer.outside ≡ c' = cc in rw (← next) tt

  -- A turn that leaves the queue.
  keeps_queue :
      (f : F) (p : Producer) (c : Consumer) (a b s d : F) (q : Queue)
      (i : ViewInv r Good size (views f p c a b s d) q)
      (t : Consumes r Good size p c q i.inv.start (consumer_turn r c f))
      → c ≢ Consumer.testing
      → (t.inv.start ≡ i.inv.start) × (t.queue ≡ q)
      → Follows r Good size q
          (do (es, c', f') ← consumer_turn r c f; ok (es, views f' p c' a b s d))
  keeps_queue f p c a b s d q i t ne (still, same) = record {
    events = t.events;
    after = views t.fifo p t.next a b s d;
    queue = t.queue;
    returns = rw (t.returns) refl;
    allows = Conforms-Allows size q t.events t.queue t.conforms;
    view_inv = record {
      inv = t.inv;
      sees = Sees-same still same i.sees;
      aware = calm c f t.events t.next t.fifo (r.counter b) ne t.returns;
    };
  }

  pub read_turn-Follows :
      (f : F) (p : Producer) (c : Consumer) (a b s d : F) (q : Queue)
      → ViewInv r Good size (views f p c a b s d) q
      → Follows r Good size q (read_turn r sight publishing c (views f p c a b s d))
  unfolding read_turn
  read_turn-Follows f p Consumer.outside a b s d q i =
      let t = consumer_turn-Inv ring above f p Consumer.outside q i.inv in
      keeps_queue f p Consumer.outside a b s d q i t (λ e. cc e) t.shrinks
  read_turn-Follows f p Consumer.testing a b s d q i = tests_seen f p a b s d q i
  read_turn-Follows f p Consumer.loading a b s d q i = load_seen f p a b s d q i
  read_turn-Follows f p (Consumer.stepping y) a b s d q i =
      let t = consumer_turn-Inv ring above f p (Consumer.stepping y) q i.inv in
      keeps_queue f p (Consumer.stepping y) a b s d q i t (λ e. cc e) t.shrinks
  read_turn-Follows f p (Consumer.counting y) a b s d q i =
      let t = consumer_turn-Inv ring above f p (Consumer.counting y) q i.inv in
      record {
        events = t.events;
        after = views t.fifo p t.next a t.fifo d d;
        queue = t.queue;
        returns = rw (t.returns) refl;
        allows = Conforms-Allows size q t.events t.queue t.conforms;
        view_inv = record {
          inv = t.inv;
          sees = Sees-read y (t.shrinks.0) (t.shrinks.1) t.inv.holds i.sees;
          aware =
              calm (Consumer.counting y) f t.events t.next t.fifo (r.counter t.fifo) (λ e. cc e)
                t.returns;
        };
      }
