-- ===== src/Spsc/Orders/Writes.antt =====
-- The producer's turns, and what it sees of the counter.
use mulle_fifo.Common.{
  ℕ, ◌<◌, ◌≡◌, refl, ap, ◌∙◌, [], ◌∷◌, ok, ◌>>=◌, ◌==◌, arith, Bool-cases, inl, inr,
}
use mulle_fifo.Queue.{Queue, full_code}
use mulle_fifo.Queue.Trace.{wrote}
use mulle_fifo.Queue.Excuses.{Conforms-Allows}
use mulle_fifo.Ring.{Ring, IsRing}
use mulle_fifo.Spsc.{Producer, Consumer, producer_turn}
use mulle_fifo.Spsc.ProducerSteps.{Produces, producer_turn-Inv}
use mulle_fifo.Spsc.Orders.{Sight, IsSight, write_turn}
use mulle_fifo.Spsc.Orders.Invariant.{views, ViewInv, Follows, Sees-same, Sees-write}

module _ {F : Type 0} {r : Ring F} {size : ℕ} {Good : F → Type 0} (ring : IsRing r size Good)
    (above : 0 < size) {sight : Sight F} (law : IsSight r sight Good) where
  -- The test on a counter that may be too high: a full FIFO may be seen where there is room, and
  -- never room where there is none.
  tests_seen :
      (x y : ℕ) (f : F) (c : Consumer) (a b s d : F) (q : Queue)
      → ViewInv r Good size (views f (Producer.testing y) c a b s d) q
      → Follows r Good size q
          (write_turn r sight x (Producer.testing y) (views f (Producer.testing y) c a b s d))
  unfolding write_turn producer_turn
  tests_seen x y f c a b s d q i =
      let seen : r.counter (sight.with_counter f a) ≡ r.counter a = law.counter_lem f a in
      let test : r.is_full (sight.with_counter f a) ≡ (r.counter a == size) =
        ring.is_full_lem (sight.with_counter f a)
          (law.counter_good f a i.inv.holds.good i.sees.full_good)
          (omega (arith, seen, i.sees.full_high))
        ∙ ap (λ k. k == size) seen in
      elim (Bool-cases (r.counter a == size)) [
        | inl full ↦ record {
          events = wrote y full_code ∷ [];
          after = views f Producer.outside c a b s d;
          queue = q;
          returns = rw (test, full) refl;
          allows = inr (refl, refl);
          view_inv = record {
            inv = record {
              start = i.inv.start;
              holds = i.inv.holds;
              no_null = i.inv.no_null;
              producing = tt;
              consuming = i.inv.consuming;
            };
            sees = i.sees;
            aware = i.aware;
          };
        }
        | inr room ↦ record {
          events = [];
          after = views f (Producer.storing y) c a b s d;
          queue = q;
          returns = rw (test, room) refl;
          allows = refl;
          view_inv = record {
            inv = record {
              start = i.inv.start;
              holds = i.inv.holds;
              no_null = i.inv.no_null;
              producing = (i.inv.producing, ground (arith, i.sees.full_low, i.sees.full_high));
              consuming = i.inv.consuming;
            };
            sees = i.sees;
            aware = i.aware;
          };
        }
      ]

  -- A turn that leaves the queue.
  keeps_queue :
      (x : ℕ) (f : F) (p : Producer) (c : Consumer) (a b s d : F) (q : Queue)
      (i : ViewInv r Good size (views f p c a b s d) q)
      (t : Produces r Good size p c q i.inv.start (producer_turn r x p f))
      → t.queue ≡ q
      → Follows r Good size q
          (do (es, p', f') ← producer_turn r x p f; ok (es, views f' p' c a b s d))
  keeps_queue x f p c a b s d q i t same = record {
    events = t.events;
    after = views t.fifo t.next c a b s d;
    queue = t.queue;
    returns = rw (t.returns) refl;
    allows = Conforms-Allows size q t.events t.queue t.conforms;
    view_inv = record { inv = t.inv; sees = Sees-same t.still same i.sees; aware = i.aware };
  }

  pub write_turn-Follows :
      (x : ℕ) (f : F) (p : Producer) (c : Consumer) (a b s d : F) (q : Queue)
      → ViewInv r Good size (views f p c a b s d) q
      → Follows r Good size q (write_turn r sight x p (views f p c a b s d))
  unfolding write_turn
  write_turn-Follows x f Producer.outside c a b s d q i =
      let t = producer_turn-Inv ring above x f Producer.outside c q i.inv in
      keeps_queue x f Producer.outside c a b s d q i t t.grows
  write_turn-Follows x f (Producer.entering y) c a b s d q i =
      let t = producer_turn-Inv ring above x f (Producer.entering y) c q i.inv in
      keeps_queue x f (Producer.entering y) c a b s d q i t t.grows
  write_turn-Follows x f (Producer.testing y) c a b s d q i = tests_seen x y f c a b s d q i
  write_turn-Follows x f (Producer.storing y) c a b s d q i =
      let t = producer_turn-Inv ring above x f (Producer.storing y) c q i.inv in
      keeps_queue x f (Producer.storing y) c a b s d q i t t.grows
  write_turn-Follows x f (Producer.stepping y) c a b s d q i =
      let t = producer_turn-Inv ring above x f (Producer.stepping y) c q i.inv in
      keeps_queue x f (Producer.stepping y) c a b s d q i t t.grows
  write_turn-Follows x f (Producer.counting y) c a b s d q i =
      let t = producer_turn-Inv ring above x f (Producer.counting y) c q i.inv in
      record {
        events = t.events;
        after = views t.fifo t.next c t.fifo b s t.fifo;
        queue = t.queue;
        returns = rw (t.returns) refl;
        allows = Conforms-Allows size q t.events t.queue t.conforms;
        view_inv = record {
          inv = t.inv;
          sees = Sees-write y t.still t.grows t.inv.holds i.sees;
          aware = i.aware;
        };
      }
