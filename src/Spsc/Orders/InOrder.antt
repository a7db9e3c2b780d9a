-- ===== src/Spsc/Orders/InOrder.antt =====
-- If the increment publishes, the pointers keep their order whatever the threads see.
use mulle_fifo.Common.{
  ℕ, ◌<◌, ◌≤◌, ◌≡◌, refl, List, [], ◌∷◌, ◌++◌, Result, ok, ◌>>=◌, length, arith,
}
use mulle_fifo.Queue.{Queue}
use mulle_fifo.Queue.Trace.{Event, accepted, received}
use mulle_fifo.Queue.Excuses.{Allows-append, received-accepted_excused}
use mulle_fifo.Ring.{Ring, IsRing}
use mulle_fifo.Ring.Sequential.{Represents}
use mulle_fifo.Spsc.{Producer, Consumer}
use mulle_fifo.Spsc.Invariant.{Inv-at_rest, Represents-Inv}
use mulle_fifo.Spsc.Orders.{
  publishing, Sight, IsSight, Views, Turn, write_on, read_on, see_full, see_count, see_slots,
  view_turn, view_run, all_seen,
}
use mulle_fifo.Spsc.Orders.Invariant.{
  ViewInv, Follows, Sees-full, Sees-count, Sees-slots, Aware-newest,
}
use mulle_fifo.Spsc.Orders.Writes.{write_turn-Follows}
use mulle_fifo.Spsc.Orders.Reads.{read_turn-Follows}

-- The run is defined; the accepted pointers are those received, in the same order, and then those
-- still in the FIFO, of which there are at most `size`. If both threads have returned, the FIFO
-- holds just these, and what either thread sees of the counter errs on the side of a failed call.
pub record KeepsOrder {F : Type 0} (r : Ring F) (Good : F → Type 0) (size : ℕ)
    (out : Result (List Event × Views F)) : Type 0 where
  pub events : List Event
  pub after : Views F
  pub left : Queue
  pub returns : out ≡ ok (events, after)
  pub in_order : accepted events ≡ received events ++ left
  pub bounded : length left ≤ size
  pub seen_full : length left ≤ r.counter after.full_seen
  pub seen_empty : r.counter after.count_seen ≤ length left
  pub settled :
      after.system.producer ≡ Producer.outside
      → after.system.consumer ≡ Consumer.outside
      → Represents r Good size after.system.fifo left

module _ {F : Type 0} {r : Ring F} {size : ℕ} {Good : F → Type 0} (ring : IsRing r size Good)
    (above : 0 < size) {sight : Sight F} (law : IsSight r sight Good) where
  view_turn-Follows :
      (t : Turn) (v : Views F) (q : Queue)
      → ViewInv r Good size v q
      → Follows r Good size q (view_turn r sight publishing t v)
  unfolding view_turn
  view_turn-Follows (write_on x) v q i =
      write_turn-Follows ring above law x v.system.fifo v.system.producer v.system.consumer
        v.full_seen v.count_seen v.slots_seen v.published q i
  view_turn-Follows read_on v q i =
      read_turn-Follows ring above law v.system.fifo v.system.producer v.system.consumer v.full_seen
        v.count_seen v.slots_seen v.published q i
  view_turn-Follows see_full v q i = record {
    events = [];
    after = record v { full_seen = v.system.fifo };
    queue = q;
    returns = refl;
    allows = refl;
    view_inv = record { inv = i.inv; sees = Sees-full i.inv.holds i.sees; aware = i.aware };
  }
  view_turn-Follows see_count v q i = record {
    events = [];
    after = record v { count_seen = v.system.fifo; slots_seen = v.published };
    queue = q;
    returns = refl;
    allows = refl;
    view_inv = record {
      inv = i.inv;
      sees = Sees-count i.inv.holds i.sees;
      aware =
          Aware-newest q (r.counter v.system.fifo) v.system.consumer i.inv.holds.counter_is
            i.inv.consuming;
    };
  }
  view_turn-Follows see_slots v q i = record {
    events = [];
    after = record v { slots_seen = v.system.fifo };
    queue = q;
    returns = refl;
    allows = refl;
    view_inv = record { inv = i.inv; sees = Sees-slots i.inv.holds i.sees; aware = i.aware };
  }

  view_run-Follows :
      (ts : List Turn) (v : Views F) (q : Queue)
      → ViewInv r Good size v q
      → Follows r Good size q (view_run r sight publishing ts v)
  unfolding view_run
  view_run-Follows [] v q i = record {
    events = [];
    after = v;
    queue = q;
    returns = refl;
    allows = refl;
    view_inv = i;
  }
  view_run-Follows (t ∷ ts) v q i =
      let d = view_turn-Follows t v q i in
      let e = view_run-Follows ts d.after d.queue d.view_inv in
      record {
        events = d.events ++ e.events;
        after = e.after;
        queue = e.queue;
        returns = rw (d.returns, ◌>>=◌, e.returns);
        allows = Allows-append size q d.events d.queue e.events e.queue d.allows e.allows;
        view_inv = e.view_inv;
      }

  settle :
      (v : Views F) (q : Queue)
      → ViewInv r Good size v q
      → v.system.producer ≡ Producer.outside
      → v.system.consumer ≡ Consumer.outside
      → Represents r Good size v.system.fifo q
  settle v q i p c = Represents-Inv (rw p at (rw c at i.inv))

  all_seen-ViewInv : (f : F) → Represents r Good size f [] → ViewInv r Good size (all_seen f) []
  all_seen-ViewInv f h = record {
    inv = Inv-at_rest h tt;
    sees = record {
      full_good = h.1.good;
      full_low = omega arith;
      full_high = omega (arith, h.1.counter_is);
      count_good = h.1.good;
      count_high = omega (arith, h.1.counter_is);
      slots_good = h.1.good;
      slots_are = λ i lt. absurd (omega (arith, lt, h.1.counter_is));
      published_good = h.1.good;
      published_are = λ i lt. elim lt [ ];
    };
    aware = tt;
  }

  pub view_run-KeepsOrder :
      (ts : List Turn) (f : F)
      → Represents r Good size f []
      → KeepsOrder r Good size (view_run r sight publishing ts (all_seen f))
  view_run-KeepsOrder ts f h =
      let e = view_run-Follows ts (all_seen f) [] (all_seen-ViewInv f h) in
      record {
        events = e.events;
        after = e.after;
        left = e.queue;
        returns = e.returns;
        in_order = received-accepted_excused size [] e.events e.queue tt e.allows;
        bounded = e.view_inv.inv.holds.bound;
        seen_full = e.view_inv.sees.full_low;
        seen_empty = e.view_inv.sees.count_high;
        settled = settle e.after e.queue e.view_inv;
      }
