-- ===== src/Client/Sound.antt =====
-- Every schedule of the two threads.
use mulle_fifo.Common.{inl, inr, ℕ, ◌≤◌, ◌<◌, ◌≡◌, refl, List, [], Result, ok, arith}
use mathlib.Core.Path.{subst}
use mulle_fifo.Common.Fair
use mulle_fifo.Ring.{Ring, IsRing}
use mulle_fifo.Ring.Sequential.{Represents}
use mulle_fifo.Spsc.Invariant.{Inv-at_rest}
use mulle_fifo.Client.{
  Workload, Writer, Reader, Publication, Side, producer_side, consumer_side, side_turn, publish,
  start,
}
use mulle_fifo.Client.Progress.{rank, Stuck}
use mulle_fifo.Client.Invariant.{IsArray, IsWorkload, Sound, Keeps, Reading, Writing}
use mulle_fifo.Client.Writes.{writer_turn-Sound}
use mulle_fifo.Client.Reads.{reader_turn-Sound}

-- The schedule is defined, no item was corrupt or out of order, and at most those items were
-- received that were sent. A consumer at its end has received every item.
pub record Publishes {Item F : Type 0} (n_items : ℕ) (out : Result (Publication Item F))
    : Type 0 where
  pub after : Publication Item F
  pub returns : out ≡ ok after
  pub clean : after.corrupt ≡ 0
  pub in_order : after.expect ≡ after.received
  pub sent_before : after.received ≤ after.i
  pub bounded : after.i ≤ n_items
  pub consumer_end : after.reader ≡ Reader.finished → after.received ≡ n_items
  pub producer_end : after.writer ≡ Writer.finished → after.i ≡ n_items

-- The thread `d` makes a turn.
abbrev pub Acts : Side → Side → Type 0
Acts d e = e ≡ d

module _ {F : Type 0} {r : Ring F} {Good : F → Type 0} {size : ℕ} (ring : IsRing r size Good)
    (above : 0 < size) (address : ℕ → ℕ) {Item : Type 0} {work : Workload Item}
    (law : IsWorkload work) (n_items : ℕ) (items : IsArray address n_items) where
  -- A turn as a turn of threads that take turns.
  turn-Fair :
      (d : Side) (s : Publication Item F) {out : Result (Publication Item F)}
      → Keeps r Good size address law n_items d s out
      → Fair.Keeps
          (side_turn address work n_items r)
          (Sound address law n_items r Good size)
          (rank size n_items work.stores work.looks)
          (Stuck size n_items work.stores work.looks)
          Acts
          (λ e. Acts e d)
          s
          out
  turn-Fair d s k = record {
    after = k.after;
    returns = k.returns;
    good = k.sound;
    progress = elim (k.progress) [
      | inl less ↦ inl less
      | inr (stuck, same, back) ↦ inr (
        same,
        (λ e acts. subst (λ j. Stuck size n_items work.stores work.looks j s) acts stuck),
        back,
      )
    ];
  }

  pub side_turn-Keeps :
      (d : Side) (s : Publication Item F)
      → Sound address law n_items r Good size s
      → Fair.Keeps
          (side_turn address work n_items r)
          (Sound address law n_items r Good size)
          (rank size n_items work.stores work.looks)
          (Stuck size n_items work.stores work.looks)
          Acts
          (λ e. Acts e d)
          s
          (side_turn address work n_items r d s)
  unfolding side_turn
  side_turn-Keeps producer_side s i =
      turn-Fair producer_side s (writer_turn-Sound ring above items s.writer s refl i)
  side_turn-Keeps consumer_side s i =
      turn-Fair consumer_side s (reader_turn-Sound ring above s.reader s refl i)

  pub publish-Sound :
      (sides : List Side) (s : Publication Item F)
      → Sound address law n_items r Good size s
      → Fair.Keeps
          (side_turn address work n_items r)
          (Sound address law n_items r Good size)
          (rank size n_items work.stores work.looks)
          (Stuck size n_items work.stores work.looks)
          Acts
          (λ d. Fair.HasTurn Acts d sides)
          s
          (publish address work n_items r sides s)
  unfolding publish
  publish-Sound sides s i =
      Fair.schedule-Keeps (side_turn address work n_items r) (Sound address law n_items r Good size)
        (rank size n_items work.stores work.looks) (Stuck size n_items work.stores work.looks) Acts
        sides s side_turn-Keeps i

  pub start-Sound :
      (f : F) → Represents r Good size f [] → Sound address law n_items r Good size (start work f)
  start-Sound f h = record {
    queue = [];
    waiting = 0;
    stands = Inv-at_rest h tt;
    queued = refl;
    sent = refl;
    bound = omega arith;
    filled = λ j k. absurd (omega (arith, k));
    at_writer = refl;
    at_reader = tt;
    clean = refl;
    in_order = refl;
  }

  pub consumer_ends :
      (s : Publication Item F)
      → Sound address law n_items r Good size s
      → s.reader ≡ Reader.finished
      → s.received ≡ n_items
  consumer_ends s i c =
      let all : Reading address law n_items Reader.finished s.received = rw c at i.at_reader in
      omega (arith, all, i.sent, i.bound)

  pub producer_ends :
      (s : Publication Item F)
      → Sound address law n_items r Good size s
      → s.writer ≡ Writer.finished
      → s.i ≡ n_items
  producer_ends s i w =
      let (_, all) : Writing address law n_items Writer.finished s.i s.memory s.system.producer =
        rw w at i.at_writer in
      omega (arith, all, i.bound)

  pub publish-Publishes :
      (sides : List Side) (f : F)
      → Represents r Good size f []
      → Publishes n_items (publish address work n_items r sides (start work f))
  publish-Publishes sides f h =
      let d = publish-Sound sides (start work f) (start-Sound f h) in
      record {
        after = d.after;
        returns = d.returns;
        clean = d.good.clean;
        in_order = d.good.in_order;
        sent_before = omega (arith, d.good.sent);
        bounded = d.good.bound;
        consumer_end = consumer_ends d.after d.good;
        producer_end = producer_ends d.after d.good;
      }
