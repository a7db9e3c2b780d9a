-- ===== src/Pointerfifo/WholeLife.antt =====
-- A dynamic FIFO from `init` through the calls of its two threads to `done`.
use mulle_fifo.Common.{
  Option, ℕ, ◌*◌, ◌<◌, ◌≤◌, ◌≡◌, ap, none, some, Bool, List, [], ◌++◌, ok, length, arith,
}
use mulle_fifo.Platform.{Platform, IsPlatform, Block, Allocator, IsAllocator}
use mulle_fifo.Queue.{Queue}
use mulle_fifo.Queue.Trace.{Event, accepted, received, received-accepted}
use mulle_fifo.Ring.Sequential.{Represents}
use mulle_fifo.Spsc.{Turn, System, run, at_rest}
use mulle_fifo.Spsc.Invariant.{Inv-at_rest}
use mulle_fifo.Spsc.Linearizable.{run-Explained}
use mulle_fifo.Pointerfifo.{Pointerfifo, ring, init, done}
use mulle_fifo.Pointerfifo.Lifecycle.{IsSize, init-Represents}
use mulle_fifo.Pointerfifo.Owned.{IsOwned, IsOwned-IsRing, IsOwned-Represents, done-restores}

-- `init` succeeds, the threads' schedule is defined and delivers in order, and `done` then leaves
-- every address allocated or free as it was before `init`.
pub record Lives {Cell Heap : Type 0} (pl : Platform Cell) (al : Allocator Heap Cell)
    (live : Heap → ℕ → Bool) (p : Pointerfifo Cell) (size allocator : ℕ) (h : Heap) (ts : List Turn)
    : Type 0 where
  pub opened : Pointerfifo Cell
  pub heap : Heap
  pub opens : init pl al p size allocator h ≡ ok (opened, heap)
  pub events : List Event
  pub after : System (Pointerfifo Cell)
  pub runs : run (ring pl) ts (at_rest opened) ≡ ok (events, after)
  pub left : Queue
  pub in_order : accepted events ≡ received events ++ left
  pub bounded : length left ≤ size
  pub closes : (done pl al after.fifo heap).0.storage ≡ none
  pub restores : (i : ℕ) → live (done pl al after.fifo heap).1 i ≡ live h i

module _ {Cell Heap : Type 0} {pl : Platform Cell} (laws : IsPlatform pl) {al : Allocator Heap Cell}
    {live : Heap → ℕ → Bool} (memory : IsAllocator pl al live) where
  -- An `init` that succeeds, with what it leaves.
  pub init-IsOwned :
      (p : Pointerfifo Cell) (size allocator : ℕ) (h h' : Heap) (b : Block Cell)
      → 0 < pl.pointer_size
      → IsSize pl size
      → al.malloc allocator (size * pl.pointer_size) h ≡ some (b, h')
      → (p' : Pointerfifo Cell) × (init pl al p size allocator h ≡ ok (p', h'))
        × Represents (ring pl) (IsOwned size allocator b.address) size p' []
  init-IsOwned p size allocator h h' b width s m =
      let (p', e, r, stored, kept) =
        init-Represents laws memory p size allocator h h' b width s m in
      (p', e, rw kept at (IsOwned-Represents pl size p' b [] stored r))

  -- Let a dynamic FIFO be initialised from any contents of its struct, with a size of at least 2
  -- that an unsigned int can count and whose storage has a size in bytes, pointers of at least
  -- one byte and an allocation that succeeds, be used by its two threads under any schedule of
  -- their statements, and be passed to `done`, even in the middle of a call. Then nothing is
  -- undefined, the accepted pointers are the received ones, in order, followed by at most as many
  -- as the size, and `done` leaves the storage NULL and every address allocated or free as it was
  -- before `init`.
  pub init_run_done :
      (p : Pointerfifo Cell) (size allocator : ℕ) (h h' : Heap) (b : Block Cell) (ts : List Turn)
      → 0 < pl.pointer_size
      → IsSize pl size
      → al.malloc allocator (size * pl.pointer_size) h ≡ some (b, h')
      → Lives pl al live p size allocator h ts
  init_run_done p size allocator h h' b ts width s m =
      let (p', e, r) = init-IsOwned p size allocator h h' b width s m in
      let ring' =
        IsOwned-IsRing laws size allocator b.address (omega (arith, s.at_least)) s.is_uint in
      let x =
        run-Explained ring' (omega (arith, s.at_least)) ts (at_rest p') [] (Inv-at_rest r tt) in
      let d =
        done-restores memory x.after.fifo _ allocator h h' b m
          (ap (λ (o : ℕ × Option ℕ). o.1) x.stands.holds.good.1) in
      record {
        opened = p';
        heap = h';
        opens = e;
        events = x.events;
        after = x.after;
        runs = x.returns;
        left = x.queue;
        in_order = received-accepted size [] x.events x.queue tt x.conforms;
        bounded = x.stands.holds.bound;
        closes = d.1;
        restores = d.0;
      }
