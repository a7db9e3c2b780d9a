-- ===== src/Client/OnDynamic.antt =====
-- The two threads on a dynamic FIFO, from `init` to `done`.
use mulle_fifo.Common.{ℕ, ◌*◌, ◌≡◌, ap, ◌<◌, List, Option, some, Bool, ok, arith}
use mulle_fifo.Platform.{Platform, IsPlatform, Block, Allocator, IsAllocator}
use mulle_fifo.Pointerfifo.{Pointerfifo, ring, init, done}
use mulle_fifo.Pointerfifo.Lifecycle.{IsSize}
use mulle_fifo.Pointerfifo.Owned.{IsOwned, IsOwned-IsRing, done-restores}
use mulle_fifo.Pointerfifo.WholeLife.{init-IsOwned}
use mulle_fifo.Client.{Workload, Side, publish, start}
use mulle_fifo.Client.Invariant.{IsArray, IsWorkload}
use mulle_fifo.Client.Finishes.{HasRounds, rounds_for, Completes, publish-Completes}

-- `init` succeeds, both threads come to their ends, and `done` gives the block `b` back.
pub record Ends {Cell Heap Item : Type 0} (pl : Platform Cell) (al : Allocator Heap Cell)
    (live : Heap → ℕ → Bool) (address : ℕ → ℕ) (work : Workload Item) (n_items size : ℕ)
    (p : Pointerfifo Cell) (sides : List Side) (h h' : Heap) (b : Block Cell) : Type 0 where
  pub opened : Pointerfifo Cell
  pub opens : init pl al p size 0 h ≡ ok (opened, h')
  pub completes :
      Completes
        (IsOwned size 0 b.address)
        n_items
        (publish address work n_items (ring pl) sides (start work opened))
  pub restores : (i : ℕ) → live (done pl al completes.after.system.fifo h').1 i ≡ live h i

module _ {Cell Heap : Type 0} {pl : Platform Cell} (laws : IsPlatform pl) {al : Allocator Heap Cell}
    {live : Heap → ℕ → Bool} (memory : IsAllocator pl al live) (address : ℕ → ℕ) {Item : Type 0}
    {work : Workload Item} (law : IsWorkload work) where
  pub dynamic-Ends :
      (n_items size : ℕ) (p : Pointerfifo Cell) (sides : List Side) (h h' : Heap) (b : Block Cell)
      → IsArray address n_items
      → 0 < pl.pointer_size
      → IsSize pl size
      → al.malloc 0 (size * pl.pointer_size) h ≡ some (b, h')
      → HasRounds (rounds_for work n_items) sides
      → Ends pl al live address work n_items size p sides h h' b
  dynamic-Ends n_items size p sides h h' b items width s m rounds =
      let above : 0 < size = omega (arith, s.at_least) in
      let (p', e, r) = init-IsOwned laws memory p size 0 h h' b width s m in
      let c =
        publish-Completes (IsOwned-IsRing laws size 0 b.address above s.is_uint) above address law
          n_items items sides p' r rounds in
      record {
        opened = p';
        opens = e;
        completes = c;
        restores =
            (done-restores memory c.after.system.fifo _ 0 h h' b m
              (ap (λ (o : ℕ × Option ℕ). o.1) c.good.1)).0;
      }
