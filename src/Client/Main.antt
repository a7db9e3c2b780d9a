-- ===== src/Client/Main.antt =====
-- `main` of publication.c, from `_mulle_pointerfifo_init` to its exit code.
use mulle_fifo.Common.{
  ℕ, ◌+◌, ◌*◌, ◌≡◌, refl, ◌<◌, List, Option, none, some, Bool, Result, ok, ◌>>=◌, ◌==◌,
  if◌then◌else◌, arith,
}
use mulle_fifo.Platform.{Platform, IsPlatform, Block, Allocator, IsAllocator}
use mulle_fifo.Pointerfifo.{Pointerfifo, ring, init, done}
use mulle_fifo.Pointerfifo.Lifecycle.{IsSize}
use mulle_fifo.Client.{Writer, Reader, Publication, Side, publish, start}
use mulle_fifo.Client.Invariant.{IsArray}
use mulle_fifo.Client.Finishes.{HasRounds, rounds_for}
use mulle_fifo.Client.Items.{Item, publication, publication-IsWorkload}
use mulle_fifo.Client.OnDynamic.{dynamic-Ends}

-- What `printf` shows, and what `main` returns.
pub record Report : Type 0 where
  pub received : ℕ
  pub corrupt : ℕ
  pub exit_code : ℕ

module _ {Cell Heap : Type 0} (pl : Platform Cell) (al : Allocator Heap Cell) where
  -- What follows the consumer's loop; `mulle_thread_join` needs the producer at its end.
  unfoldable pub leave :
      Reader → Writer → Publication Item (Pointerfifo Cell) → Heap → Option (Report × Heap)
  leave Reader.finished Writer.finished s h = some (
    record {
      received = s.received;
      corrupt = s.corrupt;
      exit_code = if s.corrupt == 0 then 0 else 1;
    },
    (done pl al s.system.fifo h).1,
  )
  leave Reader.finished w s h = none
  leave c w s h = none

  -- `sides` is the schedule of the two threads, which `main` outlives if it returns. The FIFO and
  -- the items are static; NULL stands for the default allocator.
  unfoldable pub main :
      (address flip : ℕ → ℕ) (n_items size : ℕ)
      → Pointerfifo Cell
      → List Side
      → Heap
      → Result (Option (Report × Heap))
  main address flip n_items size p sides h = do
    (fifo, h') ← init pl al p size 0 h
    s ← publish address (publication flip) n_items (ring pl) sides (start (publication flip) fifo)
    ok (leave s.reader s.writer s h')

module _ {Cell Heap : Type 0} {pl : Platform Cell} (laws : IsPlatform pl) {al : Allocator Heap Cell}
    {live : Heap → ℕ → Bool} (memory : IsAllocator pl al live) where
  -- Let the publication test have items at distinct addresses other than NULL and a size of at
  -- least 2 that an unsigned int can count and whose storage has a size in bytes, with pointers
  -- of at least one byte and an allocation of the storage that succeeds. If the schedule starts
  -- with 20 * n_items + 3 rounds in each of which both threads make a statement, `main` reports
  -- as many received items as there are and none corrupt, returns 0, and leaves every address
  -- allocated or free as it was before.
  pub main_succeeds :
      (address flip : ℕ → ℕ) (n_items size : ℕ) (p : Pointerfifo Cell) (sides : List Side)
      (h h' : Heap) (b : Block Cell)
      → IsArray address n_items
      → 0 < pl.pointer_size
      → IsSize pl size
      → al.malloc 0 (size * pl.pointer_size) h ≡ some (b, h')
      → HasRounds (20 * n_items + 3) sides
      → (h'' : Heap) × (main pl al address flip n_items size p sides h
          ≡ ok (some (record { received = n_items; corrupt = 0; exit_code = 0 }, h'')))
        × ((i : ℕ) → live h'' i ≡ live h i)
  unfolding main leave
  main_succeeds address flip n_items size p sides h h' b items width s m rounds =
      let enough : 20 * n_items + 3 ≡ rounds_for (publication flip) n_items = omega arith in
      let e =
        dynamic-Ends laws memory address (publication-IsWorkload flip) n_items size p sides h h' b
          items width s m (rw enough at rounds) in
      let c = e.completes in
      (
        (done pl al c.after.system.fifo h').1,
        rw (e.opens, c.returns, c.consumer_end, c.producer_end, c.received, c.clean) refl,
        e.restores,
      )
