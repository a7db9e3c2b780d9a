-- ===== src/Singlethread/Correct.antt =====
-- The programs of test/10-singlethread, from `init` to what they print and return.
use mulle_fifo.Common.{
  ℕ, ◌*◌, ◌<◌, ◌≡◌, refl, ap, ◌∙◌, Option, none, some, Bool, List, [], ◌∷◌, ◌++◌, ok, arith,
}
use mulle_fifo.Platform.{Platform, IsPlatform, Block, Allocator, IsAllocator}
use mulle_fifo.Ring.Sequential
use mulle_fifo.Ring.Sequential.{Represents}
use mulle_fifo.Fixed
use mulle_fifo.Fixed.{FixedFifo}
use mulle_fifo.Fixed.Contract.{HasStorage}
use mulle_fifo.Fixed.Contract as FixedContract
use mulle_fifo.Fixed.Sizes.{init-IsFifo}
use mulle_fifo.Pointerfifo.{Pointerfifo, init, done, write, read, get_count}
use mulle_fifo.Pointerfifo.Tolerant
use mulle_fifo.Pointerfifo.Lifecycle.{IsSize, done-done}
use mulle_fifo.Pointerfifo.Owned.{IsOwned-IsRing, done-restores}
use mulle_fifo.Pointerfifo.WholeLife.{init-IsOwned}
use mulle_fifo.Singlethread.{
  Statement, Tally, count_failure, note, perform, execute, clean, null_statements, exit_status,
  contract, simple, contract_main, simple_main, contract_fixed_main, simple_fixed_main, checked,
}
use mulle_fifo.Queue.Trace.{counted}
use mulle_fifo.Singlethread.Plays.{plays}
use mulle_fifo.Singlethread.Contract.{contract_prints, plays-contract, plays-empty_count}
use mulle_fifo.Singlethread.Prints.{writes_shown, reads_shown, plays-simple}
use mulle_fifo.Singlethread.Runs.{execute_refines}

-- `init` succeeds, the statements end with the tally `w`, and `done` gives the memory back.
record RunsClean {Cell Heap : Type 0} (pl : Platform Cell) (al : Allocator Heap Cell)
    (live : Heap → ℕ → Bool) (p : Pointerfifo Cell) (size : ℕ) (h : Heap) (ss : List Statement)
    (w : Tally) : Type 0 where
  opened : Pointerfifo Cell
  heap : Heap
  opens : init pl al p size 0 h ≡ ok (opened, heap)
  left : Pointerfifo Cell
  executes : execute (write pl) (read pl) (get_count pl) ss clean opened ≡ ok (w, left)
  restores : (i : ℕ) → live (done pl al left heap).1 i ≡ live h i

module _ {Cell Heap : Type 0} {pl : Platform Cell} (laws : IsPlatform pl) {al : Allocator Heap Cell}
    {live : Heap → ℕ → Bool} (memory : IsAllocator pl al live) where
  runs :
      (p : Pointerfifo Cell) (size : ℕ) (h h' : Heap) (b : Block Cell) (ss : List Statement)
      (w : Tally)
      → 0 < pl.pointer_size
      → IsSize pl size
      → al.malloc 0 (size * pl.pointer_size) h ≡ some (b, h')
      → plays size ss clean [] ≡ (w, [])
      → RunsClean pl al live p size h ss w
  unfolding write read Sequential.write Sequential.read
  runs p size h h' b ss w width s m played =
      let above : 0 < size = omega (arith, s.at_least) in
      let (p', e, r) = init-IsOwned laws memory p size 0 h h' b width s m in
      let (p'', e', r') =
        execute_refines (IsOwned-IsRing laws size 0 b.address above s.is_uint) above ss clean p' []
          r in
      record {
        opened = p';
        heap = h';
        opens = e;
        left = p'';
        executes = e' ∙ ap (λ d. ok (d.0, p'')) played;
        restores =
            (done-restores memory p'' _ 0 h h' b m (ap (λ (o : ℕ × Option ℕ). o.1) r'.1.good.1)).0;
      }

  null_passes :
      execute
        (Tolerant.write pl)
        (Tolerant.read pl)
        (Tolerant.get_count pl)
        null_statements
        clean
        none
      ≡ ok (clean, none)
  unfolding execute perform note count_failure Tolerant.write Tolerant.read Tolerant.get_count
  null_passes = refl

  contract_passes :
      (p : Pointerfifo Cell) (size passes : ℕ) (h h' : Heap) (b : Block Cell)
      → 0 < pl.pointer_size
      → IsSize pl size
      → al.malloc 0 (size * pl.pointer_size) h ≡ some (b, h')
      → (h'' : Heap) × (contract_main pl al size passes p h
          ≡ ok ((0, record { failures = 0; printed = contract_prints size }), h''))
        × ((i : ℕ) → live h'' i ≡ live h i)
  unfolding contract_main exit_status Tolerant.init Tolerant.done
  contract_passes p size passes h h' b width s m =
      let c = runs p size h h' b _ _ width s m (
        plays-contract size passes (checked (counted 0) ∷ []) (omega (arith, s.at_least))
          (plays-empty_count size)) in
      (
        (done pl al c.left c.heap).1,
        rw (null_passes, c.opens, c.executes, done-done pl al c.left c.heap) refl,
        c.restores,
      )

  simple_prints :
      (p : Pointerfifo Cell) (size : ℕ) (h h' : Heap) (b : Block Cell)
      → 0 < pl.pointer_size
      → IsSize pl size
      → al.malloc 0 (size * pl.pointer_size) h ≡ some (b, h')
      → (h'' : Heap) × (simple_main pl al size p h
          ≡ ok (record { failures = 0; printed = writes_shown 0 size ++ reads_shown 1 size }, h''))
        × ((i : ℕ) → live h'' i ≡ live h i)
  unfolding simple_main
  simple_prints p size h h' b width s m =
      let c = runs p size h h' b _ _ width s m (plays-simple size) in
      ((done pl al c.left c.heap).1, rw (c.opens, c.executes) refl, c.restores)

  -- Let contract.c and simple.c, with any size of at least 2 that an unsigned int can count and
  -- whose storage has a size in bytes, and any number of passes through the last loop of
  -- contract.c, start on a heap where the allocation of the storage succeeds, with pointers of at
  -- least one byte. Then contract.c, its calls on a NULL FIFO and its second `done` included,
  -- counts no failure, prints the expected results and returns 0; simple.c prints for each write
  -- up to the size a 0 and the count that grows by one, then -1 and the size, then the pointers
  -- in the order in which they were written, then NULL; and both leave every address allocated or
  -- free as it was before `init`.
  pub dynamic_programs :
      (p : Pointerfifo Cell) (size passes : ℕ) (h h' : Heap) (b : Block Cell)
      → 0 < pl.pointer_size
      → IsSize pl size
      → al.malloc 0 (size * pl.pointer_size) h ≡ some (b, h')
      → ((h'' : Heap) × (contract_main pl al size passes p h
            ≡ ok ((0, record { failures = 0; printed = contract_prints size }), h''))
          × ((i : ℕ) → live h'' i ≡ live h i))
        × ((h'' : Heap) × (simple_main pl al size p h
              ≡ ok (
                record { failures = 0; printed = writes_shown 0 size ++ reads_shown 1 size },
                h'',
              ))
            × ((i : ℕ) → live h'' i ≡ live h i))
  dynamic_programs p size passes h h' b width s m =
      (contract_passes p size passes h h' b width s m, simple_prints p size h h' b width s m)

module _ {Cell : Type 0} {pl : Platform Cell} (laws : IsPlatform pl) where
  -- On any struct with storage of a size above 0 that an unsigned int can count, contract-64.c,
  -- with any number of passes through its last loop, counts no failure, prints the expected
  -- results and returns 0, and simple-64.c prints for each write up to the size a 0 and the count
  -- that grows by one, then -1 and the size, then the pointers in the order in which they were
  -- written, then NULL.
  pub fixed_programs :
      (p : FixedFifo Cell) (size passes : ℕ)
      → 0 < size
      → size < pl.uint_mod
      → HasStorage size p
      → ((p' : FixedFifo Cell) × (contract_fixed_main pl size passes p
            ≡ ok ((0, record { failures = 0; printed = contract_prints size }), p')))
        × ((p' : FixedFifo Cell) × (simple_fixed_main pl size p
              ≡ ok (
                record { failures = 0; printed = writes_shown 0 size ++ reads_shown 1 size },
                p',
              )))
  unfolding contract_fixed_main simple_fixed_main exit_status Fixed.done Fixed.write Fixed.read
      Sequential.write Sequential.read
  fixed_programs p size passes above fits g =
      let ring' = FixedContract.ring-IsRing laws size above fits in
      let r = init-IsFifo laws size p g in
      let (p', e, _) =
        execute_refines ring' above (contract size passes []) clean (Fixed.init pl p) [] r in
      let (p'', e', _) = execute_refines ring' above (simple size) clean (Fixed.init pl p) [] r in
      (
        (p', rw (e, plays-contract size passes [] above (λ v ss. refl)) refl),
        (p'', rw (e', plays-simple size) refl),
      )
