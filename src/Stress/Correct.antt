-- ===== src/Stress/Correct.antt =====
-- What `main` of stress.c returns.
use mulle_fifo.Common.{ℕ, ◌+◌, ◌*◌, ◌<◌, ◌≡◌, refl, List, Option, none, some, Bool, ok, arith}
use mulle_fifo.Platform.{Platform, IsPlatform, Block, Allocator, IsAllocator}
use mulle_fifo.Fixed
use mulle_fifo.Fixed.{FixedFifo}
use mulle_fifo.Fixed.Contract
use mulle_fifo.Fixed.Contract.{HasStorage}
use mulle_fifo.Fixed.Sizes.{init-IsFifo}
use mulle_fifo.Pointerfifo.{Pointerfifo, done}
use mulle_fifo.Pointerfifo.Lifecycle.{IsSize}
use mulle_fifo.Client.{Side}
use mulle_fifo.Client.Invariant.{IsArray}
use mulle_fifo.Client.Finishes.{HasRounds, rounds_for, publish-Completes}
use mulle_fifo.Client.OnDynamic.{dynamic-Ends}
use mulle_fifo.Stress.{
  stress, joined, Verdict, run_fixed_test, run_dynamic_test, report, after_fixed, stress_main,
}
use mulle_fifo.Stress.Payloads.{stress-IsWorkload}
use mulle_fifo.Stress.Schedules.{IfSome, Returns, fixed_runs, dynamic_runs}

-- Nothing was counted as corrupt, the exit code is 0, and the memory is as it was.
abbrev pub AllClear : {Heap : Type 0} → (Heap → ℕ → Bool) → ℕ → Heap → Verdict × Heap → Type 0
AllClear live n_items h (v, h') =
    (v ≡ record { n_items = n_items; fixed_corrupt = 0; dynamic_corrupt = 0; exit_code = 0 })
    × ((i : ℕ) → live h' i ≡ live h i)

module _ {Cell Heap : Type 0} {pl : Platform Cell} (laws : IsPlatform pl) {al : Allocator Heap Cell}
    {live : Heap → ℕ → Bool} (memory : IsAllocator pl al live) (flip : ℕ → ℕ) (n_items size : ℕ)
    (s : IsSize pl size) where
  report-AllClear :
      (h : Heap) (fixed_corrupt : ℕ) (o : Option (ℕ × Pointerfifo Cell × Heap))
      → fixed_corrupt ≡ 0
      → IfSome
          (λ (o : ℕ × Pointerfifo Cell × Heap). (o.0 ≡ 0) × ((i : ℕ) → live o.2 i ≡ live h i))
          o
      → IfSome (AllClear live n_items h) (report n_items fixed_corrupt o)
  report-AllClear h fixed_corrupt none e i = tt
  report-AllClear h fixed_corrupt (some (dynamic_corrupt, p, h'')) e (e', i) = (rw (e, e') refl, i)

  module _ (fixed_address dynamic_address : ℕ → ℕ) (f : FixedFifo Cell) (p : Pointerfifo Cell)
      (h h' : Heap) (b : Block Cell) where
    -- Let stress.c run under the conditions that its items and FIFOs need (distinct addresses
    -- other than NULL, a fixed FIFO with storage of its size, a size of at least 2 that an
    -- unsigned int can count and whose storage has a size in bytes, pointers of at least one
    -- byte, an allocation that succeeds) and every pair of schedules of the threads of its two
    -- tests, no access is undefined, and if `main` returns it reports no corrupt payload on
    -- either FIFO, returns 0, and leaves every address allocated or free as it was before.
    pub stress_never_fails :
        (fixed_sides dynamic_sides : List Side)
        → IsArray fixed_address n_items
        → IsArray dynamic_address n_items
        → HasStorage size f
        → 0 < pl.pointer_size
        → al.malloc 0 (size * pl.pointer_size) h ≡ some (b, h')
        → Returns (AllClear live n_items h) (
            stress_main pl al flip n_items size fixed_address dynamic_address fixed_sides
              dynamic_sides f p h)
    unfolding stress_main
    stress_never_fails fixed_sides dynamic_sides items items' g width m =
        let a = fixed_runs laws memory flip n_items size s fixed_address fixed_sides f items g in
        let c =
          dynamic_runs laws memory flip n_items size s dynamic_address dynamic_sides p h h' b items'
            width m in
        rw (a.returns) (go a.value a.holds c)
      where
        go :
            (o : Option (ℕ × FixedFifo Cell))
            → IfSome (λ (o : ℕ × FixedFifo Cell). o.0 ≡ 0) o
            → Returns
                (λ (o : ℕ × Pointerfifo Cell × Heap). (o.0 ≡ 0) × ((i : ℕ) → live o.2 i ≡ live h i))
                (run_dynamic_test pl al flip n_items size dynamic_address dynamic_sides p h)
            → Returns
                (AllClear live n_items h)
                (after_fixed pl al flip n_items size dynamic_address dynamic_sides p h o)
        go none e c = record { value = none; returns = refl; holds = tt }
        go (some (k, f')) e c = record {
          value = report n_items k c.value;
          returns = rw (c.returns) refl;
          holds = report-AllClear h k c.value e c.holds;
        }

    -- Let stress.c have payloads at distinct addresses other than NULL for each of its two tests,
    -- a fixed FIFO with storage of its size, a size of at least 2 that an unsigned int can count
    -- and whose storage has a size in bytes, pointers of at least one byte and an allocation of
    -- the storage that succeeds. If the schedule of each test starts with 24 * n_items + 3 rounds
    -- in each of which both threads make a statement, `main` reports no corrupt payload on either
    -- FIFO, returns 0, and leaves every address allocated or free as it was before.
    pub stress_passes :
        (fixed_sides dynamic_sides : List Side)
        → IsArray fixed_address n_items
        → IsArray dynamic_address n_items
        → HasStorage size f
        → 0 < pl.pointer_size
        → al.malloc 0 (size * pl.pointer_size) h ≡ some (b, h')
        → HasRounds (24 * n_items + 3) fixed_sides
        → HasRounds (24 * n_items + 3) dynamic_sides
        → (out : Verdict × Heap) × (stress_main pl al flip n_items size fixed_address
              dynamic_address fixed_sides dynamic_sides f p h
            ≡ ok (some out))
          × AllClear live n_items h out
    unfolding stress_main run_fixed_test run_dynamic_test joined
    stress_passes fixed_sides dynamic_sides items items' g width m rounds rounds' =
        let enough : 24 * n_items + 3 ≡ rounds_for (stress flip) n_items = omega arith in
        let law = stress-IsWorkload flip in
        let c =
          publish-Completes (Contract.ring-IsRing laws size (omega (arith, s.at_least)) s.is_uint)
            (omega (arith, s.at_least)) fixed_address law n_items items fixed_sides
            (Fixed.init pl f) (init-IsFifo laws size f g) (rw enough at rounds) in
        let e =
          dynamic-Ends laws memory dynamic_address law n_items size p dynamic_sides h h' b items'
            width s m (rw enough at rounds') in
        let d = e.completes in
        (
          (
            record { n_items = n_items; fixed_corrupt = 0; dynamic_corrupt = 0; exit_code = 0 },
            (done pl al d.after.system.fifo h').1,
          ),
          rw
              (
                c.returns, c.consumer_end, c.producer_end, c.clean, e.opens, d.returns,
                d.consumer_end, d.producer_end, d.clean,
              )
              refl,
          (refl, e.restores),
        )
