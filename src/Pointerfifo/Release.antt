-- ===== src/Pointerfifo/Release.antt =====
-- What `_mulle_pointerfifo_init` lets through where NDEBUG removes its asserts.
mod Filling
use mulle_fifo.Common.{
  ℕ, suc, ◌+◌, ◌*◌, ◌/◌, ◌%◌, ◌<◌, ◌≡◌, ◌≢◌, refl, ap, ◌∙◌, none, some, Bool, true, List, [], ◌∷◌,
  map, length, ok, err, undefined, ◌>>=◌, get_elem?, get_elem?-of_lt, get_elem?-of_le, zero, set,
  length-set, arith,
}
use native.Mathlib.Nat.{mod-eq_of_lt, zero-mod, mul-div_cancel}
use mulle_fifo.Platform.{Platform, IsPlatform, Block, Allocator, IsAllocator}
use mulle_fifo.Platform.Cells.{count_of_cell, increment_of_cell}
use mulle_fifo.Queue.{stored_code, enqueue, dequeue}
use mulle_fifo.Queue.Trace.{wrote, HasNoNull}
use mulle_fifo.Queue.Replies.{Call, write_call, read_call, count_call, replies}
use mulle_fifo.Ring.Calls.{calls}
use mulle_fifo.Pointerfifo.Lifecycle.{opened, opened-Represents}
use mulle_fifo.Pointerfifo.Sequential.{calls_reply}
use mulle_fifo.Pointerfifo.Release.Filling.{fills, write_beyond}
use mulle_fifo.Pointerfifo.{
  Pointerfifo, init, assert, write, read, get_count, store, advance_write, increment, remainder,
}

module _ {Cell : Type 0} {pl : Platform Cell} (laws : IsPlatform pl) where
  count_zero :
      (p : Pointerfifo Cell)
      → pl.atomic_read p.n ≡ 0
      → pl.atomic_read p.n % pl.uintptr_mod % pl.uint_mod ≡ 0
  count_zero p e = rw e (ap (λ k. k % pl.uint_mod) (zero-mod pl.uintptr_mod) ∙ zero-mod pl.uint_mod)

  write_nothing :
      (x : ℕ) (p : Pointerfifo Cell)
      → p.size ≡ 0
      → pl.atomic_read p.n ≡ 0
      → (write pl x p ≡ ok ((enqueue 0 x []).0, p)) × ((enqueue 0 x []).1 ≡ [])
  unfolding write get_count enqueue
  write_nothing x p s e = ground (arith, count_zero p e, s)

  -- A FIFO of no slots is full and empty at once.
  calls_on_nothing :
      (cs : List Call) (p : Pointerfifo Cell)
      → p.size ≡ 0
      → pl.atomic_read p.n ≡ 0
      → calls (write pl) (read pl) (get_count pl) cs p ≡ ok ((replies 0 [] cs).0, p)
  unfolding calls replies read get_count dequeue
  calls_on_nothing [] p s e = refl
  calls_on_nothing (write_call x ∷ cs) p s e =
      let (w, q) = write_nothing x p s e in rw (w, q, ◌>>=◌, calls_on_nothing cs p s e) refl
  calls_on_nothing (read_call ∷ cs) p s e = rw (count_zero p e, calls_on_nothing cs p s e) refl
  calls_on_nothing (count_call ∷ cs) p s e = rw (count_zero p e, calls_on_nothing cs p s e) refl

module _ {Cell Heap : Type 0} {pl : Platform Cell} (laws : IsPlatform pl) {al : Allocator Heap Cell}
    {live : Heap → ℕ → Bool} (memory : IsAllocator pl al live) where
  init_unchecked :
      (p : Pointerfifo Cell) (size allocator : ℕ) (h h' : Heap) (b : Block Cell)
      → pl.ndebug ≡ true
      → al.malloc allocator (size * pl.pointer_size % pl.size_mod) h ≡ some (b, h')
      → init pl al p size allocator h ≡ ok (opened pl p size allocator b, h')
  unfolding init assert
  init_unchecked p size allocator h h' b n m = ground (arith, n, m)

  one_slot :
      (allocator : ℕ) (h h' : Heap) (b : Block Cell)
      → 0 < pl.pointer_size
      → pl.pointer_size < pl.size_mod
      → al.malloc allocator (1 * pl.pointer_size % pl.size_mod) h ≡ some (b, h')
      → length b.cells ≡ 1
  one_slot allocator h h' b width fits m =
      memory.malloc-fits _ _ _ _ _ m
      ∙ ap (λ k. k / pl.pointer_size) (mod-eq_of_lt (omega (arith, fits)))
      ∙ mul-div_cancel 1 width

  -- Where NDEBUG removes the asserts: with a size of 0 or 1, pointers of at least one byte and
  -- fewer than a `size_t` can count, and an allocation that succeeds, `init` succeeds, and every
  -- sequence of calls is defined and returns what the queue bounded by that size replies: with
  -- size 0 every write of a pointer other than NULL returns -1.
  pub small_sizes :
      (size : ℕ) (p : Pointerfifo Cell) (allocator : ℕ) (h h' : Heap) (b : Block Cell)
      (cs : List Call)
      → pl.ndebug ≡ true
      → size < 2
      → 0 < pl.pointer_size
      → pl.pointer_size < pl.size_mod
      → al.malloc allocator (size * pl.pointer_size % pl.size_mod) h ≡ some (b, h')
      → (p' : Pointerfifo Cell) × (p'' : Pointerfifo Cell) × (init pl al p size allocator h
          ≡ ok (p', h'))
        × (calls (write pl) (read pl) (get_count pl) cs p' ≡ ok ((replies size [] cs).0, p''))
  small_sizes zero p allocator h h' b cs n small width fits m = (
    opened pl p 0 allocator b,
    opened pl p 0 allocator b,
    init_unchecked p 0 allocator h h' b n m,
    calls_on_nothing laws cs (opened pl p 0 allocator b) refl (laws.read-nonatomic_write 0 p.n),
  )
  small_sizes (suc zero) p allocator h h' b cs n small width fits m =
      let (p'', e, _) =
        calls_reply laws 1 (omega arith) (omega (arith, laws.uint_wide)) cs
          (opened pl p 1 allocator b) []
          (opened-Represents laws memory p 1 allocator b
            (one_slot allocator h h' b width fits m)) in
      (opened pl p 1 allocator b, p'', init_unchecked p 1 allocator h h' b n m, e)
  small_sizes (suc (suc size)) p allocator h h' b cs n small width fits m =
      absurd (omega (arith, small))

  -- Where NDEBUG removes the asserts: if the size, which an unsigned int can count, times the
  -- bytes of a pointer wraps in a `size_t`, so that the bytes that are left make fewer pointers
  -- than the size, and the allocator has those bytes, then `init` succeeds all the same; the
  -- first writes of pointers other than NULL, as many as there are slots, return 0, and the next
  -- write of a pointer other than NULL is undefined.
  pub short_storage :
      (size : ℕ) (p : Pointerfifo Cell) (allocator : ℕ) (h h' : Heap) (b : Block Cell) (xs : List ℕ)
      (x : ℕ)
      → pl.ndebug ≡ true
      → size < pl.uint_mod
      → (size * pl.pointer_size % pl.size_mod) / pl.pointer_size < size
      → al.malloc allocator (size * pl.pointer_size % pl.size_mod) h ≡ some (b, h')
      → HasNoNull xs
      → length xs ≡ (size * pl.pointer_size % pl.size_mod) / pl.pointer_size
      → x ≢ 0
      → (p' : Pointerfifo Cell) × (p'' : Pointerfifo Cell) × (init pl al p size allocator h
          ≡ ok (p', h'))
        × (calls (write pl) (read pl) (get_count pl) (map write_call xs) p'
            ≡ ok (map (λ y. wrote y stored_code) xs, p''))
        × (write pl x p'' ≡ err undefined)
  short_storage size p allocator h h' b xs x n fits short m nulls e x_nonzero =
      let slots = (size * pl.pointer_size % pl.size_mod) / pl.pointer_size in
      let (p'', ws, f) =
        fills laws size slots 0 xs (opened pl p size allocator b) short fits nulls
          (omega (arith, e))
          (record {
            block = b;
            stored = refl;
            block_size = memory.malloc-fits _ _ _ _ _ m;
            size_is = refl;
            write_is = refl;
            counter_is = laws.read-nonatomic_write 0 p.n;
          }) in
      (
        opened pl p size allocator b,
        p'',
        init_unchecked p size allocator h h' b n m,
        ws,
        write_beyond laws size slots x p'' short fits x_nonzero f,
      )
