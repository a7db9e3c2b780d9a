-- ===== src/Tests/Examples.antt =====
-- The theorems at concrete inputs, where their hypotheses hold.
use mulle_fifo.Common.{
  ◌⊎◌, ◌+◌, ◌*◌, ◌^◌, ℕ, ◌/◌, ◌%◌, ◌≤◌, ◌≡◌, ◌↔◌, refl, none, some, List, [], ◌∷◌, ok, err, aborted,
  undefined, map, map_result, arith,
}
use mulle_fifo.Queue.{enqueue, dequeue}
use mulle_fifo.Queue.Replies.{
  Call, write_call, read_call, count_call, replies, fill_and_drain, in_order,
}
use mulle_fifo.Ring.Calls.{calls}
use mulle_fifo.Ring.Sequential.{Represents}
use mulle_fifo.Fixed
use mulle_fifo.Fixed.{FixedFifo}
use mulle_fifo.Fixed.Contract.{HasStorage}
use mulle_fifo.Fixed.Concurrent.{linearizable_fixed, order_kept}
use mulle_fifo.Fixed.Sizes.{Each, KeepsContract, provided, provided_sizes, provided-KeepsContract}
use mulle_fifo.Pointerfifo as Dynamic
use mulle_fifo.Pointerfifo.{Pointerfifo, init, done, read, write, get_count, ring}
use mulle_fifo.Pointerfifo.Contract.{IsOpen}
use mulle_fifo.Pointerfifo.Lifecycle.{init-Represents, after_done}
use mulle_fifo.Pointerfifo.Refusals.{IsRefused, init_outcome}
use mulle_fifo.Pointerfifo.Sequential.{IsFifo, each_call, calls_reply, drains_in_order}
use mulle_fifo.Pointerfifo.Concurrent.{linearizable, delivers}
use mulle_fifo.Pointerfifo.AsFixed.{as_fixed, calls-as_fixed}
use mulle_fifo.Pointerfifo.NullCalls.{null_replies, tolerant_calls}
use mulle_fifo.Pointerfifo.Tolerant
use mulle_fifo.Spsc.{Turn, produce, consume, observe, producer_turn, turn, run, at_rest}
use mulle_fifo.Spsc.Linearizable.{Explained, Delivers}
use mulle_fifo.Spsc.WaitFree.{run-spends}
use mulle_fifo.Version.{
  get_version_major, get_version_minor, get_version_patch, get_version, check_allocator,
  check_thread, compiles, version_numbers,
}
use mulle_fifo.Tests.{
  lp64, lp64-IsPlatform, live, bump, bump-IsAllocator, empty_heap, four_cells, heap_after_init,
  garbage, Heap, fresh, fresh-IsFifo, wrapped, wrapped-IsFifo, fixed_fresh, fixed_fresh-IsFifo,
}

-- Both threads at once: two writes and a read in pieces.
abbrev schedule : List Turn
schedule =
    produce 9
    ∷ consume
    ∷ produce 0
    ∷ produce 0
    ∷ consume
    ∷ produce 0
    ∷ observe
    ∷ produce 0
    ∷ produce 0
    ∷ consume
    ∷ consume
    ∷ produce 3
    ∷ consume
    ∷ consume
    ∷ produce 0
    ∷ consume
    ∷ observe
    ∷ []

linearizable_example :
    Explained (ring lp64) (IsOpen 4) 4 (7 ∷ 8 ∷ []) (run (ring lp64) schedule (at_rest wrapped))
linearizable_example =
    linearizable lp64-IsPlatform 4 (omega arith) (omega arith) schedule wrapped (7 ∷ 8 ∷ [])
      wrapped-IsFifo (omega arith)

delivers_example : Delivers (ring lp64) (IsOpen 4) 4 (run (ring lp64) schedule (at_rest fresh))
delivers_example =
    delivers lp64-IsPlatform 4 (omega arith) (omega arith) schedule fresh fresh-IsFifo

linearizable_fixed_example :
    Explained
      (Fixed.ring lp64 4)
      (HasStorage 4)
      4
      []
      (run (Fixed.ring lp64 4) schedule (at_rest fixed_fresh))
linearizable_fixed_example =
    linearizable_fixed lp64-IsPlatform 4 (omega arith) (omega arith) schedule fixed_fresh []
      fixed_fresh-IsFifo tt

order_kept_example :
    Delivers
      (Fixed.ring lp64 4)
      (HasStorage 4)
      4
      (run (Fixed.ring lp64 4) schedule (at_rest fixed_fresh))
order_kept_example =
    order_kept lp64-IsPlatform 4 (omega arith) (omega arith) schedule fixed_fresh fixed_fresh-IsFifo

provided-KeepsContract_example :
    (map (λ h. h.size) (provided lp64) ≡ provided_sizes) × Each (KeepsContract lp64) (provided lp64)
provided-KeepsContract_example = provided-KeepsContract lp64-IsPlatform

each_call_example :
    ((p' : Pointerfifo ℕ) × (write lp64 5 wrapped ≡ ok ((enqueue 4 5 (7 ∷ 8 ∷ [])).0, p'))
      × IsFifo lp64 4 p' (enqueue 4 5 (7 ∷ 8 ∷ [])).1)
    × ((p' : Pointerfifo ℕ) × (read lp64 wrapped ≡ ok ((dequeue (7 ∷ 8 ∷ [])).0, p'))
        × IsFifo lp64 4 p' (dequeue (7 ∷ 8 ∷ [])).1)
each_call_example =
    each_call lp64-IsPlatform 4 (omega arith) (omega arith) 5 wrapped (7 ∷ 8 ∷ []) wrapped-IsFifo

abbrev a_few_calls : List Call
a_few_calls =
    write_call 5 ∷ read_call ∷ write_call 0 ∷ write_call 6 ∷ write_call 4 ∷ count_call ∷ []

calls_reply_example :
    (p' : Pointerfifo ℕ) × (calls (write lp64) (read lp64) (get_count lp64) a_few_calls wrapped
      ≡ ok ((replies 4 (7 ∷ 8 ∷ []) a_few_calls).0, p'))
    × IsFifo lp64 4 p' (replies 4 (7 ∷ 8 ∷ []) a_few_calls).1
calls_reply_example =
    calls_reply lp64-IsPlatform 4 (omega arith) (omega arith) a_few_calls wrapped (7 ∷ 8 ∷ [])
      wrapped-IsFifo

drains_in_order_example :
    (p' : Pointerfifo ℕ) × (calls
        (write lp64)
        (read lp64)
        (get_count lp64)
        (fill_and_drain (3 ∷ 1 ∷ 2 ∷ []))
        fresh
      ≡ ok (in_order (3 ∷ 1 ∷ 2 ∷ []), p'))
    × IsFifo lp64 4 p' []
drains_in_order_example =
    drains_in_order lp64-IsPlatform 4 (omega arith) (omega arith) (3 ∷ 1 ∷ 2 ∷ []) fresh
      fresh-IsFifo (omega arith) (omega arith)

init-Represents_example :
    (p' : Pointerfifo ℕ) × (init lp64 bump garbage 4 0 empty_heap ≡ ok (p', heap_after_init))
    × Represents (ring lp64) (IsOpen 4) 4 p' []
    × (p'.storage ≡ some four_cells)
    × (p'.allocator ≡ 0)
init-Represents_example =
    init-Represents lp64-IsPlatform bump-IsAllocator garbage 4 0 empty_heap heap_after_init
      four_cells (omega arith)
      (record { at_least = omega arith; is_uint = omega arith; fits = omega arith }) refl

init_outcome_example :
    ((init lp64 bump garbage 1 0 empty_heap ≡ err aborted) × IsRefused lp64 bump 1 0 empty_heap)
    ⊎ ((p' : Pointerfifo ℕ) × (h' : Heap) × (init lp64 bump garbage 1 0 empty_heap ≡ ok (p', h'))
        × (¬ IsRefused lp64 bump 1 0 empty_heap)
        × ((done lp64 bump p' h').0.storage ≡ none)
        × ((i : ℕ) → live (done lp64 bump p' h').1 i ≡ live empty_heap i))
init_outcome_example = init_outcome lp64-IsPlatform bump-IsAllocator garbage 1 0 empty_heap

after_done_example :
    (done lp64 bump
        (done lp64 bump wrapped heap_after_init).0
        (done lp64 bump wrapped heap_after_init).1
      ≡ done lp64 bump wrapped heap_after_init)
    × ((get_count lp64 wrapped ≡ 4)
        ⊎ (write lp64 5 (done lp64 bump wrapped heap_after_init).0 ≡ err undefined))
    × ((get_count lp64 wrapped ≡ 0)
        ⊎ (read lp64 (done lp64 bump wrapped heap_after_init).0 ≡ err undefined))
after_done_example = after_done lp64 bump wrapped heap_after_init 5 (omega arith)

run-spends_example : (6 + 0 ≤ 6 * 1 + 0) × (0 + 0 ≤ 5 * 0 + 0)
unfolding run turn producer_turn get_count Dynamic.remainder Dynamic.store Dynamic.advance_write
    Dynamic.increment
run-spends_example =
    run-spends (ring lp64)
      (produce 9 ∷ produce 0 ∷ produce 0 ∷ produce 0 ∷ produce 0 ∷ produce 0 ∷ []) (at_rest fresh)
      refl

calls-as_fixed_example :
    calls
      (Fixed.write lp64 4)
      (Fixed.read lp64 4)
      (Fixed.get_count lp64)
      a_few_calls
      (as_fixed wrapped)
    ≡ map_result
        (λ (es, p'). (es, as_fixed p'))
        (calls (write lp64) (read lp64) (get_count lp64) a_few_calls wrapped)
calls-as_fixed_example = calls-as_fixed lp64 a_few_calls wrapped _ refl (omega arith)

tolerant_calls_example :
    (calls (Tolerant.write lp64) (Tolerant.read lp64) (Tolerant.get_count lp64) a_few_calls none
      ≡ ok (null_replies a_few_calls, none))
    × (calls
          (Tolerant.write lp64)
          (Tolerant.read lp64)
          (Tolerant.get_count lp64)
          a_few_calls
          (some wrapped)
        ≡ map_result
            (λ (es, p'). (es, some p'))
            (calls (write lp64) (read lp64) (get_count lp64) a_few_calls wrapped))
tolerant_calls_example = tolerant_calls lp64 a_few_calls wrapped

version_numbers_example :
    ((get_version_major (2 ^ 32) ≡ 0)
      × (get_version_minor (2 ^ 32) ≡ 1)
      × (get_version_patch (2 ^ 32) ≡ 9)
      × (get_version_major (2 ^ 32) * 2 ^ 20
            + get_version_minor (2 ^ 32) * 2 ^ 8
            + get_version_patch (2 ^ 32)
          ≡ get_version))
    × ((check_allocator (some 9437195) none none ≡ compiles) ↔ (9437195 / 2 ^ 20 ≡ 9))
    × ((check_thread (some 9437195) none none ≡ compiles)
        ↔ ((9437195 / 2 ^ 20 ≡ 4) × (11 ≤ 9437195 / 2 ^ 8 % 2 ^ 12)))
version_numbers_example = version_numbers (2 ^ 32) 9437195 (omega arith)
