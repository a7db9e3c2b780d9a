-- ===== src/Singlethread/Contract.antt =====
-- contract.c and contract-64.c on a queue count no failure.
use mulle_fifo.Common.{
  ℕ, zero, suc, ◌+◌, ◌<◌, ◌≡◌, refl, sym, ap, ◌∙◌, List, [], ◌∷◌, ◌++◌, map, length, arith,
}
use mulle_fifo.Queue.{stored_code, full_code, null_code}
use mulle_fifo.Queue.Trace.{Event, wrote, got, counted}
use mulle_fifo.Queue.Replies.{count_call}
use mulle_fifo.Singlethread.{
  Statement, checked, shown, shown_and_checked, show, Tally, range, contract, clean,
}
use mathlib.Core.List.{append-nil}
use mulle_fifo.Singlethread.Plays.{
  plays, plays-met, plays-show_met, plays-count, plays-end, counted_met, stored_met, full_met,
  got_met, null_met, none_met, plays-fill, plays-drain, plays-interleave, range-end, length-range,
}

-- What contract.c and contract-64.c print.
abbrev pub contract_prints : ℕ → List Event
contract_prints size =
    wrote 0 null_code
    ∷ counted 0
    ∷ counted size
    ∷ wrote (size + 1) full_code
    ∷ counted size
    ∷ got 0
    ∷ counted 0
    ∷ counted 0
    ∷ []

range-last : (k : ℕ) → range 2 k ++ ((suc k + 1) ∷ []) ≡ range 2 (suc k) ++ []
range-last k =
    ap (λ j. range 2 k ++ (j ∷ [])) (omega arith)
    ∙ range-end 2 k
    ∙ sym (append-nil (range 2 (suc k)))

-- The part of the program from the full FIFO on.
plays-from_full :
    (k : ℕ) (ss : List Statement) (v : Tally)
    → plays
        (suc k)
        (shown count_call
          ∷ checked (counted (suc k))
          ∷ shown_and_checked (wrote (suc k + 1) full_code)
          ∷ shown count_call
          ∷ checked (counted (suc k))
          ∷ checked (got 1)
          ∷ checked (wrote (suc k + 1) stored_code)
          ∷ (map (λ i. checked (got i)) (range 2 (suc k)) ++ ss))
        v
        (range 1 (suc k))
      ≡ plays
          (suc k)
          ss
          (show (counted (suc k)) (show (wrote (suc k + 1) full_code) (show (counted (suc k)) v)))
          []
plays-from_full k ss v =
    let full : length (range 1 (suc k)) ≡ suc k = length-range 1 (suc k) in
    plays-count (suc k) (suc k) _ v _ full
    ∙ plays-met (suc k) _ _ _ _ _ (counted_met (suc k) (suc k) _ full)
    ∙ plays-show_met (suc k) _ _ _ _ _ (full_met (suc k) (suc k + 1) _ (omega arith) full)
    ∙ plays-count (suc k) (suc k) _ _ _ full
    ∙ plays-met (suc k) _ _ _ _ _ (counted_met (suc k) (suc k) _ full)
    ∙ plays-met (suc k) _ _ _ _ _ (got_met (suc k) 1 _)
    ∙ plays-met (suc k) _ _ _ _ _
        (stored_met (suc k) (suc k + 1) (range 2 k) (omega arith) (omega (arith, length-range 2 k)))
    ∙ ap (plays (suc k) _ _) (range-last k)
    ∙ plays-drain (suc k) 2 (suc k) ss _ []

plays-from_first :
    (k passes : ℕ) (last : List Statement)
    → ((v : Tally) (ss : List Statement) → plays (suc k) (last ++ ss) v [] ≡ plays (suc k) ss v [])
    → plays (suc k) (contract (suc k) passes last) clean []
      ≡ (record { failures = 0; printed = contract_prints (suc k) }, [])
unfolding contract
plays-from_first k passes last skips =
    plays-show_met (suc k) _ _ clean [] [] (null_met (suc k) [])
    ∙ plays-count (suc k) 0 _ _ [] refl
    ∙ plays-met (suc k) _ _ _ [] [] (counted_met (suc k) 0 [] refl)
    ∙ plays-fill (suc k) 1 (suc k) _ _ [] (omega arith) (omega arith)
    ∙ plays-from_full k _ _
    ∙ plays-show_met (suc k) _ _ _ [] [] (none_met (suc k))
    ∙ plays-count (suc k) 0 _ _ [] refl
    ∙ skips _ _
    ∙ plays-interleave (suc k) 1 passes _ _ (omega arith) (omega arith)
    ∙ plays-count (suc k) 0 _ _ [] refl
    ∙ plays-met (suc k) _ _ _ [] [] (counted_met (suc k) 0 [] refl)
    ∙ plays-end (suc k) _ []

-- On a queue with room for at least one pointer the program counts no failure.
pub plays-contract :
    (size passes : ℕ) (last : List Statement)
    → 0 < size
    → ((v : Tally) (ss : List Statement) → plays size (last ++ ss) v [] ≡ plays size ss v [])
    → plays size (contract size passes last) clean []
      ≡ (record { failures = 0; printed = contract_prints size }, [])
plays-contract zero passes last above skips = elim above [ ]
plays-contract (suc k) passes last above skips = plays-from_first k passes last skips

-- The comparison that contract-64.c leaves out.
pub plays-empty_count :
    (size : ℕ) (v : Tally) (ss : List Statement)
    → plays size (checked (counted 0) ∷ ss) v [] ≡ plays size ss v []
plays-empty_count size v ss = plays-met size (counted 0) ss v [] [] (counted_met size 0 [] refl)
