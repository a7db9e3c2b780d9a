-- ===== src/Singlethread/Plays.antt =====
-- What the statements of test/10-singlethread find on a queue.
use mulle_fifo.Common.{
  ℕ, zero, suc, ◌+◌, ◌≤◌, ◌<◌, ◌≡◌, ◌≢◌, refl, ap, ◌∙◌, List, [], ◌∷◌, ◌++◌, map, ℤ, pos, negsuc,
  true, ◌==◌, length, arith, length-append,
}
use mulle_fifo.Queue.{Queue, enqueue, dequeue, stored_code, full_code, null_code}
use mulle_fifo.Queue.Trace.{Event, wrote, got, counted}
use mulle_fifo.Queue.Replies.{Call, write_call, read_call, count_call, enqueue_room}
use mulle_fifo.Singlethread.{
  Statement, checked, shown, shown_and_checked, call_of, statement_call, is_expected, same_code,
  count_failure, show, note, Tally, range, interleave,
}
use mathlib.Core.List.{append_assoc, append-nil}

abbrev pub reply : ℕ → Call → Queue → Event × Queue
reply size (write_call x) q = (wrote x (enqueue size x q).0, (enqueue size x q).1)
reply size read_call q = (got (dequeue q).0, (dequeue q).1)
reply size count_call q = (counted (length q), q)

-- The tally on the queue, and the queue that is left.
unfoldable pub plays : ℕ → List Statement → Tally → Queue → Tally × Queue
plays size [] v q = (v, q)
plays size (s ∷ ss) v q =
    plays size ss (note s (reply size (statement_call s) q).0 v) (reply size (statement_call s) q).1

==_self : (a : ℕ) → (a == a) ≡ true
==_self a = ground arith

code_self : (c : ℤ) → same_code c c ≡ true
code_self (pos a) = ==_self a
code_self (negsuc a) = ==_self a

expected_self : (e : Event) → is_expected e e ≡ true
expected_self (wrote x code) = code_self code
expected_self (got x) = ==_self x
expected_self (counted n) = ==_self n

count_failure_met : (e : Event) (v : Tally) → count_failure e e v ≡ v
unfolding count_failure
count_failure_met e v = rw (expected_self e) refl

pub length-range : (i n : ℕ) → length (range i n) ≡ n
length-range i zero = refl
length-range i (suc n) = rw (length-range (i + 1) n) refl

pub range-end : (i n : ℕ) → range i n ++ ((i + n) ∷ []) ≡ i ∷ range (i + 1) n
range-end i zero = ap (λ j. j ∷ []) (omega arith)
range-end i (suc n) =
    ap (λ js. i ∷ js) (ap (λ j. range (i + 1) n ++ (j ∷ [])) (omega arith) ∙ range-end (i + 1) n)

enqueue_full :
    (size x : ℕ) (q : Queue) → x ≢ 0 → length q ≡ size → enqueue size x q ≡ (full_code, q)
unfolding enqueue
enqueue_full size x q n h = ground arith

module _ (size : ℕ) where
  -- A reply that was expected.
  pub plays-met :
      (e : Event) (ss : List Statement) (v : Tally) (q q' : Queue)
      → reply size (call_of e) q ≡ (e, q')
      → plays size (checked e ∷ ss) v q ≡ plays size ss v q'
  unfolding plays note
  plays-met e ss v q q' h = rw (h, count_failure_met e v) refl

  pub plays-show_met :
      (e : Event) (ss : List Statement) (v : Tally) (q q' : Queue)
      → reply size (call_of e) q ≡ (e, q')
      → plays size (shown_and_checked e ∷ ss) v q ≡ plays size ss (show e v) q'
  unfolding plays note
  plays-show_met e ss v q q' h = rw (h, count_failure_met e (show e v)) refl

  pub plays-end : (v : Tally) (q : Queue) → plays size [] v q ≡ (v, q)
  unfolding plays
  plays-end v q = refl

  pub plays-shown :
      (c : Call) (e : Event) (ss : List Statement) (v : Tally) (q q' : Queue)
      → reply size c q ≡ (e, q')
      → plays size (shown c ∷ ss) v q ≡ plays size ss (show e v) q'
  unfolding plays note
  plays-shown c e ss v q q' h = rw h refl

  pub counted_met : (n : ℕ) (q : Queue) → length q ≡ n → reply size count_call q ≡ (counted n, q)
  counted_met n q h = rw h refl

  pub plays-count :
      (n : ℕ) (ss : List Statement) (v : Tally) (q : Queue)
      → length q ≡ n
      → plays size (shown count_call ∷ ss) v q ≡ plays size ss (show (counted n) v) q
  plays-count n ss v q h = plays-shown count_call (counted n) ss v q q (counted_met n q h)

  pub stored_met :
      (x : ℕ) (q : Queue)
      → x ≢ 0
      → suc (length q) ≤ size
      → reply size (write_call x) q ≡ (wrote x stored_code, q ++ (x ∷ []))
  stored_met x q n h = rw (enqueue_room size x q n h) refl

  pub full_met :
      (x : ℕ) (q : Queue)
      → x ≢ 0
      → length q ≡ size
      → reply size (write_call x) q ≡ (wrote x full_code, q)
  full_met x q n h = rw (enqueue_full size x q n h) refl

  pub got_met : (x : ℕ) (q : Queue) → reply size read_call (x ∷ q) ≡ (got x, q)
  unfolding dequeue
  got_met x q = refl

  pub plays-fill :
      (i n : ℕ) (ss : List Statement) (v : Tally) (q : Queue)
      → 0 < i
      → length q + n ≤ size
      → plays size (map (λ j. checked (wrote j stored_code)) (range i n) ++ ss) v q
        ≡ plays size ss v (q ++ range i n)
  plays-fill i zero ss v q above h = rw (append-nil q) refl
  plays-fill i (suc n) ss v q above h =
      plays-met _ _ v q _ (stored_met i q (omega (arith, above)) (omega (arith, h)))
      ∙ plays-fill (i + 1) n ss v (q ++ (i ∷ [])) (omega arith)
          (omega (arith, h, length-append q (i ∷ [])))
      ∙ ap (plays size ss v) (append_assoc q (i ∷ []) (range (i + 1) n))

  pub plays-drain :
      (i n : ℕ) (ss : List Statement) (v : Tally) (q : Queue)
      → plays size (map (λ j. checked (got j)) (range i n) ++ ss) v (range i n ++ q)
        ≡ plays size ss v q
  plays-drain i zero ss v q = refl
  plays-drain i (suc n) ss v q =
      plays-met (got i) _ v _ _ (got_met i _) ∙ plays-drain (i + 1) n ss v q

  pub plays-interleave :
      (i n : ℕ) (ss : List Statement) (v : Tally)
      → 0 < i
      → 0 < size
      → plays size (interleave (range i n) ++ ss) v [] ≡ plays size ss v []
  unfolding interleave
  plays-interleave i zero ss v above room = refl
  plays-interleave i (suc n) ss v above room =
      plays-met _ _ v [] _ (stored_met i [] (omega (arith, above)) (omega (arith, room)))
      ∙ plays-met (got i) _ v _ _ (got_met i [])
      ∙ plays-interleave (i + 1) n ss v (omega arith) room

  pub null_met : (q : Queue) → reply size (write_call 0) q ≡ (wrote 0 null_code, q)
  unfolding enqueue
  null_met q = refl

  pub none_met : reply size read_call [] ≡ (got 0, [])
  unfolding dequeue
  none_met = refl
