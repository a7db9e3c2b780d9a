-- ===== src/Queue/Replies.antt =====
-- What a queue replies to a sequence of whole calls.
use mulle_fifo.Common.{
  ℕ, suc, ◌+◌, ◌≤◌, ◌≡◌, ◌≢◌, refl, ◌∙◌, List, [], ◌∷◌, ◌++◌, map, length, replicate, arith,
  length-append,
}
use mulle_fifo.Queue.{Queue, enqueue, dequeue, stored_code}
use mulle_fifo.Queue.Trace.{Event, wrote, got, counted, Conforms, HasNoNull}
use mathlib.Core.List.{append_assoc, append-nil}

pub data Call : Type 0 where
  write_call : ℕ → Call
  read_call : Call
  count_call : Call

-- The replies, and the queue that is left.
unfoldable pub replies : ℕ → Queue → List Call → List Event × Queue
replies size q [] = ([], q)
replies size q (write_call x ∷ cs) =
    let (code, q') = enqueue size x q in
    let (es, q'') = replies size q' cs in (wrote x code ∷ es, q'')
replies size q (read_call ∷ cs) =
    let (x, q') = dequeue q in let (es, q'') = replies size q' cs in (got x ∷ es, q'')
replies size q (count_call ∷ cs) = let (es, q') = replies size q cs in (counted (length q) ∷ es, q')

pub replies-Conforms :
    (size : ℕ) (q : Queue) (cs : List Call)
    → Conforms size q (replies size q cs).0 (replies size q cs).1
unfolding replies
replies-Conforms size q [] = refl
replies-Conforms size q (write_call x ∷ cs) = (refl, replies-Conforms size (enqueue size x q).1 cs)
replies-Conforms size q (read_call ∷ cs) = (refl, replies-Conforms size (dequeue q).1 cs)
replies-Conforms size q (count_call ∷ cs) = (refl, replies-Conforms size q cs)

-- Writing all of `xs`, then reading as often.
abbrev pub fill_and_drain : List ℕ → List Call
fill_and_drain xs = map write_call xs ++ replicate (length xs) read_call

abbrev pub in_order : List ℕ → List Event
in_order xs = map (λ x. wrote x stored_code) xs ++ map got xs

pub replies-drain :
    (size : ℕ) (q : Queue) → replies size q (replicate (length q) read_call) ≡ (map got q, [])
unfolding replies dequeue
replies-drain size [] = refl
replies-drain size (x ∷ q) = rw (replies-drain size q)

pub enqueue_room :
    (size x : ℕ) (q : Queue)
    → x ≢ 0
    → suc (length q) ≤ size
    → enqueue size x q ≡ (stored_code, q ++ (x ∷ []))
unfolding enqueue
enqueue_room size x q n h = ground arith

pub replies-fill :
    (size : ℕ) (xs q : Queue) (cs : List Call)
    → HasNoNull xs
    → length q + length xs ≤ size
    → replies size q (map write_call xs ++ cs) ≡ (
      map (λ x. wrote x stored_code) xs ++ (replies size (q ++ xs) cs).0,
      (replies size (q ++ xs) cs).1,
    )
unfolding replies
replies-fill size [] q cs n h = rw (append-nil q)
replies-fill size (x ∷ xs) q cs n h = rw (
  enqueue_room size x q n.0 (omega arith),
  replies-fill size xs (q ++ (x ∷ [])) cs n.1 (omega (arith, length-append q (x ∷ []))),
  append_assoc q (x ∷ []) xs,
)

-- As long as they fit, all pointers are taken and come out again in their order.
pub replies-fill_and_drain :
    (size : ℕ) (xs : List ℕ)
    → HasNoNull xs
    → length xs ≤ size
    → replies size [] (fill_and_drain xs) ≡ (in_order xs, [])
replies-fill_and_drain size xs n h =
    replies-fill size xs [] (replicate (length xs) read_call) n (omega arith)
    ∙ rw (replies-drain size xs)
