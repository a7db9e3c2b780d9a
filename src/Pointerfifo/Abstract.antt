-- ===== src/Pointerfifo/Abstract.antt =====
-- The dynamic FIFO seen from outside: what its calls reply, and nothing of how it is stored.
use mulle_fifo.Common.{
  ℕ, ◌<◌, ◌≡◌, ◌↔◌, refl, sym, ap, ◌∙◌, List, [], ◌∷◌, Result, ok, map_result, map, length,
  replicate, arith,
}
use mulle_fifo.Platform.{Platform, IsPlatform}
use mulle_fifo.Queue.{Queue}
use mulle_fifo.Queue.Trace.{Event, got, counted}
use mulle_fifo.Queue.Replies.{Call, read_call, count_call, replies, replies-drain}
use mulle_fifo.Ring.Calls.{calls}
use mulle_fifo.Pointerfifo.{Pointerfifo, read, write, get_count}
use mulle_fifo.Pointerfifo.Sequential.{IsFifo, calls_reply}

module _ {Cell : Type 0} (pl : Platform Cell) where
  -- What a client sees of a FIFO: the replies to its calls.
  abbrev pub observed : Pointerfifo Cell → List Call → Result (List Event)
  observed p cs = map_result (λ r. r.0) (calls (write pl) (read pl) (get_count pl) cs p)

  abbrev pub LooksLike : Pointerfifo Cell → Pointerfifo Cell → Type 0
  LooksLike p p' = (cs : List Call) → observed p cs ≡ observed p' cs

-- Ask for the count, then read as often as that.
abbrev pub count_and_drain : ℕ → List Call
count_and_drain n = count_call ∷ replicate n read_call

ok_inj : {a b : List Event} → ◌≡◌ {A = Result (List Event)} (ok a) (ok b) → a ≡ b
ok_inj e = cc e

got_inj : (q q' : Queue) → map got q ≡ map got q' → q ≡ q'
got_inj [] [] e = refl
got_inj [] (x ∷ q') e = cc
got_inj (x ∷ q) [] e = cc
got_inj (x ∷ q) (y ∷ q') e = cc (got_inj q q' (ground (arith, e)))

replies-count_and_drain :
    (size : ℕ) (q : Queue)
    → (replies size q (count_and_drain (length q))).0 ≡ counted (length q) ∷ map got q
unfolding replies
replies-count_and_drain size q = rw (replies-drain size q) refl

-- Two queues with the same replies are one.
replies_inj :
    (size : ℕ) (q q' : Queue)
    → ((cs : List Call) → (replies size q cs).0 ≡ (replies size q' cs).0)
    → q ≡ q'
unfolding replies
replies_inj size q q' h =
    let e = sym (replies-count_and_drain size q) ∙ h (count_and_drain (length q)) in
    let same : length q ≡ length q' = cc e in
    let both =
      e
      ∙ ap (λ n. (replies size q' (count_and_drain n)).0) same
      ∙ replies-count_and_drain size q' in
    got_inj q q' (cc both)

module _ {Cell : Type 0} {pl : Platform Cell} (laws : IsPlatform pl) (size : ℕ) (above : 0 < size)
    (fits : size < pl.uint_mod) where
  observed-replies :
      (p : Pointerfifo Cell) (q : Queue) (cs : List Call)
      → IsFifo pl size p q
      → observed pl p cs ≡ ok (replies size q cs).0
  observed-replies p q cs h =
      let (p', e, _) = calls_reply laws size above fits cs p q h in rw e refl

  -- Of two dynamic FIFOs of one size (above 0 and countable by an unsigned int), with no call
  -- under way, every sequence of writes, reads and counts gets the same replies if and only if
  -- they hold the same queue: neither the position of the indices nor what the other slots hold
  -- can be seen, and the whole queue can.
  pub full_abstraction :
      (p p' : Pointerfifo Cell) (q q' : Queue)
      → IsFifo pl size p q
      → IsFifo pl size p' q'
      → LooksLike pl p p' ↔ (q ≡ q')
  full_abstraction p p' q q' h h' = (
    λ same.
        replies_inj size q q'
          (λ cs. ok_inj (sym (observed-replies p q cs h) ∙ same cs ∙ observed-replies p' q' cs h')),
    λ e cs.
        observed-replies p q cs h
        ∙ ap (λ l. ok (replies size l cs).0) e
        ∙ sym (observed-replies p' q' cs h'),
  )
