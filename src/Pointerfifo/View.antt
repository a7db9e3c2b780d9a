-- ===== src/Pointerfifo/View.antt =====
-- The quotient of the states of the dynamic FIFO by what their calls reply.
use mulle_fifo.Common.{ℕ, ◌<◌, ◌≤◌, ◌≡◌, refl, [], ◌∷◌, ◌++◌, map, length, arith}
use mathlib.Core.Path.{subst}
use mathlib.Core.HLevel.{Σ_prop_path, Σ_set, ×_prop, prop→set}
use mathlib.Core.List
use mathlib.Core.List.{append-nil}
use mathlib.Core.Equiv.{◌≃◌, Iso, iso_to_equiv}
use mathlib.Core.Quot
use mathlib.Core.Quot.{Quot, Quot-set}
use native.Mathlib.Bridge.{le_prop}
use native.Mathlib.Nat.{ℕ_set}
use mulle_fifo.Platform.{Platform, IsPlatform}
use mulle_fifo.Queue.{Queue}
use mulle_fifo.Queue.Trace.{HasNoNull}
use mulle_fifo.Queue.Replies.{write_call, replies, replies-fill}
use mulle_fifo.Pointerfifo.{Pointerfifo}
use mulle_fifo.Pointerfifo.Sequential.{IsFifo, calls_reply}
use mulle_fifo.Pointerfifo.Abstract.{LooksLike, full_abstraction}

-- An open FIFO with no call under way.
abbrev pub Idle : {Cell : Type 0} → Platform Cell → ℕ → Type 0
Idle {Cell} pl size = (p : Pointerfifo Cell) × (q : Queue) × IsFifo pl size p q × HasNoNull q

-- What such a FIFO is, for a client.
abbrev pub Seen : {Cell : Type 0} → Platform Cell → ℕ → Type 0
Seen pl size = Quot {α = Idle pl size} (λ s t. LooksLike pl s.0 t.0)

-- A list of at most `size` pointers.
abbrev pub Fits : ℕ → Queue → Type 0
Fits size q = (length q ≤ size) × HasNoNull q

abbrev pub Contents : ℕ → Type 0
Contents size = (q : Queue) × Fits size q

abbrev pub contents : {Cell : Type 0} (pl : Platform Cell) (size : ℕ) → Idle pl size → Contents size
contents pl size s = (s.1, (s.2.1.bound, s.3))

HasNoNull-prop : (q : Queue) → IsProp (HasNoNull q)
HasNoNull-prop [] = hlevel
HasNoNull-prop (x ∷ q) = ×_prop (hlevel) (HasNoNull-prop q)

Fits-prop : (size : ℕ) (q : Queue) → IsProp (Fits size q)
Fits-prop size q = ×_prop le_prop (HasNoNull-prop q)

Contents-ext : (size : ℕ) (a b : Contents size) → a.0 ≡ b.0 → a ≡ b
Contents-ext size a b e = Σ_prop_path {B = Fits size} (Fits-prop size) e

Contents-set : (size : ℕ) → IsSet (Contents size)
Contents-set size = Σ_set (List.is_set ℕ_set) (λ q. prop→set (Fits-prop size q))

module _ {Cell : Type 0} {pl : Platform Cell} (laws : IsPlatform pl) (size : ℕ) (above : 0 < size)
    (fits : size < pl.uint_mod) where
  seen_contents : Seen pl size → Contents size
  seen_contents = Quot.lift (Contents-set size) (contents pl size) (λ s t h.
      Contents-ext size _ _ ((full_abstraction laws size above fits s.0 t.0 s.1 t.1 s.2 t.2).0 h))

  -- The FIFO into which the pointers were written.
  filled : (p : Pointerfifo Cell) → IsFifo pl size p [] → (c : Contents size) → Idle pl size
  unfolding replies
  filled p h (q, (bound, no_null)) =
      let (p', _, h') = calls_reply laws size above fits (map write_call q ++ []) p [] h in
      let e = replies-fill size q [] [] no_null (omega (arith, bound)) in
      (p', q, subst (λ r. IsFifo pl size p' r.1) e h', no_null)

  seen_iso : (p : Pointerfifo Cell) → IsFifo pl size p [] → Iso (Seen pl size) (Contents size)
  unfolding seen_contents filled
  seen_iso p h = record {
    fun = seen_contents;
    inv = λ c. Quot.mk (filled p h c);
    rinv = λ c. Contents-ext size _ c refl;
    linv =
        Quot.ind (λ s. Quot-set _ _)
          (λ s. Quot.sound (
            (full_abstraction laws size above fits _ s.0 _ s.1 (filled p h (contents pl size s)).2
                s.2).1
              refl));
  }

  -- If there is an empty dynamic FIFO of a size above 0 that an unsigned int can count, then the
  -- quotient of all FIFOs of that size with no call under way and without NULL by the replies to
  -- their calls is equivalent to the lists of at most that many pointers other than NULL, by the
  -- map that takes a FIFO to the queue that it holds.
  pub seen_queue :
      (p : Pointerfifo Cell)
      → IsFifo pl size p []
      → (e : Seen pl size ≃ Contents size) × ((s : Idle pl size)
          → e.0 (Quot.mk s) ≡ contents pl size s)
  unfolding seen_iso seen_contents
  seen_queue p h = (iso_to_equiv (seen_iso p h), λ s. refl)
