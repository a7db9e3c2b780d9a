-- ===== src/Pointerfifo/Interleaving.antt =====
-- Which turns of the two threads of a dynamic FIFO may change places in a schedule.
use mathlib.Core.Path.{subst}
use mulle_fifo.Common.{
  >>=-eq-ok, ℕ, ◌<◌, ◌≡◌, ◌≢◌, ◌⊎◌, inl, inr, refl, sym, ap, ◌∙◌, List, [], ◌∷◌, ◌++◌, ok, Result,
}
use mulle_fifo.Platform.{Platform, IsPlatform}
use mulle_fifo.Spsc.{Producer, Consumer, System, Turn, produce, consume, run, turn, at_rest}
use mulle_fifo.Queue.Trace.{Event}
use mulle_fifo.Pointerfifo.{Pointerfifo, ring}
use mulle_fifo.Queue.{Queue}
use mulle_fifo.Queue.Trace.{HasNoNull}
use mulle_fifo.Spsc.Invariant.{Inv-at_rest}
use mulle_fifo.Spsc.Promises.{run-Apart}
use mulle_fifo.Pointerfifo.Contract.{ring-IsRing}
use mulle_fifo.Pointerfifo.Sequential.{IsFifo}
use mulle_fifo.Pointerfifo.Swap.{
  IsQuiet, IsSilent, producer_first, consumer_first, in_turn, in_other_turn, quiet_swaps,
  silent_swaps,
}

module _ {Cell : Type 0} (pl : Platform Cell) where
  next_swaps :
      (x : ℕ) (us : List Turn) (s : System (Pointerfifo Cell))
      → IsQuiet s.producer ⊎ IsSilent s.consumer
      → ((y : ℕ)
          → s.producer ≡ Producer.storing y
          → s.consumer ≡ Consumer.loading
          → s.fifo.write ≢ s.fifo.read)
      → run (ring pl) (produce x ∷ consume ∷ us) s ≡ run (ring pl) (consume ∷ produce x ∷ us) s
  next_swaps x us s i a =
      let same : producer_first pl x s.producer s.consumer s.fifo
          ≡ consumer_first pl x s.producer s.consumer s.fifo =
        elim i [
          | inl quiet ↦ quiet_swaps pl x s.producer s.consumer s.fifo quiet a
          | inr silent ↦ silent_swaps pl x s.producer s.consumer s.fifo silent a
        ] in
      rw (in_turn pl x us s, in_other_turn pl x us s, same) refl

  same_end :
      (es fs : List Event) (a b : System (Pointerfifo Cell))
      → ◌≡◌ {A = Result (List Event × System (Pointerfifo Cell))} (ok (es, a)) (ok (fs, b))
      → a ≡ b
  same_end es fs a b e = cc e

  run-same :
      (ts us us' : List Turn) (s s' : System (Pointerfifo Cell)) (es : List Event)
      → run (ring pl) ts s ≡ ok (es, s')
      → run (ring pl) us s' ≡ run (ring pl) us' s'
      → run (ring pl) (ts ++ us) s ≡ run (ring pl) (ts ++ us') s
  unfolding run
  run-same [] us us' s s' es e h =
      subst (λ t. run (ring pl) us t ≡ run (ring pl) us' t) (sym (same_end [] es s s' e)) h
  run-same (t ∷ ts) us us' s s' es e h =
      let ((fs, s₁), turn, later) = >>=-eq-ok (turn (ring pl) t s) _ e in
      let ((gs, s₂), rest, end) = >>=-eq-ok (run (ring pl) ts s₁) _ later in
      rw
        (
          turn,
          run-same ts us us' s₁ s' gs
              (rest ∙ ap (λ t. ok (gs, t)) (same_end (fs ++ gs) es s₂ s' end)) h,
        )
        refl

module _ {Cell : Type 0} {pl : Platform Cell} (laws : IsPlatform pl) (size : ℕ) (above : 0 < size)
    (fits : size < pl.uint_mod) where
  -- Let a dynamic FIFO of a size above 0 that an unsigned int can count hold a queue without
  -- NULL, with neither thread in a call. If after a schedule the next statement of the producer
  -- or that of the consumer is the start of a call, the access of a slot or the step of an index,
  -- then a turn of the producer and one of the consumer that follow may change places: the calls
  -- that complete, their order and results and the state at the end stay the same, whatever comes
  -- later. So only the accesses of the counter, the test for NULL and the ends of calls have an
  -- order that can be seen.
  pub turns_commute :
      (x : ℕ) (ts us : List Turn) (p : Pointerfifo Cell) (q : Queue) (es : List Event)
      (s : System (Pointerfifo Cell))
      → IsFifo pl size p q
      → HasNoNull q
      → run (ring pl) ts (at_rest p) ≡ ok (es, s)
      → IsQuiet s.producer ⊎ IsSilent s.consumer
      → run (ring pl) (ts ++ produce x ∷ consume ∷ us) (at_rest p)
        ≡ run (ring pl) (ts ++ consume ∷ produce x ∷ us) (at_rest p)
  turns_commute x ts us p q es s h n e i =
      let a =
        run-Apart (ring-IsRing laws size above fits) above ts (at_rest p) q (Inv-at_rest h n) in
      let same : a.after ≡ s = same_end pl a.events es a.after s (sym a.returns ∙ e) in
      run-same pl ts _ _ (at_rest p) s es e (
        next_swaps pl x us s i (
          subst
            (λ t.
              (y : ℕ)
              → t.producer ≡ Producer.storing y
              → t.consumer ≡ Consumer.loading
              → t.fifo.write ≢ t.fifo.read)
            same a.apart))
