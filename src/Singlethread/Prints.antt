-- ===== src/Singlethread/Prints.antt =====
-- What simple.c and simple-64.c print.
use mulle_fifo.Common.{
  ℕ, zero, suc, ◌+◌, ◌≡◌, refl, ap, sym, ◌∙◌, List, [], ◌∷◌, ◌++◌, map, length, arith,
  length-append,
}
use mulle_fifo.Queue.{Queue, stored_code, full_code}
use mulle_fifo.Queue.Trace.{Event, wrote, got, counted}
use mulle_fifo.Queue.Replies.{write_call, read_call, count_call}
use mulle_fifo.Singlethread.{Statement, shown, show, Tally, range, simple, shown_writes, clean}
use mulle_fifo.Singlethread.Plays.{
  plays, plays-shown, plays-end, counted_met, stored_met, full_met, got_met, none_met,
}
use mathlib.Core.List.{append_assoc, append-nil}

-- From the write of `i + 1` on, `n` writes are accepted and one is refused, each followed by the
-- count.
abbrev pub writes_shown : ℕ → ℕ → List Event
writes_shown i zero = wrote (i + 1) full_code ∷ counted i ∷ []
writes_shown i (suc n) = wrote (i + 1) stored_code ∷ counted (i + 1) ∷ writes_shown (i + 1) n

-- The pointers from `i` on come out, `n` in all, and then NULL.
abbrev pub reads_shown : ℕ → ℕ → List Event
reads_shown i zero = got 0 ∷ []
reads_shown i (suc n) = got i ∷ reads_shown (i + 1) n

abbrev showing : List Event → Tally → Tally
showing es v = record v { printed = v.printed ++ es }

showing-show :
    (e : Event) (es : List Event) (v : Tally) → showing es (show e v) ≡ showing (e ∷ es) v
showing-show e es v = rw (append_assoc v.printed (e ∷ []) es) refl

module _ (size : ℕ) where
  plays-writes :
      (i n : ℕ) (rest : List Statement) (v : Tally) (q : Queue)
      → length q ≡ i
      → i + n ≡ size
      → plays size (shown_writes (range i (suc n)) rest) v q
        ≡ plays size rest (showing (writes_shown i n) v) (q ++ range (i + 1) n)
  unfolding shown_writes
  plays-writes i zero rest v q h k =
      plays-shown size (write_call (i + 1)) _ _ v q q
        (full_met size (i + 1) q (omega arith) (omega (arith, h, k)))
      ∙ plays-shown size count_call _ _ _ q q (counted_met size i q h)
      ∙ ap (λ w. plays size rest w q) (showing-show (wrote (i + 1) full_code) (counted i ∷ []) v)
      ∙ ap (plays size rest (showing (writes_shown i zero) v)) (sym (append-nil q))
  plays-writes i (suc n) rest v q h k =
      let longer : length (q ++ ((i + 1) ∷ [])) ≡ i + 1 =
        omega (arith, h, length-append q ((i + 1) ∷ [])) in
      plays-shown size (write_call (i + 1)) _ _ v q (q ++ ((i + 1) ∷ []))
        (stored_met size (i + 1) q (omega arith) (omega (arith, h, k)))
      ∙ plays-shown size count_call _ _ _ (q ++ ((i + 1) ∷ [])) _
          (counted_met size (i + 1) _ longer)
      ∙ plays-writes (i + 1) n rest _ (q ++ ((i + 1) ∷ [])) longer (omega (arith, k))
      ∙ ap (λ w. plays size rest w ((q ++ ((i + 1) ∷ [])) ++ range (i + 1 + 1) n))
          (showing-show (counted (i + 1)) (writes_shown (i + 1) n)
              (show (wrote (i + 1) stored_code) v)
            ∙ showing-show (wrote (i + 1) stored_code) (counted (i + 1) ∷ writes_shown (i + 1) n) v)
      ∙ ap (plays size rest (showing (writes_shown i (suc n)) v))
          (append_assoc q ((i + 1) ∷ []) (range (i + 1 + 1) n))

  plays-reads :
      (j i n : ℕ) (v : Tally)
      → plays size (map (λ k. shown read_call) (range j (suc n))) v (range i n)
        ≡ (showing (reads_shown i n) v, [])
  plays-reads j i zero v =
      plays-shown size read_call _ [] v [] [] (none_met size) ∙ plays-end size _ []
  plays-reads j i (suc n) v =
      plays-shown size read_call (got i) _ v _ (range (i + 1) n) (got_met size i _)
      ∙ plays-reads (j + 1) (i + 1) n (show (got i) v)
      ∙ ap (λ w. (w, [])) (showing-show (got i) (reads_shown (i + 1) n) v)

  pub plays-simple :
      plays size (simple size) clean []
      ≡ (record { failures = 0; printed = writes_shown 0 size ++ reads_shown 1 size }, [])
  unfolding simple
  plays-simple =
      let one_more : size + 1 ≡ suc size = omega arith in
      rw one_more (
        plays-writes 0 size _ clean [] refl (omega arith)
        ∙ plays-reads 0 1 size (showing (writes_shown 0 size) clean))
