-- ===== src/Spsc/Orders/Newest.antt =====
-- If every thread sees the newest values before each of its turns, the run is that of Spsc.
use mulle_fifo.Common.{
  ℕ, ◌≡◌, refl, ap, Option, none, some, List, [], ◌∷◌, ◌++◌, map, Result, ok, err, ◌>>=◌,
  map_result, inl, inr, Result-cases, arith, ◌∙◌,
}
use mulle_fifo.Queue.Trace.{Event}
use mulle_fifo.Ring.{Ring}
use mulle_fifo.Spsc.{
  Producer, Consumer, System, produce, consume, turn, run, producer_turn, consumer_turn,
}
use mulle_fifo.Spsc as Newest
use mulle_fifo.Spsc.Orders.{
  Order, Sight, Views, Turn, write_on, read_on, see_full, see_count, see_slots, write_turn,
  read_turn, view_turn, view_run,
}

-- A turn of the producer, with the pointer that it starts to write, or one of the consumer.
abbrev pub newest_turn : Option ℕ → Newest.Turn
newest_turn (some x) = produce x
newest_turn none = consume

abbrev pub looking : List (Option ℕ) → List Turn
looking [] = []
looking (some x ∷ ts) = see_full ∷ write_on x ∷ looking ts
looking (none ∷ ts) = see_count ∷ see_slots ∷ read_on ∷ looking ts

abbrev pub system_of : {F : Type 0} → List Event × Views F → List Event × System F
system_of (es, v) = (es, v.system)

module _ {F : Type 0} (r : Ring F) (sight : Sight F) (order : Order)
    (own_counter : (f : F) → sight.with_counter f f ≡ f)
    (own_slots : (f : F) → sight.with_slots f f ≡ f) where
  write_newest :
      (x : ℕ) (p : Producer) (v : Views F)
      → map_result system_of (write_turn r sight x p (record v { full_seen = v.system.fifo })) ≡ (do
        (es, p', f) ← producer_turn r x p v.system.fifo
        ok (es, record v.system { fifo = f; producer = p' }))
  unfolding write_turn producer_turn
  write_newest x Producer.outside v = refl
  write_newest x (Producer.entering y) v = ground arith
  write_newest x (Producer.testing y) v = rw (own_counter v.system.fifo) (ground arith)
  write_newest x (Producer.storing y) v = elim (Result-cases (r.store y v.system.fifo)) [
    | inl (f, e) ↦ rw e refl
    | inr (_, e) ↦ rw e refl
  ]
  write_newest x (Producer.stepping y) v = elim (Result-cases (r.advance_write v.system.fifo)) [
    | inl (f, e) ↦ rw e refl
    | inr (_, e) ↦ rw e refl
  ]
  write_newest x (Producer.counting y) v = refl

  read_newest :
      (c : Consumer) (v : Views F)
      → map_result system_of (
          read_turn r sight order c
            (record v { count_seen = v.system.fifo; slots_seen = v.system.fifo }))
        ≡ (do
          (es, c', f) ← consumer_turn r c v.system.fifo
          ok (es, record v.system { fifo = f; consumer = c' }))
  unfolding read_turn consumer_turn
  read_newest Consumer.outside v = refl
  read_newest Consumer.testing v = rw (own_counter v.system.fifo) (ground arith)
  read_newest Consumer.loading v =
      rw (own_slots v.system.fifo) (elim (Result-cases (r.load v.system.fifo)) [
        | inl (f, e) ↦ rw e refl
        | inr (_, e) ↦ rw e refl
      ])
  read_newest (Consumer.stepping y) v = elim (Result-cases (r.advance_read v.system.fifo)) [
    | inl (f, e) ↦ rw e refl
    | inr (_, e) ↦ rw e refl
  ]
  read_newest (Consumer.counting y) v = refl

  step_newest :
      (m : Result (List Event × Views F)) (k : Views F → Result (List Event × Views F))
      (k' : System F → Result (List Event × System F))
      → ((v : Views F) → map_result system_of (k v) ≡ k' v.system)
      → map_result system_of (do (es, v) ← m; (fs, v') ← k v; ok (es ++ fs, v'))
        ≡ (do (es, s) ← map_result system_of m; (fs, s') ← k' s; ok (es ++ fs, s'))
  step_newest (err e) k k' h = refl
  step_newest (ok (es, v)) k k' h =
      rw (← h v) (elim (Result-cases (k v)) [ inl (a, e) ↦ rw e refl | inr (_, e) ↦ rw e refl ])

  nothing_first :
      (m : Result (List Event × Views F))
      → ◌>>=◌ {B = List Event × Views F} m (λ (es, v). ok ([] ++ es, v)) ≡ m
  nothing_first (ok a) = refl
  nothing_first (err e) = refl

  abbrev after_turn :
      (System F → Result (List Event × System F))
      → Result (List Event × System F)
      → Result (List Event × System F)
  after_turn k m = do (es, s) ← m; (fs, s') ← k s; ok (es ++ fs, s')

  pub looking-run :
      (ts : List (Option ℕ)) (v : Views F)
      → map_result system_of (view_run r sight order (looking ts) v)
        ≡ run r (map newest_turn ts) v.system
  unfolding view_run view_turn run turn
  looking-run [] v = refl
  looking-run (some x ∷ ts) v =
      ap (map_result system_of) (nothing_first _)
      ∙ step_newest
          (write_turn r sight x v.system.producer (record v { full_seen = v.system.fifo }))
          (view_run r sight order (looking ts)) (run r (map newest_turn ts))
          (λ v'. looking-run ts v')
      ∙ ap (after_turn (run r (map newest_turn ts))) (write_newest x v.system.producer v)
  looking-run (none ∷ ts) v =
      ap (map_result system_of) (nothing_first _ ∙ nothing_first _)
      ∙ step_newest
          (read_turn r sight order v.system.consumer
            (record v { count_seen = v.system.fifo; slots_seen = v.system.fifo }))
          (view_run r sight order (looking ts)) (run r (map newest_turn ts))
          (λ v'. looking-run ts v')
      ∙ ap (after_turn (run r (map newest_turn ts))) (read_newest v.system.consumer v)
