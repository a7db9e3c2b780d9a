-- ===== src/Ring/Calls.antt =====
-- A sequence of whole calls, as one thread makes them (test/10-singlethread).
use mulle_fifo.Common.{
  inl, inr, err, map_result, Result-cases, ℕ, ◌<◌, ◌≡◌, refl, List, [], ◌∷◌, ℤ, Result, ok, ◌>>=◌,
}
use mulle_fifo.Queue.{Queue, enqueue, dequeue}
use mulle_fifo.Queue.Trace.{Event, wrote, got, counted}
use mulle_fifo.Queue.Replies.{Call, write_call, read_call, count_call, replies}
use mulle_fifo.Ring.{Ring, IsRing}
use mulle_fifo.Ring.Contents.{get_count-Holds}
use mulle_fifo.Ring.Sequential.{read, write, Represents, write_refines, read_refines}

-- The calls of a client on the functions `write`, `read` and `get_count` of a FIFO.
module _ {F : Type 0} (write' : ℕ → F → Result (ℤ × F)) (read' : F → Result (ℕ × F))
    (get_count' : F → ℕ) where
  unfoldable pub calls : List Call → F → Result (List Event × F)
  calls [] f = ok ([], f)
  calls (write_call x ∷ cs) f = do
    (code, f') ← write' x f
    (es, f'') ← calls cs f'
    ok (wrote x code ∷ es, f'')
  calls (read_call ∷ cs) f = do
    (pointer, f') ← read' f
    (es, f'') ← calls cs f'
    ok (got pointer ∷ es, f'')
  calls (count_call ∷ cs) f = do (es, f') ← calls cs f; ok (counted (get_count' f) ∷ es, f')

map-cons :
    {F G : Type 0} (φ : F → G) (ev : Event) (m : Result (List Event × F))
    → ◌>>=◌ {B = List Event × G} (map_result (λ (es, f). (es, φ f)) m) (λ (es, g). ok (ev ∷ es, g))
      ≡ map_result
          (λ (es, f). (es, φ f))
          (◌>>=◌ {B = List Event × F} m (λ (es, f). ok (ev ∷ es, f)))
map-cons φ ev (ok a) = refl
map-cons φ ev (err e) = refl

-- Of two implementations the second does on `φ f` what the first does on `f`, while `f` is `Good`.
pub record Simulates {F G : Type 0} (write₁ : ℕ → F → Result (ℤ × F)) (read₁ : F → Result (ℕ × F))
    (get_count₁ : F → ℕ) (write₂ : ℕ → G → Result (ℤ × G)) (read₂ : G → Result (ℕ × G))
    (get_count₂ : G → ℕ) (φ : F → G) (Good : F → Type 0) : Type 0 where
  pub write_same :
      (x : ℕ) (f : F) → Good f → write₂ x (φ f) ≡ map_result (λ (c, f'). (c, φ f')) (write₁ x f)
  pub write_good : (x : ℕ) (f : F) (a : ℤ × F) → Good f → write₁ x f ≡ ok a → Good a.1
  pub read_same : (f : F) → Good f → read₂ (φ f) ≡ map_result (λ (x, f'). (x, φ f')) (read₁ f)
  pub read_good : (f : F) (a : ℕ × F) → Good f → read₁ f ≡ ok a → Good a.1
  pub count_same : (f : F) → Good f → get_count₂ (φ f) ≡ get_count₁ f

module _ {F G : Type 0} {write₁ : ℕ → F → Result (ℤ × F)} {read₁ : F → Result (ℕ × F)}
    {get_count₁ : F → ℕ} {write₂ : ℕ → G → Result (ℤ × G)} {read₂ : G → Result (ℕ × G)}
    {get_count₂ : G → ℕ} {φ : F → G} {Good : F → Type 0}
    (s : Simulates write₁ read₁ get_count₁ write₂ read₂ get_count₂ φ Good) where
  -- Then every sequence of calls returns the same, its faults included.
  pub calls-map :
      (cs : List Call) (f : F)
      → Good f
      → calls write₂ read₂ get_count₂ cs (φ f)
        ≡ map_result (λ (es, f'). (es, φ f')) (calls write₁ read₁ get_count₁ cs f)
  unfolding calls
  calls-map [] f g = refl
  calls-map (write_call x ∷ cs) f g = elim (Result-cases (write₁ x f)) [
    | inl (a, e) ↦
        rw (s.write_same x f g, e, ◌>>=◌, calls-map cs a.1 (s.write_good x f a g e))
          (map-cons φ _ _)
    | inr (_, e) ↦ rw (s.write_same x f g, e)
  ]
  calls-map (read_call ∷ cs) f g = elim (Result-cases (read₁ f)) [
    | inl (a, e) ↦
        rw (s.read_same f g, e, ◌>>=◌, calls-map cs a.1 (s.read_good f a g e)) (map-cons φ _ _)
    | inr (_, e) ↦ rw (s.read_same f g, e)
  ]
  calls-map (count_call ∷ cs) f g = rw (calls-map cs f g, s.count_same f g) (map-cons φ _ _)

module _ {F : Type 0} {r : Ring F} {size : ℕ} {Good : F → Type 0} (ring : IsRing r size Good)
    (above : 0 < size) where
  -- Every sequence of calls is defined and returns what the queue returns.
  pub calls_refine :
      (cs : List Call) (f : F) (q : Queue)
      → Represents r Good size f q
      → (f' : F) × (calls (write r) (read r) r.get_count cs f ≡ ok ((replies size q cs).0, f'))
        × Represents r Good size f' (replies size q cs).1
  unfolding calls replies
  calls_refine [] f q h = (f, refl, h)
  calls_refine (write_call x ∷ cs) f q h =
      let (f', e, h') = write_refines ring above x f q h in
      let (f'', e', h'') = calls_refine cs f' (enqueue size x q).1 h' in
      (f'', rw (e, ◌>>=◌, e'), h'')
  calls_refine (read_call ∷ cs) f q h =
      let (f', e, h') = read_refines ring above f q h in
      let (f'', e', h'') = calls_refine cs f' (dequeue q).1 h' in (f'', rw (e, ◌>>=◌, e'), h'')
  calls_refine (count_call ∷ cs) f q h =
      let (f', e, h') = calls_refine cs f q h in (f', rw (e, get_count-Holds ring above h.1), h')
