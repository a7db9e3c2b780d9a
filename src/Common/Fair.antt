-- ===== src/Common/Fair.antt =====
-- Threads that take turns: if every turn leaves less to do or waits for another thread, and the
-- threads never all wait, then rounds in which every thread acts bring them all to their ends.
use Prim.Native.Nat.{ℕ, zero, suc, ◌≤◌, ◌<◌}
use mathlib.Core.Path.{◌≡◌, refl, ap, ◌∙◌}
use mathlib.Core.Logic.{◌⊎◌, inl, inr}
use mathlib.Core.List.{List, [], ◌∷◌, ◌++◌}
use native.Mathlib.Omega.{arith}
use mulle_fifo.Common.Results.{Result, ok, ◌>>=◌, >>=-eq-ok}

-- `S` are states, `T` turns and `D` threads.
module _ {S T : Type 0} (step : T → S → Result S) where
  unfoldable pub schedule : List T → S → Result S
  schedule [] s = ok s
  schedule (t ∷ ts) s = do s' ← step t s; schedule ts s'

  pub schedule-append :
      (ts us : List T) (s s' : S) → schedule ts s ≡ ok s' → schedule (ts ++ us) s ≡ schedule us s'
  unfolding schedule
  schedule-append [] us s s' e = ap (schedule us) (ok_inj s s' e)
    where
      ok_inj : (a b : S) → ok a ≡ ok b → a ≡ b
      ok_inj a b e = cc e
  schedule-append (t ∷ ts) us s s' e =
      let (s₁, turn, later) = >>=-eq-ok (step t s) _ e in
      rw turn (schedule-append ts us s₁ s' later)

-- The thread `d` acts in one of the turns.
abbrev pub HasTurn : {T D : Type 0} → (D → T → Type 0) → D → List T → Type 0
HasTurn Acts d [] = ⊥
HasTurn Acts d (t ∷ ts) = Acts d t ⊎ HasTurn Acts d ts

-- The schedule starts with `k` rounds in which every thread acts.
abbrev pub HasRounds : {T D : Type 0} → (D → T → Type 0) → ℕ → List T → Type 0
HasRounds Acts zero ts = Unit {0}
HasRounds {T} {D} Acts (suc k) ts =
    (round : List T) × (rest : List T) × (ts ≡ round ++ rest)
    × ((d : D) → HasTurn Acts d round)
    × HasRounds Acts k rest

module _ {S T D : Type 0} (step : T → S → Result S) (Good : S → Type 0) (rank : S → ℕ)
    (Stuck : D → S → Type 0) (Acts : D → T → Type 0) where
  -- Less is left to do, or the threads that acted were stuck and who is stuck stays the same.
  abbrev pub Progress : (D → Type 0) → S → S → Type 0
  Progress Acted s s' =
      (rank s' < rank s)
      ⊎ ((rank s' ≡ rank s) × ((d : D) → Acted d → Stuck d s) × ((d : D) → Stuck d s' → Stuck d s))

  pub record Keeps (Acted : D → Type 0) (s : S) (out : Result S) : Type 0 where
    pub after : S
    pub returns : out ≡ ok after
    pub good : Good after
    pub progress : Progress Acted s after

  abbrev pub AllKeep : Type 0
  AllKeep = (t : T) (s : S) → Good s → Keeps (λ d. Acts d t) s (step t s)

  Progress-next :
      (t : T) (ts : List T) (s s' s'' : S)
      → Progress (λ d. Acts d t) s s'
      → Progress (λ d. HasTurn Acts d ts) s' s''
      → Progress (λ d. HasTurn Acts d (t ∷ ts)) s s''
  Progress-next t ts s s' s'' (inl less) (inl less') = inl (omega (arith, less, less'))
  Progress-next t ts s s' s'' (inl less) (inr (same, _, _)) = inl (omega (arith, less, same))
  Progress-next t ts s s' s'' (inr (same, _, _)) (inl less) = inl (omega (arith, less, same))
  Progress-next t ts s s' s'' (inr (same, acted, back)) (inr (same', acted', back')) =
      inr (same' ∙ same, acts, λ d h. back d (back' d h))
    where
      acts : (d : D) → HasTurn Acts d (t ∷ ts) → Stuck d s
      acts d (inl now) = acted d now
      acts d (inr later) = back d (acted' d later)

  pub schedule-Keeps :
      (ts : List T) (s : S)
      → AllKeep
      → Good s
      → Keeps (λ d. HasTurn Acts d ts) s (schedule step ts s)
  unfolding schedule
  schedule-Keeps [] s all g = record {
    after = s;
    returns = refl;
    good = g;
    progress = inr (refl, (λ d h. absurd h), λ d h. h);
  }
  schedule-Keeps (t ∷ ts) s all g =
      let a = all t s g in
      let b = schedule-Keeps ts a.after all a.good in
      record {
        after = b.after;
        returns = rw (a.returns) (b.returns);
        good = b.good;
        progress = Progress-next t ts s a.after b.after a.progress b.progress;
      }

  -- A round in which every thread acts leaves less to do.
  round-rank :
      (round : List T) (k : ℕ) (s s' : S)
      → (((d : D) → Stuck d s) → rank s ≡ 0)
      → ((d : D) → HasTurn Acts d round)
      → rank s ≤ suc k
      → Progress (λ d. HasTurn Acts d round) s s'
      → rank s' ≤ k
  round-rank round k s s' free acts bound (inl less) = omega (arith, bound, less)
  round-rank round k s s' free acts bound (inr (same, stuck, _)) =
      omega (arith, same, free (λ d. stuck d (acts d)))

  -- The schedule is defined, and nothing is left to do after it.
  pub record Ends (out : Result S) : Type 0 where
    pub after : S
    pub returns : out ≡ ok after
    pub good : Good after
    pub done : rank after ≡ 0

  pub rounds-Ends :
      (k : ℕ) (ts : List T) (s : S)
      → AllKeep
      → ((s : S) → Good s → ((d : D) → Stuck d s) → rank s ≡ 0)
      → Good s
      → rank s ≤ k
      → HasRounds Acts k ts
      → Ends (schedule step ts s)
  rounds-Ends zero ts s all free g bound h =
      let a = schedule-Keeps ts s all g in
      record {
        after = a.after;
        returns = a.returns;
        good = a.good;
        done = elim (a.progress) [
          | inl less ↦ absurd (omega (arith, less, bound))
          | inr (same, _, _) ↦ omega (arith, same, bound)
        ];
      }
  rounds-Ends (suc k) ts s all free g bound (round, rest, cut, acts, h) =
      let a = schedule-Keeps round s all g in
      let b =
        rounds-Ends k rest a.after all free a.good
          (round-rank round k s a.after (free s g) acts bound a.progress) h in
      record {
        after = b.after;
        returns = rw cut (schedule-append step round rest s a.after a.returns ∙ b.returns);
        good = b.good;
        done = b.done;
      }
