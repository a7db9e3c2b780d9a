-- ===== src/Queue/Excuses.antt =====
-- Traces in which a call may fail without need: a write as if the queue were full, and a read as
-- if it were empty.
use mulle_fifo.Common.{ℕ, ◌≡◌, ◌⊎◌, inl, inr, ◌∙◌, List, [], ◌∷◌, ◌++◌, length, arith}
use mulle_fifo.Queue.{Queue, full_code, enqueue, dequeue}
use mulle_fifo.Queue.Trace.{
  Event, wrote, got, counted, Conforms, accepted, received, HasNoNull, HasNoNull-enqueue,
  accepted-wrote,
}
use mathlib.Core.List.{append-nil}

abbrev pub Allows : ℕ → Queue → List Event → Queue → Type 0
Allows size q [] q' = q ≡ q'
Allows size q (wrote x c ∷ es) q' =
    ((c ≡ (enqueue size x q).0) × Allows size (enqueue size x q).1 es q')
    ⊎ ((c ≡ full_code) × Allows size q es q')
Allows size q (got x ∷ es) q' =
    ((x ≡ (dequeue q).0) × Allows size (dequeue q).1 es q') ⊎ ((x ≡ 0) × Allows size q es q')
Allows size q (counted n ∷ es) q' = (n ≡ length q) × Allows size q es q'

pub Conforms-Allows :
    (size : ℕ) (q : Queue) (es : List Event) (q' : Queue)
    → Conforms size q es q'
    → Allows size q es q'
Conforms-Allows size q [] q' h = h
Conforms-Allows size q (wrote x c ∷ es) q' h =
    inl (h.0, Conforms-Allows size (enqueue size x q).1 es q' h.1)
Conforms-Allows size q (got x ∷ es) q' h = inl (h.0, Conforms-Allows size (dequeue q).1 es q' h.1)
Conforms-Allows size q (counted n ∷ es) q' h = (h.0, Conforms-Allows size q es q' h.1)

pub Allows-append :
    (size : ℕ) (q : Queue) (es : List Event) (q' : Queue) (fs : List Event) (q'' : Queue)
    → Allows size q es q'
    → Allows size q' fs q''
    → Allows size q (es ++ fs) q''
Allows-append size q [] q' fs q'' h k = rw h k
Allows-append size q (wrote x c ∷ es) q' fs q'' (inl (e, h)) k =
    inl (e, Allows-append size (enqueue size x q).1 es q' fs q'' h k)
Allows-append size q (wrote x c ∷ es) q' fs q'' (inr (e, h)) k =
    inr (e, Allows-append size q es q' fs q'' h k)
Allows-append size q (got x ∷ es) q' fs q'' (inl (e, h)) k =
    inl (e, Allows-append size (dequeue q).1 es q' fs q'' h k)
Allows-append size q (got x ∷ es) q' fs q'' (inr (e, h)) k =
    inr (e, Allows-append size q es q' fs q'' h k)
Allows-append size q (counted n ∷ es) q' fs q'' h k = (h.0, Allows-append size q es q' fs q'' h.1 k)

-- The order of the pointers is that of the queue all the same.
pub received-accepted_excused :
    (size : ℕ) (q : Queue) (es : List Event) (q' : Queue)
    → HasNoNull q
    → Allows size q es q'
    → q ++ accepted es ≡ received es ++ q'
unfolding dequeue
received-accepted_excused size q [] q' n h = append-nil q ∙ h
received-accepted_excused size q (wrote x c ∷ es) q' n (inl (e, h)) =
    accepted-wrote size x c q es e
    ∙ received-accepted_excused size (enqueue size x q).1 es q' (HasNoNull-enqueue size x q n) h
received-accepted_excused size q (wrote x c ∷ es) q' n (inr (e, h)) =
    rw e (received-accepted_excused size q es q' n h)
received-accepted_excused size [] (got x ∷ es) q' n (inl (e, h)) =
    ground (arith, received-accepted_excused size [] es q' n h)
received-accepted_excused size (y ∷ q) (got x ∷ es) q' n (inl (e, h)) =
    ground (arith, received-accepted_excused size q es q' n.1 h)
received-accepted_excused size q (got x ∷ es) q' n (inr (e, h)) =
    rw e (received-accepted_excused size q es q' n h)
received-accepted_excused size q (counted k ∷ es) q' n h =
    received-accepted_excused size q es q' n h.1
