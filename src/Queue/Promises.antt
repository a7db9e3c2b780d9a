-- ===== src/Queue/Promises.antt =====
-- What the number of queued pointers promises of the calls that complete later.
use mulle_fifo.Common.{
  ℕ, zero, suc, ◌+◌, ◌≤◌, ◌≡◌, ◌≢◌, List, [], ◌∷◌, length, arith, length-append,
}
use mulle_fifo.Queue.{Queue, enqueue, dequeue, stored_code, null_code}
use mulle_fifo.Queue.Trace.{Event, wrote, got, counted, Conforms, HasNoNull, HasNoNull-append}

-- The first `n` reads return pointers.
abbrev pub Yields : ℕ → List Event → Type 0
Yields zero es = Unit {0}
Yields (suc n) [] = Unit {0}
Yields (suc n) (got x ∷ es) = (x ≢ 0) × Yields n es
Yields (suc n) (wrote x c ∷ es) = Yields (suc n) es
Yields (suc n) (counted k ∷ es) = Yields (suc n) es

-- The first `n` writes of pointers that are not NULL return 0.
abbrev pub Accepts : ℕ → List Event → Type 0
Accepts zero es = Unit {0}
Accepts (suc n) [] = Unit {0}
Accepts (suc n) (got x ∷ es) = Accepts (suc n) es
Accepts (suc n) (wrote zero c ∷ es) = Accepts (suc n) es
Accepts (suc n) (wrote (suc x) c ∷ es) = (c ≡ stored_code) × Accepts n es
Accepts (suc n) (counted k ∷ es) = Accepts (suc n) es

HasNoNull-enqueue : (size x : ℕ) (q : Queue) → HasNoNull q → HasNoNull (enqueue size x q).1
unfolding enqueue
HasNoNull-enqueue size x q h = ground (arith, HasNoNull-append q x h)

length-enqueue_above : (size x : ℕ) (q : Queue) → length q ≤ length (enqueue size x q).1
unfolding enqueue
length-enqueue_above size x q = ground (arith, length-append q (x ∷ []))

enqueue_null : (size : ℕ) (q : Queue) → enqueue size 0 q ≡ (null_code, q)
unfolding enqueue
enqueue_null size q = ground arith

enqueue_pointer :
    (size x n : ℕ) (q : Queue)
    → suc n + length q ≤ size
    → ((enqueue size (suc x) q).0 ≡ stored_code) × (n + length (enqueue size (suc x) q).1 ≤ size)
unfolding enqueue
enqueue_pointer size x n q h = ground (arith, length-append q (suc x ∷ []))

pub Conforms-Yields :
    (size n : ℕ) (q : Queue) (es : List Event) (q' : Queue)
    → HasNoNull q
    → n ≤ length q
    → Conforms size q es q'
    → Yields n es
unfolding dequeue
Conforms-Yields size zero q es q' h le c = tt
Conforms-Yields size (suc n) q [] q' h le c = tt
Conforms-Yields size (suc n) q (wrote x k ∷ es) q' h le c =
    Conforms-Yields size (suc n) (enqueue size x q).1 es q' (HasNoNull-enqueue size x q h)
      (omega (arith, length-enqueue_above size x q)) c.1
Conforms-Yields size (suc n) [] (got x ∷ es) q' h le c = absurd (omega arith)
Conforms-Yields size (suc n) (y ∷ q) (got x ∷ es) q' h le c =
    (rw (c.0) h.0, Conforms-Yields size n q es q' h.1 (omega arith) c.1)
Conforms-Yields size (suc n) q (counted k ∷ es) q' h le c =
    Conforms-Yields size (suc n) q es q' h le c.1

length-dequeue : (q : Queue) → length (dequeue q).1 ≤ length q
unfolding dequeue
length-dequeue [] = omega arith
length-dequeue (x ∷ q) = omega arith

pub Conforms-Accepts :
    (size n : ℕ) (q : Queue) (es : List Event) (q' : Queue)
    → n + length q ≤ size
    → Conforms size q es q'
    → Accepts n es
Conforms-Accepts size zero q es q' le c = tt
Conforms-Accepts size (suc n) q [] q' le c = tt
Conforms-Accepts size (suc n) q (wrote zero k ∷ es) q' le c =
    Conforms-Accepts size (suc n) q es q' le (rw (enqueue_null size q) at c.1)
Conforms-Accepts size (suc n) q (wrote (suc x) k ∷ es) q' le c =
    let (stored, room) = enqueue_pointer size x n q le in
    (rw (c.0) stored, Conforms-Accepts size n (enqueue size (suc x) q).1 es q' room c.1)
Conforms-Accepts size (suc n) q (got x ∷ es) q' le c =
    Conforms-Accepts size (suc n) (dequeue q).1 es q' (omega (arith, length-dequeue q)) c.1
Conforms-Accepts size (suc n) q (counted k ∷ es) q' le c =
    Conforms-Accepts size (suc n) q es q' le c.1
