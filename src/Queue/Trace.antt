-- ===== src/Queue/Trace.antt =====
-- Traces of completed calls, and when an atomic queue explains them.
use mulle_fifo.Common.{
  ℕ, zero, suc, ◌≤◌, ◌≡◌, ◌≢◌, ◌∙◌, ap, List, [], ◌∷◌, ◌++◌, ℤ, pos, negsuc, length, ◌==◌,
  if◌then◌else◌, arith, length-append,
}
use mulle_fifo.Queue.{Queue, enqueue, dequeue}
use mathlib.Core.List.{append_assoc, append-nil}

-- A completed call, with its argument and its result.
pub data Event : Type 0 where
  wrote : ℕ → ℤ → Event
  got : ℕ → Event
  counted : ℕ → Event

-- The calls `es`, made one after another on a queue that holds `q`, return just these results
-- and leave it with `q'`.
abbrev pub Conforms : ℕ → Queue → List Event → Queue → Type 0
Conforms size q [] q' = q ≡ q'
Conforms size q (wrote x c ∷ es) q' =
    (c ≡ (enqueue size x q).0) × Conforms size (enqueue size x q).1 es q'
Conforms size q (got x ∷ es) q' = (x ≡ (dequeue q).0) × Conforms size (dequeue q).1 es q'
Conforms size q (counted n ∷ es) q' = (n ≡ length q) × Conforms size q es q'

-- The pointers of the writes that returned 0, and those that reads returned, in order.
abbrev pub accepted : List Event → List ℕ
accepted [] = []
accepted (wrote x (pos zero) ∷ es) = x ∷ accepted es
accepted (wrote x (pos (suc c)) ∷ es) = accepted es
accepted (wrote x (negsuc c) ∷ es) = accepted es
accepted (got x ∷ es) = accepted es
accepted (counted n ∷ es) = accepted es

abbrev pub received : List Event → List ℕ
received [] = []
received (wrote x c ∷ es) = received es
received (got x ∷ es) = let rest = received es in if x == 0 then rest else x ∷ rest
received (counted n ∷ es) = received es

-- NULL is not in the queue.
abbrev pub HasNoNull : Queue → Type 0
HasNoNull [] = Unit {0}
HasNoNull (x ∷ q) = (x ≢ 0) × HasNoNull q

pub Conforms-append :
    (size : ℕ) (q : Queue) (es : List Event) (q' : Queue) (fs : List Event) (q'' : Queue)
    → Conforms size q es q'
    → Conforms size q' fs q''
    → Conforms size q (es ++ fs) q''
Conforms-append size q [] q' fs q'' h k = rw h k
Conforms-append size q (wrote x c ∷ es) q' fs q'' h k =
    (h.0, Conforms-append size (enqueue size x q).1 es q' fs q'' h.1 k)
Conforms-append size q (got x ∷ es) q' fs q'' h k =
    (h.0, Conforms-append size (dequeue q).1 es q' fs q'' h.1 k)
Conforms-append size q (counted n ∷ es) q' fs q'' h k =
    (h.0, Conforms-append size q es q' fs q'' h.1 k)

pub HasNoNull-append : (q : Queue) (x : ℕ) → HasNoNull q → x ≢ 0 → HasNoNull (q ++ (x ∷ []))
HasNoNull-append [] x h n = (n, tt)
HasNoNull-append (y ∷ q) x h n = (h.0, HasNoNull-append q x h.1 n)

pub HasNoNull-enqueue : (size x : ℕ) (q : Queue) → HasNoNull q → HasNoNull (enqueue size x q).1
unfolding enqueue
HasNoNull-enqueue size x q h = ground (arith, HasNoNull-append q x h)

pub accepted-wrote :
    (size x : ℕ) (c : ℤ) (q : Queue) (es : List Event)
    → c ≡ (enqueue size x q).0
    → q ++ accepted (wrote x c ∷ es) ≡ (enqueue size x q).1 ++ accepted es
unfolding enqueue
accepted-wrote size x c q es h = ground (arith, append_assoc q (x ∷ []) (accepted es))

length-enqueue : (size x : ℕ) (q : Queue) → length q ≤ size → length (enqueue size x q).1 ≤ size
unfolding enqueue
length-enqueue size x q h = ground (arith, length-append q (x ∷ []))

-- First in, first out: what was in the queue and what the writes added comes out in that order,
-- and the rest is still there.
pub received-accepted :
    (size : ℕ) (q : Queue) (es : List Event) (q' : Queue)
    → HasNoNull q
    → Conforms size q es q'
    → q ++ accepted es ≡ received es ++ q'
unfolding dequeue
received-accepted size q [] q' n h = append-nil q ∙ h
received-accepted size q (wrote x c ∷ es) q' n h =
    accepted-wrote size x c q es h.0
    ∙ received-accepted size (enqueue size x q).1 es q' (HasNoNull-enqueue size x q n) h.1
received-accepted size [] (got x ∷ es) q' n h =
    ground (arith, received-accepted size [] es q' n h.1)
received-accepted size (y ∷ q) (got x ∷ es) q' n h =
    ground (arith, received-accepted size q es q' n.1 h.1)
received-accepted size q (counted k ∷ es) q' n h = received-accepted size q es q' n h.1

-- The queue never holds more than `size` pointers.
pub length-le-size :
    (size : ℕ) (q : Queue) (es : List Event) (q' : Queue)
    → length q ≤ size
    → Conforms size q es q'
    → length q' ≤ size
unfolding dequeue
length-le-size size q [] q' n h = omega (arith, ap length h)
length-le-size size q (wrote x c ∷ es) q' n h =
    length-le-size size (enqueue size x q).1 es q' (length-enqueue size x q n) h.1
length-le-size size [] (got x ∷ es) q' n h = length-le-size size [] es q' n h.1
length-le-size size (y ∷ q) (got x ∷ es) q' n h = length-le-size size q es q' (omega arith) h.1
length-le-size size q (counted k ∷ es) q' n h = length-le-size size q es q' n h.1
