-- ===== src/Queue.antt =====
-- The promise of a FIFO: a queue of at most `cap` pointers, oldest first, whose operations are
-- atomic. The contract is that of README.md and dox/API_POINTERFIFO.md.
pub mod Trace
pub mod Excuses
pub mod Replies
pub mod Promises
use mulle_fifo.Common.{
  ℕ, suc, ◌<◌, ◌≤◌, ◌≡◌, List, [], ◌∷◌, ◌++◌, ℤ, pos, negsuc, ◌==◌, if◌then◌else◌, length,
}

abbrev pub Queue : Type 0
Queue = List ℕ

-- The return codes of a write: 0, -1 for a full FIFO and -2 for NULL.
abbrev pub stored_code : ℤ
stored_code = pos 0

abbrev pub full_code : ℤ
full_code = negsuc 0

abbrev pub null_code : ℤ
null_code = negsuc 1

unfoldable pub enqueue : ℕ → ℕ → Queue → ℤ × Queue
enqueue cap x q =
    if x == 0
    then (null_code, q)
    else if length q == cap
    then (full_code, q)
    else (stored_code, q ++ (x ∷ []))

-- An empty queue yields NULL.
unfoldable pub dequeue : Queue → ℕ × Queue
dequeue [] = (0, [])
dequeue (x ∷ q) = (x, q)
