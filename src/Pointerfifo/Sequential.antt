-- ===== src/Pointerfifo/Sequential.antt =====
-- Whole calls of the dynamic FIFO: a bounded queue.
use mulle_fifo.Common.{ℕ, ◌<◌, ◌≤◌, ◌≡◌, ap, ◌∙◌, List, [], ok, length}
use mulle_fifo.Platform.{Platform, IsPlatform}
use mulle_fifo.Queue.{Queue, enqueue, dequeue}
use mulle_fifo.Queue.Trace.{HasNoNull}
use mulle_fifo.Queue.Replies.{Call, replies, fill_and_drain, in_order, replies-fill_and_drain}
use mathlib.Core.Path.{subst}
use mulle_fifo.Ring.Sequential
use mulle_fifo.Ring.Sequential.{Represents, write_refines, read_refines}
use mulle_fifo.Ring.Calls.{calls, calls_refine}
use mulle_fifo.Pointerfifo.{Pointerfifo, read, write, get_count, ring}
use mulle_fifo.Pointerfifo.Contract.{IsOpen, ring-IsRing}

-- No call is under way, and the FIFO, of the given size, holds the queue.
abbrev pub IsFifo : {Cell : Type 0} → Platform Cell → ℕ → Pointerfifo Cell → Queue → Type 0
IsFifo pl size p q = Represents (ring pl) (IsOpen size) size p q

module _ {Cell : Type 0} {pl : Platform Cell} (laws : IsPlatform pl) (size : ℕ) (above : 0 < size)
    (fits : size < pl.uint_mod) where
  write_enqueues :
      (x : ℕ) (p : Pointerfifo Cell) (q : Queue)
      → IsFifo pl size p q
      → (p' : Pointerfifo Cell) × (write pl x p ≡ ok ((enqueue size x q).0, p'))
        × IsFifo pl size p' (enqueue size x q).1
  unfolding write Sequential.write
  write_enqueues = write_refines (ring-IsRing laws size above fits) above

  read_dequeues :
      (p : Pointerfifo Cell) (q : Queue)
      → IsFifo pl size p q
      → (p' : Pointerfifo Cell) × (read pl p ≡ ok ((dequeue q).0, p'))
        × IsFifo pl size p' (dequeue q).1
  unfolding read Sequential.read
  read_dequeues = read_refines (ring-IsRing laws size above fits) above

  -- On a dynamic FIFO that holds a queue (no call under way, the size above 0 and countable by an
  -- unsigned int) a write and a read are defined on every branch. A write returns -2 for NULL,
  -- else -1 if the queue has as many pointers as the size, else 0, and the FIFO then holds the
  -- queue with the pointer appended in the last case and the same queue in the others. A read
  -- returns the oldest pointer, and the FIFO then holds the rest, or it returns NULL if the queue
  -- is empty, and the FIFO then holds the empty queue.
  pub each_call :
      (x : ℕ) (p : Pointerfifo Cell) (q : Queue)
      → IsFifo pl size p q
      → ((p' : Pointerfifo Cell) × (write pl x p ≡ ok ((enqueue size x q).0, p'))
          × IsFifo pl size p' (enqueue size x q).1)
        × ((p' : Pointerfifo Cell) × (read pl p ≡ ok ((dequeue q).0, p'))
            × IsFifo pl size p' (dequeue q).1)
  each_call x p q h = (write_enqueues x p q h, read_dequeues p q h)

  -- Every sequence of writes, reads and counts on a dynamic FIFO that holds a queue (no call
  -- under way, the size above 0 and countable by an unsigned int) is defined, returns what the
  -- queue bounded by the size replies to the same calls, and leaves the FIFO holding the queue
  -- that is left.
  pub calls_reply :
      (cs : List Call) (p : Pointerfifo Cell) (q : Queue)
      → IsFifo pl size p q
      → (p' : Pointerfifo Cell) × (calls (write pl) (read pl) (get_count pl) cs p
          ≡ ok ((replies size q cs).0, p'))
        × IsFifo pl size p' (replies size q cs).1
  unfolding write read Sequential.write Sequential.read
  calls_reply = calls_refine (ring-IsRing laws size above fits) above

  -- Writing a list of pointers without NULL, no longer than the size, into an empty dynamic FIFO
  -- and then reading as often returns 0 for every write and the pointers in the order in which
  -- they were written, and leaves the FIFO empty (the size above 0 and countable by an unsigned
  -- int).
  pub drains_in_order :
      (xs : List ℕ) (p : Pointerfifo Cell)
      → IsFifo pl size p []
      → HasNoNull xs
      → length xs ≤ size
      → (p' : Pointerfifo Cell) × (calls (write pl) (read pl) (get_count pl) (fill_and_drain xs) p
          ≡ ok (in_order xs, p'))
        × IsFifo pl size p' []
  drains_in_order xs p h n l =
      let (p', e, h') = calls_reply (fill_and_drain xs) p [] h in
      let done = replies-fill_and_drain size xs n l in
      (p', e ∙ ap (λ d. ok (d.0, p')) done, subst (λ d. IsFifo pl size p' d.1) done h')
