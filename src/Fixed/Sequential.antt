-- ===== src/Fixed/Sequential.antt =====
-- Whole calls of a fixed FIFO: a bounded queue.
use mulle_fifo.Common.{ℕ, ◌<◌, ◌≤◌, ◌≡◌, ap, ◌∙◌, List, [], ok, length}
use mulle_fifo.Platform.{Platform, IsPlatform}
use mulle_fifo.Queue.{Queue, enqueue, dequeue}
use mulle_fifo.Queue.Trace.{HasNoNull}
use mulle_fifo.Queue.Replies.{Call, replies, fill_and_drain, in_order, replies-fill_and_drain}
use mathlib.Core.Path.{subst}
use mulle_fifo.Ring.Sequential
use mulle_fifo.Ring.Sequential.{Represents, write_refines, read_refines}
use mulle_fifo.Ring.Calls.{calls, calls_refine}
use mulle_fifo.Fixed.{FixedFifo, read, write, get_count, ring}
use mulle_fifo.Fixed.Contract.{HasStorage, ring-IsRing}

-- No call is under way, and the FIFO, of the given size, holds the queue.
abbrev pub IsFifo : {Cell : Type 0} → Platform Cell → ℕ → FixedFifo Cell → Queue → Type 0
IsFifo pl size p q = Represents (ring pl size) (HasStorage size) size p q

module _ {Cell : Type 0} {pl : Platform Cell} (laws : IsPlatform pl) (size : ℕ) (above : 0 < size)
    (fits : size < pl.uint_mod) where
  -- A write returns 0, -1 or -2 as the queue does, and appends the pointer in the first case only.
  pub write_enqueues :
      (x : ℕ) (p : FixedFifo Cell) (q : Queue)
      → IsFifo pl size p q
      → (p' : FixedFifo Cell) × (write pl size x p ≡ ok ((enqueue size x q).0, p'))
        × IsFifo pl size p' (enqueue size x q).1
  unfolding write Sequential.write
  write_enqueues = write_refines (ring-IsRing laws size above fits) above

  -- A read returns the oldest pointer and removes it, or NULL if there is none.
  pub read_dequeues :
      (p : FixedFifo Cell) (q : Queue)
      → IsFifo pl size p q
      → (p' : FixedFifo Cell) × (read pl size p ≡ ok ((dequeue q).0, p'))
        × IsFifo pl size p' (dequeue q).1
  unfolding read Sequential.read
  read_dequeues = read_refines (ring-IsRing laws size above fits) above

  -- Every sequence of calls returns what the queue returns.
  pub calls_reply :
      (cs : List Call) (p : FixedFifo Cell) (q : Queue)
      → IsFifo pl size p q
      → (p' : FixedFifo Cell) × (calls (write pl size) (read pl size) (get_count pl) cs p
          ≡ ok ((replies size q cs).0, p'))
        × IsFifo pl size p' (replies size q cs).1
  unfolding write read Sequential.write Sequential.read
  calls_reply = calls_refine (ring-IsRing laws size above fits) above

  -- Pointers that fit are all accepted, come out in order, and leave the FIFO empty.
  pub drains_in_order :
      (xs : List ℕ) (p : FixedFifo Cell)
      → IsFifo pl size p []
      → HasNoNull xs
      → length xs ≤ size
      → (p' : FixedFifo Cell) × (calls
            (write pl size)
            (read pl size)
            (get_count pl)
            (fill_and_drain xs)
            p
          ≡ ok (in_order xs, p'))
        × IsFifo pl size p' []
  drains_in_order xs p h n l =
      let (p', e, h') = calls_reply (fill_and_drain xs) p [] h in
      let done = replies-fill_and_drain size xs n l in
      (p', e ∙ ap (λ d. ok (d.0, p')) done, subst (λ d. IsFifo pl size p' d.1) done h')
