-- ===== src/Tests/Threads.antt =====
-- threads.c and threads-64.c with two numbers on FIFOs of four slots.
use mulle_fifo.Common.{ℕ, zero, suc, ◌≡◌, refl, inl, inr, List, [], ◌∷◌, arith}
use mulle_fifo.Common.Fair
use mulle_fifo.Pointerfifo.Lifecycle.{IsSize}
use mulle_fifo.Threads.{Pick, send_with, receive_with}
use mulle_fifo.Threads.Invariant.{Party, the_sender, the_receiver, Acts}
use mulle_fifo.Threads.Outcome.{Prints, PrintsAll}
use mulle_fifo.Threads.Correct.{
  threads, threads_fixed, closed_after_the_last, threads_end, threads_fixed_end,
}
use mulle_fifo.Tests.{
  lp64, lp64-IsPlatform, live, bump, bump-IsAllocator, garbage, empty_heap, heap_after_init,
  four_cells, fixed_fresh,
}

-- Both threads never sleep, and make their statements in turn.
abbrev awake : ℕ → List Pick
awake zero = []
awake (suc n) = send_with 0 ∷ receive_with 0 ∷ awake n

both_awake : (d : Party) → Fair.HasTurn Acts d (send_with 0 ∷ receive_with 0 ∷ [])
both_awake the_sender = inl (omega arith)
both_awake the_receiver = inr (inl (omega arith))

awake-HasRounds : (k : ℕ) → Fair.HasRounds Acts k (awake k)
awake-HasRounds zero = tt
awake-HasRounds (suc k) =
    (send_with 0 ∷ receive_with 0 ∷ [], awake k, refl, both_awake, awake-HasRounds k)

pub four-IsSize : IsSize lp64 4
four-IsSize = record { at_least = omega arith; is_uint = omega arith; fits = omega arith }

closed_after_the_last_example :
    Prints 2
      (λ g. (i : ℕ) → live g i ≡ live empty_heap i)
      (threads lp64 bump 2 4 garbage (awake 30) empty_heap)
closed_after_the_last_example =
    closed_after_the_last lp64-IsPlatform bump-IsAllocator 2 4 garbage (awake 30) empty_heap
      heap_after_init four_cells (omega arith) (omega arith) four-IsSize refl

threads_end_example :
    PrintsAll 2
      (λ g. (i : ℕ) → live g i ≡ live empty_heap i)
      (threads lp64 bump 2 4 garbage (awake 54) empty_heap)
threads_end_example =
    threads_end lp64-IsPlatform bump-IsAllocator 2 4 garbage (awake 54) empty_heap heap_after_init
      four_cells (omega arith) (omega arith) four-IsSize refl (awake-HasRounds 54)

threads_fixed_end_example :
    Prints 2 (λ g. Unit {0}) (threads_fixed lp64 2 4 fixed_fresh (awake 5))
    × PrintsAll 2 (λ g. Unit {0}) (threads_fixed lp64 2 4 fixed_fresh (awake 54))
threads_fixed_end_example =
    threads_fixed_end lp64-IsPlatform 2 4 fixed_fresh (awake 5) (awake 54) (omega arith)
      (omega arith) (omega arith) refl (awake-HasRounds 54)
