-- ===== src/Tests/Publication.antt =====
-- The publication test with three items on a FIFO of four slots.
use mulle_fifo.Common.{ℕ, zero, suc, ◌+◌, ◌-◌, ◌*◌, ◌^◌, refl, inl, inr, List, [], ◌∷◌, arith}
use mulle_fifo.Common.Fair
use mulle_fifo.Pointerfifo.{ring}
use mulle_fifo.Pointerfifo.Contract.{IsOpen}
use mulle_fifo.Client.{Side, producer_side, consumer_side, publish, start}
use mulle_fifo.Client.Invariant.{IsArray}
use mulle_fifo.Client.Items.{publication}
use mulle_fifo.Client.Sound.{Acts}
use mulle_fifo.Client.Finishes.{HasRounds, Completes}
use mulle_fifo.Client.Correct.{both_threads_finish, no_item_race}
use mulle_fifo.Client.Races.{RaceFree}
use mulle_fifo.Tests.{lp64, lp64-IsPlatform, fresh, fresh-IsFifo}

-- `&items[ i]` and `~i`.
abbrev pub item_address : ℕ → ℕ
item_address i = 4096 + 16 * i

abbrev pub complement : ℕ → ℕ
complement i = 2 ^ 64 - 1 - i

pub item_address-IsArray : IsArray item_address 3
item_address-IsArray = record {
  pointer = λ i h. omega arith;
  apart = λ i j h k e. omega (arith, e);
}

-- Each thread makes its statements in turn.
abbrev pub in_turn : ℕ → List Side
in_turn zero = []
in_turn (suc n) = producer_side ∷ consumer_side ∷ in_turn n

both_turn : (d : Side) → Fair.HasTurn Acts d (producer_side ∷ consumer_side ∷ [])
both_turn producer_side = inl refl
both_turn consumer_side = inr (inl refl)

pub in_turn-HasRounds : (k : ℕ) → HasRounds k (in_turn k)
in_turn-HasRounds zero = tt
in_turn-HasRounds (suc k) =
    (producer_side ∷ consumer_side ∷ [], in_turn k, refl, both_turn, in_turn-HasRounds k)

both_threads_finish_example : Completes (IsOpen 4) 3 (
    publish item_address
      (publication complement)
      3
      (ring lp64)
      (in_turn 63)
      (start (publication complement) fresh))
both_threads_finish_example =
    both_threads_finish lp64-IsPlatform 4 (omega arith) (omega arith) item_address complement 3
      (in_turn 63) fresh item_address-IsArray fresh-IsFifo (in_turn-HasRounds 63)

no_item_race_example : RaceFree item_address (
    publish item_address
      (publication complement)
      3
      (ring lp64)
      (in_turn 60)
      (start (publication complement) fresh))
no_item_race_example =
    no_item_race lp64-IsPlatform 4 (omega arith) (omega arith) item_address complement 3
      (in_turn 60) fresh item_address-IsArray fresh-IsFifo
