-- ===== src/Singlethread.antt =====
-- test/10-singlethread: contract.c, contract-64.c, simple.c and simple-64.c. The size that a program
-- gives its FIFO and the number of its last loop's passes are arguments here.
pub mod Plays
pub mod Contract
pub mod Prints
pub mod Runs
pub mod Correct
use mulle_fifo.Common.{
  ℕ, zero, suc, ◌+◌, List, Option, none, some, Bool, true, false, [], ◌∷◌, ◌++◌, map, ℤ, pos,
  negsuc, Result, ok, ◌>>=◌, ◌==◌, if◌then◌else◌,
}
use mulle_fifo.Platform.{Platform, Allocator}
use mulle_fifo.Queue.{stored_code, full_code, null_code}
use mulle_fifo.Queue.Trace.{Event, wrote, got, counted}
use mulle_fifo.Queue.Replies.{Call, write_call, read_call, count_call}
use mulle_fifo.Fixed
use mulle_fifo.Fixed.{FixedFifo}
use mulle_fifo.Pointerfifo.{Pointerfifo, init, done, write, read, get_count}
use mulle_fifo.Pointerfifo.Tolerant

-- A call whose result a program compares, with the result it expects; a call whose result it
-- prints; and one whose result it prints and compares.
pub data Statement : Type 0 where
  checked : Event → Statement
  shown : Call → Statement
  shown_and_checked : Event → Statement

abbrev pub call_of : Event → Call
call_of (wrote x code) = write_call x
call_of (got x) = read_call
call_of (counted n) = count_call

abbrev pub statement_call : Statement → Call
statement_call (checked e) = call_of e
statement_call (shown c) = c
statement_call (shown_and_checked e) = call_of e

abbrev pub same_code : ℤ → ℤ → Bool
same_code (pos a) (pos b) = a == b
same_code (negsuc a) (negsuc b) = a == b
same_code a b = false

abbrev pub is_expected : Event → Event → Bool
is_expected (wrote x code) (wrote y code') = same_code code' code
is_expected (got x) (got y) = y == x
is_expected (counted n) (counted m) = m == n
is_expected e r = false

-- `failures`, and the results that were printed.
pub record Tally : Type 0 where
  pub failures : ℕ
  pub printed : List Event

-- `if( ...) ++failures`
unfoldable pub count_failure : Event → Event → Tally → Tally
count_failure e reply v = if is_expected e reply then v else record v { failures = v.failures + 1 }

abbrev pub show : Event → Tally → Tally
show reply v = record v { printed = v.printed ++ (reply ∷ []) }

unfoldable pub note : Statement → Event → Tally → Tally
note (checked e) reply v = count_failure e reply v
note (shown c) reply v = show reply v
note (shown_and_checked e) reply v = count_failure e reply (show reply v)

module _ {F : Type 0} (write' : ℕ → F → Result (ℤ × F)) (read' : F → Result (ℕ × F))
    (get_count' : F → ℕ) where
  unfoldable pub perform : Call → F → Result (Event × F)
  perform (write_call x) f = do (code, f') ← write' x f; ok (wrote x code, f')
  perform read_call f = do (pointer, f') ← read' f; ok (got pointer, f')
  perform count_call f = ok (counted (get_count' f), f)

  unfoldable pub execute : List Statement → Tally → F → Result (Tally × F)
  execute [] v f = ok (v, f)
  execute (s ∷ ss) v f = do
    (reply, f') ← perform (statement_call s) f
    execute ss (note s reply v) f'

-- The values of a loop's counter: `n` numbers from `i` on.
abbrev pub range : ℕ → ℕ → List ℕ
range i zero = []
range i (suc n) = i ∷ range (i + 1) n

-- The loop that writes and reads one pointer in each of its passes.
unfoldable pub interleave : List ℕ → List Statement
interleave [] = []
interleave (i ∷ is) = checked (wrote i stored_code) ∷ checked (got i) ∷ interleave is

-- Everything between `init` and `done`. `last` is the comparison that contract-64.c leaves out.
unfoldable pub contract : ℕ → ℕ → List Statement → List Statement
contract size passes last =
    (shown_and_checked (wrote 0 null_code) ∷ shown count_call ∷ checked (counted 0) ∷ [])
    ++ (map (λ i. checked (wrote i stored_code)) (range 1 size)
        ++ ((shown count_call
              ∷ checked (counted size)
              ∷ shown_and_checked (wrote (size + 1) full_code)
              ∷ shown count_call
              ∷ checked (counted size)
              ∷ checked (got 1)
              ∷ checked (wrote (size + 1) stored_code)
              ∷ [])
            ++ (map (λ i. checked (got i)) (range 2 size)
                ++ ((shown_and_checked (got 0) ∷ shown count_call ∷ last)
                    ++ (interleave (range 1 passes)
                        ++ (shown count_call ∷ checked (counted 0) ∷ []))))))

-- The calls on a NULL FIFO at the start of contract.c.
abbrev pub null_statements : List Statement
null_statements = checked (wrote 1 full_code) ∷ checked (got 0) ∷ checked (counted 0) ∷ []

-- The loops of simple.c and simple-64.c.
unfoldable pub shown_writes : List ℕ → List Statement → List Statement
shown_writes [] rest = rest
shown_writes (i ∷ is) rest = shown (write_call (i + 1)) ∷ shown count_call ∷ shown_writes is rest

unfoldable pub simple : ℕ → List Statement
simple size = shown_writes (range 0 (size + 1)) (map (λ i. shown read_call) (range 0 (size + 1)))

abbrev pub clean : Tally
clean = record { failures = 0; printed = [] }

-- `return( failures ? 1 : 0)`
unfoldable pub exit_status : Tally → ℕ
exit_status v = if v.failures == 0 then 0 else 1

module _ {Cell Heap : Type 0} (pl : Platform Cell) (al : Allocator Heap Cell) where
  -- `main` of contract.c
  unfoldable pub contract_main : ℕ → ℕ → Pointerfifo Cell → Heap → Result ((ℕ × Tally) × Heap)
  contract_main size passes p h = do
    (null, h₁) ← Tolerant.init pl al none size 0 h
    let (null', h₂) = Tolerant.done pl al null h₁
    (v, null'') ←
        execute (Tolerant.write pl) (Tolerant.read pl) (Tolerant.get_count pl) null_statements clean
          null'
    (fifo, h₃) ← init pl al p size 0 h₂
    (v', fifo') ←
        execute (write pl) (read pl) (get_count pl)
          (contract size passes (checked (counted 0) ∷ [])) v fifo
    let (fifo'', h₄) = done pl al fifo' h₃
    ok ((exit_status v', v'), (done pl al fifo'' h₄).1)

  -- `main` of simple.c
  unfoldable pub simple_main : ℕ → Pointerfifo Cell → Heap → Result (Tally × Heap)
  simple_main size p h = do
    (fifo, h') ← init pl al p size 0 h
    (v, fifo') ← execute (write pl) (read pl) (get_count pl) (simple size) clean fifo
    ok (v, (done pl al fifo' h').1)

module _ {Cell : Type 0} (pl : Platform Cell) where
  -- `main` of contract-64.c
  unfoldable pub contract_fixed_main :
      ℕ → ℕ → FixedFifo Cell → Result ((ℕ × Tally) × FixedFifo Cell)
  contract_fixed_main size passes p = do
    (v, fifo) ←
        execute (Fixed.write pl size) (Fixed.read pl size) (Fixed.get_count pl)
          (contract size passes []) clean (Fixed.init pl p)
    ok ((exit_status v, v), Fixed.done pl fifo)

  -- `main` of simple-64.c
  unfoldable pub simple_fixed_main : ℕ → FixedFifo Cell → Result (Tally × FixedFifo Cell)
  simple_fixed_main size p = do
    (v, fifo) ←
        execute (Fixed.write pl size) (Fixed.read pl size) (Fixed.get_count pl) (simple size) clean
          (Fixed.init pl p)
    ok (v, Fixed.done pl fifo)
