-- ===== src/Tests/Runs.antt =====
-- The test programs of the repository as runs of the model.
use mulle_fifo.Common.{◌≡◌, refl, List, [], ◌∷◌, pos, negsuc, Result, ok, map_result}
use mulle_fifo.Queue.Trace.{Event, wrote, got, counted}
use mulle_fifo.Queue.Replies.{Call, write_call, read_call, count_call}
use mulle_fifo.Ring.Calls.{calls}
use mulle_fifo.Fixed
use mulle_fifo.Pointerfifo.{init, done, read, write, get_count, remainder, assert, ring}
use mulle_fifo.Pointerfifo
use mulle_fifo.Spsc.{
  Turn, produce, consume, observe, run, producer_turn, consumer_turn, turn, at_rest,
}
use mulle_fifo.Tests.{lp64, bump, empty_heap, heap_after_init, garbage, fresh, fixed_fresh}

-- test/10-singlethread/contract.c: NULL, fill, one too many, wrap around, drain.
abbrev contract_calls : List Call
contract_calls =
    write_call 0
    ∷ count_call
    ∷ write_call 1
    ∷ write_call 2
    ∷ write_call 3
    ∷ write_call 4
    ∷ count_call
    ∷ write_call 5
    ∷ count_call
    ∷ read_call
    ∷ write_call 5
    ∷ read_call
    ∷ read_call
    ∷ read_call
    ∷ read_call
    ∷ read_call
    ∷ count_call
    ∷ []

abbrev contract_replies : List Event
contract_replies =
    wrote 0 (negsuc 1)
    ∷ counted 0
    ∷ wrote 1 (pos 0)
    ∷ wrote 2 (pos 0)
    ∷ wrote 3 (pos 0)
    ∷ wrote 4 (pos 0)
    ∷ counted 4
    ∷ wrote 5 (negsuc 0)
    ∷ counted 4
    ∷ got 1
    ∷ wrote 5 (pos 0)
    ∷ got 2
    ∷ got 3
    ∷ got 4
    ∷ got 5
    ∷ got 0
    ∷ counted 0
    ∷ []

abbrev events_of : {F : Type 0} → Result (List Event × F) → Result (List Event)
events_of m = map_result (λ (es, f). es) m

init_run : init lp64 bump garbage 4 0 empty_heap ≡ ok (fresh, heap_after_init)
unfolding init assert
init_run = refl

contract_run :
    events_of (calls (write lp64) (read lp64) (get_count lp64) contract_calls fresh)
    ≡ ok contract_replies
unfolding calls write read get_count remainder Pointerfifo.store Pointerfifo.load
    Pointerfifo.advance_write Pointerfifo.advance_read Pointerfifo.increment Pointerfifo.decrement
contract_run = refl

-- test/10-singlethread/contract-64.c, with four slots.
contract_fixed_run :
    events_of (
      calls
        (Fixed.write lp64 4)
        (Fixed.read lp64 4)
        (Fixed.get_count lp64)
        contract_calls
        fixed_fresh)
    ≡ ok contract_replies
unfolding calls Fixed.write Fixed.read Fixed.get_count Fixed.store Fixed.load Fixed.advance_write
    Fixed.advance_read Fixed.increment Fixed.decrement
contract_fixed_run = refl

-- The producer is overtaken between its index and its increment: the read sees nothing yet.
abbrev late_count : List Turn
late_count =
    produce 9
    ∷ produce 0
    ∷ produce 0
    ∷ produce 0
    ∷ produce 0
    ∷ consume
    ∷ consume
    ∷ observe
    ∷ produce 0
    ∷ observe
    ∷ consume
    ∷ consume
    ∷ consume
    ∷ consume
    ∷ consume
    ∷ []

overtaken_producer :
    events_of (run (ring lp64) late_count (at_rest fresh))
    ≡ ok (got 0 ∷ counted 0 ∷ wrote 9 (pos 0) ∷ counted 1 ∷ got 9 ∷ [])
unfolding run turn producer_turn consumer_turn get_count remainder Pointerfifo.store
    Pointerfifo.load Pointerfifo.advance_write Pointerfifo.advance_read Pointerfifo.increment
    Pointerfifo.decrement
overtaken_producer = refl
