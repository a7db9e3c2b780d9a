-- ===== src/Threads.antt =====
-- test/20-multithreaded/threads.c and threads-64.c: a producer that writes the numbers up to `last`
-- as pointers, at random times, and a consumer that prints them and, after the last, calls `done`
-- before it joins the producer. Each thread makes one statement a turn; a call of the FIFO takes the
-- turns that its own statements take.
pub mod Invariant
pub mod SendsAdvance
pub mod Sends
pub mod ReceivesAdvance
pub mod ReceivesTidy
pub mod Closes
pub mod Receives
pub mod Outcome
pub mod Correct
use mulle_fifo.Common.{
  ℕ, zero, suc, ◌+◌, ◌%◌, List, [], ◌∷◌, ◌++◌, pos, negsuc, Result, ok, ◌>>=◌, ltb, ◌==◌,
  if◌then◌else◌,
}
use mulle_fifo.Common.Fair.{schedule}
use mulle_fifo.Queue.Trace.{Event, wrote, got, counted}
use mulle_fifo.Ring.{Ring}
use mulle_fifo.Spsc.{System, produce, consume, turn, at_rest}

-- Where the producer stands.
pub data Sender : Type 0 where
  choosing : Sender  -- before `switch( rand() % 8)`
  writing : Sender  -- in `write`
  refused : Sender  -- after a `write` that returned -1
  written : Sender  -- after any other `write`, before `if( i == 1024)`
  finished : Sender

-- Where `main`, which is the consumer, stands.
pub data Receiver : Type 0 where
  choosing : Receiver  -- before `switch( rand() % 8)`
  reading : Receiver  -- in `read`
  emptied : Receiver  -- after a `read` that returned NULL
  received : ℕ → Receiver  -- after any other `read`, before `printf`, with the pointer
  closing : Receiver  -- before `done`
  joining : Receiver  -- before `mulle_thread_join`
  finished : Receiver

pub record Chat (F Heap : Type 0) : Type 0 where
  pub system : System F
  pub heap : Heap
  pub sender : Sender
  pub i : ℕ
  pub receiver : Receiver
  pub printed : List ℕ

-- Whose turn it is, with the number that `rand` returns if it is called.
pub data Pick : Type 0 where
  send_with : ℕ → Pick
  receive_with : ℕ → Pick

-- `mulle_thread_join` waits for the producer's end.
unfoldable pub join : {F Heap : Type 0} → Sender → Chat F Heap → Chat F Heap
join Sender.finished s = record s { receiver = Receiver.finished }
join Sender.choosing s = s
join Sender.writing s = s
join Sender.refused s = s
join Sender.written s = s

-- The FIFO has made its last access in this `write`. A result other than -1 counts as written.
unfoldable pub after_send : {F Heap : Type 0} → List Event → Chat F Heap → Chat F Heap
after_send [] s = s
after_send (wrote x (negsuc zero) ∷ es) s = record s { sender = Sender.refused }
after_send (wrote x (negsuc (suc c)) ∷ es) s = record s { sender = Sender.written }
after_send (wrote x (pos c) ∷ es) s = record s { sender = Sender.written }
after_send (got x ∷ es) s = s
after_send (counted n ∷ es) s = s

unfoldable pub after_receive : {F Heap : Type 0} → List Event → Chat F Heap → Chat F Heap
after_receive [] s = s
after_receive (wrote x c ∷ es) s = s
after_receive (got x ∷ es) s =
    if x == 0
    then record s { receiver = Receiver.emptied }
    else record s { receiver = Receiver.received x }
after_receive (counted n ∷ es) s = s

-- `last` is 1024, so the int `i` does not overflow, and `close` is the `done` of the FIFO.
module _ (last : ℕ) {F Heap : Type 0} (r : Ring F) (close : F → Heap → F × Heap) where
  -- `if( i == 1024) goto done; ++i;`
  unfoldable pub after_written : Chat F Heap → Chat F Heap
  after_written s =
      if s.i == last
      then record s { sender = Sender.finished }
      else record s { sender = Sender.choosing; i = s.i + 1 }

  -- `printf` and `if( pointer == (void *) 1024) goto done;`
  unfoldable pub after_received : ℕ → Chat F Heap → Chat F Heap
  after_received x s =
      if x == last
      then record s { receiver = Receiver.closing; printed = s.printed ++ (x ∷ []) }
      else record s { receiver = Receiver.choosing; printed = s.printed ++ (x ∷ []) }

  -- From 4 on the thread sleeps.
  unfoldable pub sender_turn : ℕ → Sender → Chat F Heap → Result (Chat F Heap)
  sender_turn n Sender.choosing s =
      ok (record s { sender = if ltb (n % 8) 4 then Sender.writing else Sender.choosing })
  sender_turn n Sender.writing s = do
    (es, system) ← turn r (produce s.i) s.system
    ok (after_send es (record s { system = system }))
  sender_turn n Sender.refused s = ok (record s { sender = Sender.choosing })
  sender_turn n Sender.written s = ok (after_written s)
  sender_turn n Sender.finished s = ok s

  unfoldable pub receiver_turn : ℕ → Receiver → Chat F Heap → Result (Chat F Heap)
  receiver_turn n Receiver.choosing s =
      ok (record s { receiver = if ltb (n % 8) 4 then Receiver.reading else Receiver.choosing })
  receiver_turn n Receiver.reading s = do
    (es, system) ← turn r consume s.system
    ok (after_receive es (record s { system = system }))
  receiver_turn n Receiver.emptied s = ok (record s { receiver = Receiver.choosing })
  receiver_turn n (Receiver.received x) s = ok (after_received x s)
  receiver_turn n Receiver.closing s =
      let (f, h) = close s.system.fifo s.heap in
      ok (record s {
        system = record (s.system) { fifo = f };
        heap = h;
        receiver = Receiver.joining;
      })
  receiver_turn n Receiver.joining s = ok (join s.sender s)
  receiver_turn n Receiver.finished s = ok s

  unfoldable pub pick_turn : Pick → Chat F Heap → Result (Chat F Heap)
  pick_turn (send_with n) s = sender_turn n s.sender s
  pick_turn (receive_with n) s = receiver_turn n s.receiver s

  unfoldable pub chat : List Pick → Chat F Heap → Result (Chat F Heap)
  chat = schedule pick_turn

-- After `init` and `mulle_thread_create`.
abbrev pub begin : {F Heap : Type 0} → F → Heap → Chat F Heap
begin f h = record {
  system = at_rest f;
  heap = h;
  sender = Sender.choosing;
  i = 1;
  receiver = Receiver.choosing;
  printed = [];
}
