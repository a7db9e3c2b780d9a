-- ===== src/Tests/Misuse.antt =====
-- Two producers and two consumers on FIFOs of four slots.
use mulle_fifo.Common.{[], arith}
use mulle_fifo.Spsc.Crowd.Producers.{Overwrites}
use mulle_fifo.Spsc.Crowd.Consumers.{Repeats}
use mulle_fifo.Pointerfifo.{ring}
use mulle_fifo.Pointerfifo.Contract.{IsOpen}
use mulle_fifo.Pointerfifo.Misuse.{second_thread}
use mulle_fifo.Tests.{lp64, lp64-IsPlatform, fresh, fresh-IsFifo, wrapped, wrapped-IsFifo}

second_thread_example :
    Overwrites (ring lp64) (IsOpen 4) 4 7 9 fresh × Repeats (ring lp64) (IsOpen 4) 4 7 8 [] wrapped
second_thread_example =
    second_thread lp64-IsPlatform 4 (omega arith) fresh wrapped 7 9 7 8 [] (omega arith)
      (omega arith) (omega arith) fresh-IsFifo wrapped-IsFifo
