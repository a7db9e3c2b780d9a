-- ===== src/Spsc/Whole.antt =====
-- The statements that the threads run one by one are the bodies of `write` and `read`: run without
-- a turn of the other thread they do what the function does.
use mulle_fifo.Common.{ℕ, zero, suc, ◌≡◌, List, [], ◌∷◌, ◌++◌, Result, ok, ◌>>=◌, arith}
use mulle_fifo.Queue.Trace.{Event, wrote, got}
use mulle_fifo.Ring.{Ring}
use mulle_fifo.Ring.Sequential.{read, write}
use mulle_fifo.Spsc.{Producer, Consumer, producer_turn, consumer_turn}

module _ {F : Type 0} (r : Ring F) where
  -- Turns of one thread, at most so many, until its call returns.
  unfoldable pub finish_write : ℕ → Producer → F → Result (List Event × Producer × F)
  finish_write zero p f = ok ([], p, f)
  finish_write (suc n) Producer.outside f = ok ([], Producer.outside, f)
  finish_write (suc n) p f = do
    (es, p', f') ← producer_turn r 0 p f
    (fs, p'', f'') ← finish_write n p' f'
    ok (es ++ fs, p'', f'')

  unfoldable pub finish_read : ℕ → Consumer → F → Result (List Event × Consumer × F)
  finish_read zero c f = ok ([], c, f)
  finish_read (suc n) Consumer.outside f = ok ([], Consumer.outside, f)
  finish_read (suc n) c f = do
    (es, c', f') ← consumer_turn r c f
    (fs, c'', f'') ← finish_read n c' f'
    ok (es ++ fs, c'', f'')

  pub finish_write-write :
      (x : ℕ) (f : F)
      → finish_write 5 (Producer.entering x) f
        ≡ (do (c, f') ← write r x f; ok (wrote x c ∷ [], Producer.outside, f'))
  unfolding finish_write producer_turn write
  finish_write-write x f = ground arith

  pub finish_read-read :
      (f : F)
      → finish_read 4 Consumer.testing f
        ≡ (do (x, f') ← read r f; ok (got x ∷ [], Consumer.outside, f'))
  unfolding finish_read consumer_turn read
  finish_read-read f = ground arith
