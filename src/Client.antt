-- ===== src/Client.antt =====
-- The two threads of test/20-multithreaded/publication.c and stress.c: a producer that fills in items
-- and hands their addresses to a consumer, which checks their contents and their order. Each thread
-- makes one statement a turn; a call of the FIFO takes the turns that its own statements take. The
-- waiting with `nanosleep` or `mulle_thread_yield` is a choice of the schedule.
pub mod Progress
pub mod Shape
pub mod Invariant
pub mod WritesSound
pub mod WritesAdvance
pub mod Writes
pub mod ReadsSound
pub mod ReadsAdvance
pub mod Reads
pub mod Sound
pub mod Finishes
pub mod Races
pub mod Items
pub mod OnDynamic
pub mod Correct
pub mod Main
use mulle_fifo.Common.{
  ℕ, zero, suc, ◌+◌, ◌≡◌, List, [], ◌∷◌, ℤ, pos, negsuc, Result, ok, ◌>>=◌, ltb, ◌==◌,
  if◌then◌else◌,
}
use mulle_fifo.Common.Fair.{schedule}
use mulle_fifo.Queue.Trace.{Event, wrote, got, counted}
use mulle_fifo.Ring.{Ring}
use mulle_fifo.Spsc.{System, Turn, produce, consume, turn, at_rest}

-- What a program does with its items. The statements that fill in item `i` are numbered, and so are
-- those that look into an item, with the number of items counted as corrupt and the number expected
-- next. `blank` is what static memory holds.
pub record Workload (Item : Type 0) : Type 0 where
  pub blank : Item
  pub stores : ℕ
  pub store : ℕ → ℕ → Item → Item
  pub looks : ℕ
  pub look : ℕ → Item → ℕ → ℕ → ℕ × ℕ

-- Where the producer stands in its loop.
pub data Writer : Type 0 where
  testing : Writer  -- before `i < N_ITEMS`
  setting : ℕ → Writer  -- before the store of that number into item `i`
  writing : Writer  -- in the loop around `_mulle_pointerfifo_write`
  finished : Writer

-- Where the consumer stands in its loop.
pub data Reader : Type 0 where
  testing : Reader  -- before `received < N_ITEMS`
  reading : Reader  -- in `_mulle_pointerfifo_read`
  comparing : ℕ → ℕ → Reader  -- before a look, by its number, into the item at an address
  finished : Reader

pub record Publication (Item F : Type 0) : Type 0 where
  pub system : System F
  pub memory : ℕ → Item
  pub writer : Writer
  pub i : ℕ
  pub reader : Reader
  pub expect : ℕ
  pub received : ℕ
  pub corrupt : ℕ

pub data Side : Type 0 where
  producer_side consumer_side : Side

abbrev pub change : {Item : Type 0} → (ℕ → Item) → ℕ → Item → ℕ → Item
change memory a item b = if a == b then item else memory b

-- `while( _mulle_pointerfifo_write( &fifo, &items[ i]) == -1)`, then `i++`.
unfoldable pub after_write :
    {Item F : Type 0} → List Event → Publication Item F → Publication Item F
after_write [] s = s
after_write (wrote x (negsuc zero) ∷ es) s = s
after_write (wrote x (negsuc (suc c)) ∷ es) s = record s { writer = Writer.testing; i = s.i + 1 }
after_write (wrote x (pos c) ∷ es) s = record s { writer = Writer.testing; i = s.i + 1 }
after_write (got x ∷ es) s = s
after_write (counted n ∷ es) s = s

-- `if( ! item)` goes back to the test of the loop.
unfoldable pub after_read : {Item F : Type 0} → List Event → Publication Item F → Publication Item F
after_read [] s = s
after_read (wrote x c ∷ es) s = s
after_read (got x ∷ es) s =
    if x == 0
    then record s { reader = Reader.testing }
    else record s { reader = Reader.comparing 0 x }
after_read (counted n ∷ es) s = s

-- `&items[ i]`, and N_ITEMS.
module _ {Item F : Type 0} (address : ℕ → ℕ) (work : Workload Item) (n_items : ℕ) (r : Ring F) where
  unfoldable pub writer_turn : Writer → Publication Item F → Result (Publication Item F)
  writer_turn Writer.testing s =
      ok (record s { writer = if ltb s.i n_items then Writer.setting 0 else Writer.finished })
  writer_turn (Writer.setting j) s = ok (record s {
    memory = change s.memory (address s.i) (work.store j s.i (s.memory (address s.i)));
    writer = if j + 1 == work.stores then Writer.writing else Writer.setting (j + 1);
  })
  writer_turn Writer.writing s = do
    (es, system) ← turn r (produce (address s.i)) s.system
    ok (after_write es (record s { system = system }))
  writer_turn Writer.finished s = ok s

  -- After its last look into an item the consumer counts it.
  unfoldable pub reader_turn : Reader → Publication Item F → Result (Publication Item F)
  reader_turn Reader.testing s =
      ok (record s { reader = if ltb s.received n_items then Reader.reading else Reader.finished })
  reader_turn Reader.reading s = do
    (es, system) ← turn r consume s.system
    ok (after_read es (record s { system = system }))
  reader_turn (Reader.comparing j x) s =
      let (corrupt, expect) = work.look j (s.memory x) s.corrupt s.expect in
      ok (record s {
        corrupt = corrupt;
        expect = expect;
        received = if j + 1 == work.looks then s.received + 1 else s.received;
        reader = if j + 1 == work.looks then Reader.testing else Reader.comparing (j + 1) x;
      })
  reader_turn Reader.finished s = ok s

  unfoldable pub side_turn : Side → Publication Item F → Result (Publication Item F)
  side_turn producer_side s = writer_turn s.writer s
  side_turn consumer_side s = reader_turn s.reader s

  unfoldable pub publish : List Side → Publication Item F → Result (Publication Item F)
  publish = schedule side_turn

-- After `init` and `mulle_thread_create`.
abbrev pub start : {Item F : Type 0} → Workload Item → F → Publication Item F
start work f = record {
  system = at_rest f;
  memory = λ a. work.blank;
  writer = Writer.testing;
  i = 0;
  reader = Reader.testing;
  expect = 0;
  received = 0;
  corrupt = 0;
}
