-- ===== src/Client/Reads.antt =====
-- Every turn of the consumer is defined and keeps the invariant.
use mulle_fifo.Common.{
  ◌==◌, length, ℕ, ◌+◌, ◌<◌, ◌≡◌, refl, ap, ◌∙◌, ltb, ==_iff, Bool-cases, ==_ne, inl, inr, arith,
}
use mulle_fifo.Ring.{Ring, IsRing}
use mulle_fifo.Spsc.{System, turn}
use mulle_fifo.Spsc.ConsumerSteps.{consumer_turn-Inv}
use mulle_fifo.Client.{Workload, Reader, Publication, consumer_side, after_read, reader_turn}
use mulle_fifo.Client.Shape.{read_outcome}
use mulle_fifo.Client.Progress.{pending}
use mulle_fifo.Client.ReadsAdvance.{
  finish-Progress, test-Progress, look-Progress, last_look-Progress, go_on-Progress, again-Progress,
  took-Progress,
}
use mulle_fifo.Client.Invariant.{IsWorkload, backlog-length, Reading, Sound, Keeps}
use mulle_fifo.Client.ReadsSound.{reads-Sound, item_read, took-Sound, counted-Sound}

module _ {F : Type 0} {r : Ring F} {Good : F → Type 0} {size : ℕ} {address : ℕ → ℕ} {Item : Type 0}
    {work : Workload Item} {law : IsWorkload work} {n_items : ℕ} (ring : IsRing r size Good)
    (above : 0 < size) where
  tests :
      (s : Publication Item F)
      → s.reader ≡ Reader.testing
      → Sound address law n_items r Good size s
      → Keeps r Good size address law n_items consumer_side s
          (reader_turn address work n_items r Reader.testing s)
  unfolding reader_turn
  tests s c i = elim (Bool-cases (ltb s.received n_items)) [
    | inl more ↦ record {
      after = record s { reader = Reader.reading };
      returns = rw more;
      sound =
          reads-Sound s s.system Reader.reading s.corrupt s.expect i i.stands refl (rw c)
            (ground arith) i.clean i.in_order;
      progress = test-Progress size n_items work.stores work.looks s c (ground arith);
    }
    | inr all ↦ record {
      after = record s { reader = Reader.finished };
      returns = rw all;
      sound =
          reads-Sound s s.system Reader.finished s.corrupt s.expect i i.stands refl (rw c)
            (ground arith) i.clean i.in_order;
      progress = finish-Progress size n_items work.stores work.looks s c;
    }
  ]

  compares :
      (j x : ℕ) (s : Publication Item F)
      → s.reader ≡ Reader.comparing j x
      → Sound address law n_items r Good size s
      → Keeps r Good size address law n_items consumer_side s
          (reader_turn address work n_items r (Reader.comparing j x) s)
  unfolding reader_turn
  compares j x s c i =
      let (e, below) : Reading address law n_items (Reader.comparing j x) s.received =
        rw c at i.at_reader in
      let item = item_read s x (rw c) e i in
      elim (Bool-cases (j + 1 == work.looks)) [
        | inl last ↦
            let look =
              law.last_look_lem s.received j s.corrupt (s.memory x)
                ((==_iff (j + 1) work.looks).0 last) item in
            record {
              after = record s {
                expect = s.received + 1;
                received = s.received + 1;
                reader = Reader.testing;
              };
              returns = rw (i.in_order, look, last) refl;
              sound = counted-Sound j x s c i;
              progress =
                  last_look-Progress size n_items work.stores work.looks s j x (s.received + 1)
                    s.corrupt c below (omega (arith, i.sent, i.bound, ap pending c));
            }
        | inr other ↦
            let below' : j + 1 < work.looks = ground (arith, below, other) in
            let look = law.look_lem s.received j s.corrupt (s.memory x) below' item in
            record {
              after = record s { expect = s.received; reader = Reader.comparing (j + 1) x };
              returns = rw (i.in_order, look, other) refl;
              sound =
                  reads-Sound s s.system (Reader.comparing (j + 1) x) s.corrupt s.received i
                    i.stands refl (rw c) (e, below') i.clean refl;
              progress =
                  look-Progress size n_items work.stores work.looks s j x s.received s.corrupt c
                    below;
            }
      ]

  reads :
      (s : Publication Item F)
      → s.reader ≡ Reader.reading
      → Sound address law n_items r Good size s
      → Keeps r Good size address law n_items consumer_side s
          (reader_turn address work n_items r Reader.reading s)
  unfolding reader_turn turn after_read
  reads s c i =
      let d =
        consumer_turn-Inv ring above s.system.fifo s.system.producer s.system.consumer i.queue
          i.stands in
      let b = backlog-length address law n_items s i in
      let system : System F = record (s.system) { fifo = d.fifo; consumer = d.next } in
      elim (read_outcome r size s.system.consumer s.system.fifo i.queue d.events d.next d.fifo
        d.queue i.stands.no_null i.stands.consuming d.returns d.conforms d.inv.consuming) [
          | inl (es, q, rank) ↦ record {
            after = record s { system = system };
            returns = rw (d.returns, es);
            sound =
                reads-Sound s system s.reader s.corrupt s.expect i (rw q at d.inv) refl refl
                  i.at_reader i.clean i.in_order;
            progress =
                go_on-Progress size n_items work.stores work.looks s system c (rw c at i.at_reader)
                  refl
                  (elim rank [
                    | inl less ↦ inl (rw (← b) at less)
                    | inr (empty, equal) ↦ inr (b ∙ ap length empty, rw (← b) at equal)
                  ]);
          }
          | inr (inl (es, q, empty, _, seven)) ↦ record {
            after = record s { system = system; reader = Reader.testing };
            returns = rw (d.returns, es);
            sound =
                reads-Sound s system Reader.testing s.corrupt s.expect i (rw q at d.inv) refl (rw c)
                  tt i.clean i.in_order;
            progress =
                again-Progress size n_items work.stores work.looks s system c (rw c at i.at_reader)
                  refl (b ∙ ap length empty) seven;
          }
          | inr (inr (x, es, n, q, two)) ↦ record {
            after = record s { system = system; reader = Reader.comparing 0 x };
            returns = rw (d.returns, es, ==_ne x n);
            sound = took-Sound s system x d.queue c i d.inv refl q;
            progress =
                took-Progress size n_items work.stores work.looks s system x c (rw c at i.at_reader)
                  refl (omega (arith, b, ap length q)) (omega (arith, b, i.stands.holds.bound))
                  (rw (← b) at two);
          }
        ]

  pub reader_turn-Sound :
      (c : Reader) (s : Publication Item F)
      → s.reader ≡ c
      → Sound address law n_items r Good size s
      → Keeps r Good size address law n_items consumer_side s
          (reader_turn address work n_items r c s)
  unfolding reader_turn
  reader_turn-Sound Reader.testing s c i = tests s c i
  reader_turn-Sound Reader.reading s c i = reads s c i
  reader_turn-Sound (Reader.comparing j x) s c i = compares j x s c i
  reader_turn-Sound Reader.finished s c i = record {
    after = s;
    returns = refl;
    sound = i;
    progress = inr (inl c, refl, λ d h. h);
  }
