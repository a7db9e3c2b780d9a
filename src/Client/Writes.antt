-- ===== src/Client/Writes.antt =====
-- Every turn of the producer is defined and keeps the invariant.
use mulle_fifo.Common.{==_iff, ◌==◌, ℕ, ◌+◌, ◌<◌, ◌≡◌, refl, ◌∙◌, ltb, Bool-cases, inl, inr, arith}
use mulle_fifo.Ring.{Ring, IsRing}
use mulle_fifo.Spsc.{System, turn}
use mulle_fifo.Spsc.ProducerSteps.{producer_turn-Inv}
use mulle_fifo.Client.{
  Workload, Writer, Publication, producer_side, change, after_write, writer_turn,
}
use mulle_fifo.Client.Shape.{write_outcome}
use mulle_fifo.Client.WritesAdvance.{
  start-Progress, end-Progress, set-Progress, last_set-Progress, go_on-Progress, full-write_rank,
  stored-Progress,
}
use mulle_fifo.Client.Invariant.{
  backlog-length, IsArray, IsWorkload, Writing, Sound, Keeps, change-filled, change_self,
}
use mulle_fifo.Client.WritesSound.{writes-Sound, goes_on-Sound, stored-Sound}

module _ {F : Type 0} {r : Ring F} {Good : F → Type 0} {size : ℕ} {address : ℕ → ℕ} {Item : Type 0}
    {work : Workload Item} {law : IsWorkload work} {n_items : ℕ} (ring : IsRing r size Good)
    (above : 0 < size) (items : IsArray address n_items) where
  tests :
      (s : Publication Item F)
      → s.writer ≡ Writer.testing
      → Sound address law n_items r Good size s
      → Keeps r Good size address law n_items producer_side s
          (writer_turn address work n_items r Writer.testing s)
  unfolding writer_turn
  tests s w i = elim (Bool-cases (ltb s.i n_items)) [
    | inl more ↦
        let more' : s.i < n_items = ground arith in
        record {
          after = record s { writer = Writer.setting 0 };
          returns = rw more;
          sound = writes-Sound s s.memory (Writer.setting 0) i i.filled (
            rw w at i.at_writer,
            more',
            law.some_store,
            law.start_lem s.i (s.memory (address s.i)),
          );
          progress = start-Progress size n_items work.stores work.looks s w more';
        }
    | inr all ↦ record {
      after = record s { writer = Writer.finished };
      returns = rw all;
      sound =
          writes-Sound s s.memory Writer.finished i i.filled (rw w at i.at_writer, ground arith);
      progress = end-Progress size n_items work.stores work.looks s w;
    }
  ]

  sets :
      (j : ℕ) (s : Publication Item F)
      → s.writer ≡ Writer.setting j
      → Sound address law n_items r Good size s
      → Keeps r Good size address law n_items producer_side s
          (writer_turn address work n_items r (Writer.setting j) s)
  unfolding writer_turn
  sets j s w i =
      let (outside, more, below, before) : Writing address law n_items (Writer.setting j) s.i
          s.memory s.system.producer =
        rw w at i.at_writer in
      let item : Item = work.store j s.i (s.memory (address s.i)) in
      let memory : ℕ → Item = change s.memory (address s.i) item in
      let others = change-filled address law n_items s.memory s.i item items more i.filled in
      let stored : law.Filled s.i (j + 1) (memory (address s.i)) =
        rw (change_self address law n_items s.memory (address s.i) item)
          (law.store_lem s.i j _ below before) in
      elim (Bool-cases (j + 1 == work.stores)) [
        | inl last ↦ record {
          after = record s { memory = memory; writer = Writer.writing };
          returns = rw last;
          sound =
              writes-Sound s memory Writer.writing i others
                (rw outside tt, more, rw ((==_iff (j + 1) work.stores).0 last) at stored);
          progress = last_set-Progress size n_items work.stores work.looks s memory j w below;
        }
        | inr other ↦
            let below' : j + 1 < work.stores = ground (arith, below, other) in
            record {
              after = record s { memory = memory; writer = Writer.setting (j + 1) };
              returns = rw other;
              sound =
                  writes-Sound s memory (Writer.setting (j + 1)) i others
                    (outside, more, below', stored);
              progress = set-Progress size n_items work.stores work.looks s memory j w below';
            }
      ]

  writes :
      (s : Publication Item F)
      → s.writer ≡ Writer.writing
      → Sound address law n_items r Good size s
      → Keeps r Good size address law n_items producer_side s
          (writer_turn address work n_items r Writer.writing s)
  unfolding writer_turn turn after_write
  writes s w i =
      let (carries, more, _) : Writing address law n_items Writer.writing s.i s.memory
          s.system.producer =
        rw w at i.at_writer in
      let d =
        producer_turn-Inv ring above (address s.i) s.system.fifo s.system.producer s.system.consumer
          i.queue i.stands in
      let b = backlog-length address law n_items s i in
      let system : System F = record (s.system) { fifo = d.fifo; producer = d.next } in
      elim (write_outcome r size (address s.i) s.system.producer s.system.fifo i.queue d.events
        d.next d.fifo d.queue _ (items.pointer s.i more) carries d.returns d.conforms
        d.inv.producing) [
          | inl (es, q, on, rank) ↦ record {
            after = record s { system = system };
            returns = rw (d.returns, es);
            sound = goes_on-Sound s system w i (rw q at d.inv) on;
            progress =
                go_on-Progress size n_items work.stores work.looks s system w more refl
                  (rw (← b) at rank);
          }
          | inr (inl (es, q, out, full, seven)) ↦ record {
            after = record s { system = system };
            returns = rw (d.returns, es);
            sound = goes_on-Sound s system w i (rw q at d.inv) (rw out tt);
            progress = go_on-Progress size n_items work.stores work.looks s system w more refl (
                inr (
                  b ∙ full,
                  full-write_rank size n_items work.stores work.looks s system out (b ∙ full) seven,
                ));
          }
          | inr (inr (es, q, out, one)) ↦ record {
            after = record s { system = system; writer = Writer.testing; i = s.i + 1 };
            returns = rw (d.returns, es);
            sound = stored-Sound s system w i (rw q at d.inv) out;
            progress =
                stored-Progress size n_items work.stores work.looks s system w more refl
                  (omega (arith, i.sent)) (rw (← b) at one);
          }
        ]

  pub writer_turn-Sound :
      (w : Writer) (s : Publication Item F)
      → s.writer ≡ w
      → Sound address law n_items r Good size s
      → Keeps r Good size address law n_items producer_side s
          (writer_turn address work n_items r w s)
  unfolding writer_turn
  writer_turn-Sound Writer.testing s w i = tests s w i
  writer_turn-Sound (Writer.setting j) s w i = sets j s w i
  writer_turn-Sound Writer.writing s w i = writes s w i
  writer_turn-Sound Writer.finished s w i = record {
    after = s;
    returns = refl;
    sound = i;
    progress = inr (inl w, refl, λ d h. h);
  }
