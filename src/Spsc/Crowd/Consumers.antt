-- ===== src/Spsc/Crowd/Consumers.antt =====
-- Two consumers read one pointer twice.
use mulle_fifo.Common.{
  ℕ, ◌+◌, ◌<◌, ◌≡◌, refl, ap, ◌∙◌, [], ◌∷◌, ok, length, arith, ◌↔◌, suc-==-zero, ◌==◌, false,
}
use mulle_fifo.Queue.{Queue, dequeue}
use mulle_fifo.Queue.Trace.{got, Conforms}
use mulle_fifo.Ring.{Ring, IsRing}
use mulle_fifo.Ring.Contents.{
  Holds, Holds-move, get_count-Holds, load-Holds, advance_read-Holds, decrement-Holds,
}
use mulle_fifo.Ring.Sequential.{Represents, Represents-unique}
use mulle_fifo.Spsc.{Consumer, consumer_turn}
use mulle_fifo.Spsc.Crowd.{Crowd, crowd_turn, crowd_run, same_slot}

-- Two reads that return `x` are what an atomic queue allows only if its second pointer is `x` too.
two_reads_explained :
    (size x y : ℕ) (rest : Queue) → Conforms size (x ∷ y ∷ rest) (got x ∷ got x ∷ []) rest ↔ (x ≡ y)
unfolding dequeue
two_reads_explained size x y rest = (λ c. c.1.0, λ e. (refl, (e, refl)))

-- The run is defined, both reads of the crowd return the oldest pointer `x`, and the FIFO then holds
-- the queue without `x` and the next pointer `y`. An atomic queue explains that only if they are
-- equal.
pub record Repeats {F : Type 0} (r : Ring F) (Good : F → Type 0) (size x y : ℕ) (rest : Queue)
    (f : F) : Type 0 where
  pub after : Crowd F Consumer
  pub returns :
      crowd_run
        (consumer_turn r)
        same_slot
        (record { fifo = f; first = Consumer.outside; second = Consumer.outside })
      ≡ ok (got x ∷ got x ∷ [], after)
  pub holds : Represents r Good size after.fifo rest
  pub explained :
      ((q : Queue) × Represents r Good size after.fifo q
        × Conforms size (x ∷ y ∷ rest) (got x ∷ got x ∷ []) q)
      ↔ (x ≡ y)

module _ {F : Type 0} {r : Ring F} {size : ℕ} {Good : F → Type 0} (ring : IsRing r size Good)
    (above : 0 < size) where
  removes :
      (f : F) (start x : ℕ) (q : Queue) {w : ℕ}
      → Holds r Good size f start (x ∷ q) w start
      → (f' : F) × (r.advance_read f ≡ ok f')
        × Holds r Good size (r.decrement f') (start + 1) q w (start + 1)
  removes f start x q h =
      let (f', e, h', _) = advance_read-Holds ring above start h in
      (f', e, (decrement-Holds ring above start x q h').0)

  removes_two :
      (f : F) (x y : ℕ) (rest : Queue)
      → Represents r Good size f (x ∷ y ∷ rest)
      → (f' : F) × (f'' : F) × (r.advance_read f ≡ ok f')
        × (r.advance_read (r.decrement f') ≡ ok f'')
        × Represents r Good size (r.decrement f'') rest
  removes_two f x y rest (start, h) =
      let (f', e, h') = removes f start x (y ∷ rest) h in
      let (f'', e', h'') = removes (r.decrement f') (start + 1) y rest h' in
      (
        f',
        f'',
        e,
        e',
        (
          start + 1 + 1,
          Holds-move ring above (start + 1 + 1 + length rest) (start + 1 + 1) (omega arith) refl
              h'',
        ),
      )

  pub consumers-Repeats :
      (f : F) (x y : ℕ) (rest : Queue)
      → Represents r Good size f (x ∷ y ∷ rest)
      → Repeats r Good size x y rest f
  unfolding consumer_turn crowd_turn crowd_run
  consumers-Repeats f x y rest h =
      let some : (r.get_count f == 0) ≡ false =
        ap (λ k. k == 0) (get_count-Holds ring above h.1) ∙ suc-==-zero (length (y ∷ rest)) in
      let oldest = load-Holds ring above h.1 in
      let (f', f'', e, e', after) = removes_two f x y rest h in
      record {
        after = record {
          fifo = r.decrement f'';
          first = Consumer.outside;
          second = Consumer.outside;
        };
        returns = rw (some, some, oldest, oldest, e, e') refl;
        holds = after;
        explained = (
          (λ (q, h', c).
              (two_reads_explained size x y rest).0
                (rw (Represents-unique ring above (r.decrement f'') q rest h' after) at c)),
          λ e. (rest, after, (two_reads_explained size x y rest).1 e),
        );
      }
