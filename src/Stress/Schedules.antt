-- ===== src/Stress/Schedules.antt =====
-- Every schedule of the two tests of stress.c.
use mulle_fifo.Common.{
  ℕ, ◌*◌, ◌<◌, ◌≡◌, refl, ap, List, Option, none, some, Bool, Result, ok, arith,
}
use mulle_fifo.Platform.{Platform, IsPlatform, Block, Allocator, IsAllocator}
use mulle_fifo.Fixed
use mulle_fifo.Fixed.{FixedFifo}
use mulle_fifo.Fixed.Contract
use mulle_fifo.Fixed.Contract.{HasStorage}
use mulle_fifo.Fixed.Sizes.{init-IsFifo}
use mulle_fifo.Pointerfifo.{Pointerfifo, done}
use mulle_fifo.Pointerfifo.Lifecycle.{IsSize}
use mulle_fifo.Pointerfifo.Owned.{IsOwned-IsRing, done-restores}
use mulle_fifo.Pointerfifo.WholeLife.{init-IsOwned}
use mulle_fifo.Client.{Writer, Reader, Side, start}
use mulle_fifo.Client.Invariant.{IsArray}
use mulle_fifo.Client.Sound.{publish-Sound, start-Sound}
use mulle_fifo.Stress.{stress, joined, run_fixed_test, run_dynamic_test}
use mulle_fifo.Stress.Payloads.{stress-IsWorkload}

abbrev pub IfSome {ℓ κ} : {A : Type ℓ} → (A → Type κ) → Option A → Type κ
IfSome P none = Unit
IfSome P (some a) = P a

joined-IfSome {ℓ κ} :
    {A : Type ℓ} (P : A → Type κ) (c : Reader) (w : Writer) (a : A) → P a → IfSome P (joined c w a)
unfolding joined
joined-IfSome P Reader.testing w a h = tt
joined-IfSome P Reader.reading w a h = tt
joined-IfSome P (Reader.comparing j x) w a h = tt
joined-IfSome P Reader.finished Writer.testing a h = tt
joined-IfSome P Reader.finished (Writer.setting j) a h = tt
joined-IfSome P Reader.finished Writer.writing a h = tt
joined-IfSome P Reader.finished Writer.finished a h = h

-- The schedule is defined, and what it returns, if both threads come to their ends, has `P`.
pub record Returns {ℓ κ} {A : Type ℓ} (P : A → Type κ) (out : Result (Option A))
    : Type (ℓ ⊔ κ) where
  pub value : Option A
  pub returns : out ≡ ok value
  pub holds : IfSome P value

module _ {Cell Heap : Type 0} {pl : Platform Cell} (laws : IsPlatform pl) {al : Allocator Heap Cell}
    {live : Heap → ℕ → Bool} (memory : IsAllocator pl al live) (flip : ℕ → ℕ) (n_items size : ℕ)
    (s : IsSize pl size) where
  pub above : 0 < size
  above = omega (arith, s.at_least)

  pub fixed_runs :
      (address : ℕ → ℕ) (sides : List Side) (f : FixedFifo Cell)
      → IsArray address n_items
      → HasStorage size f
      → Returns
          (λ (o : ℕ × FixedFifo Cell). o.0 ≡ 0)
          (run_fixed_test pl al flip n_items size address sides f)
  unfolding run_fixed_test
  fixed_runs address sides f items g =
      let law = stress-IsWorkload flip in
      let ring = Contract.ring-IsRing laws size above s.is_uint in
      let d =
        publish-Sound ring above address law n_items items sides
          (start (stress flip) (Fixed.init pl f))
          (start-Sound ring above address law n_items items (Fixed.init pl f)
            (init-IsFifo laws size f g)) in
      record {
        value =
            joined d.after.reader d.after.writer
              (d.after.corrupt, Fixed.done pl d.after.system.fifo);
        returns = rw (d.returns) refl;
        holds = joined-IfSome _ d.after.reader d.after.writer _ d.good.clean;
      }

  pub dynamic_runs :
      (address : ℕ → ℕ) (sides : List Side) (p : Pointerfifo Cell) (h h' : Heap) (b : Block Cell)
      → IsArray address n_items
      → 0 < pl.pointer_size
      → al.malloc 0 (size * pl.pointer_size) h ≡ some (b, h')
      → Returns
          (λ (o : ℕ × Pointerfifo Cell × Heap). (o.0 ≡ 0) × ((i : ℕ) → live o.2 i ≡ live h i))
          (run_dynamic_test pl al flip n_items size address sides p h)
  unfolding run_dynamic_test
  dynamic_runs address sides p h h' b items width m =
      let law = stress-IsWorkload flip in
      let ring = IsOwned-IsRing laws size 0 b.address above s.is_uint in
      let (p', e, r) = init-IsOwned laws memory p size 0 h h' b width s m in
      let d =
        publish-Sound ring above address law n_items items sides (start (stress flip) p')
          (start-Sound ring above address law n_items items p' r) in
      record {
        value = joined d.after.reader d.after.writer (
          d.after.corrupt,
          (done pl al d.after.system.fifo h').0,
          (done pl al d.after.system.fifo h').1,
        );
        returns = rw (e, d.returns) refl;
        holds = joined-IfSome _ d.after.reader d.after.writer _ (
          d.good.clean,
          (done-restores memory d.after.system.fifo _ 0 h h' b m
              (ap (λ (o : ℕ × Option ℕ). o.1) d.good.stands.holds.good.1)).0,
        );
      }
