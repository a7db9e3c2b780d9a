-- ===== src/Fixed/Sizes.antt =====
-- The twelve headers src/mulle--pointerfifo4.h to src/mulle--pointerfifo8192.h, which
-- src/reflect/_mulle-fifo-provide.h includes. All but that for 64 are made by bin/create-fifo-sources
-- from it, so each is the template at its size.
use mulle_fifo.Common.{ℕ, ◌<◌, ◌≡◌, refl, sym, List, [], ◌∷◌, map, ℤ, Result, ok, length, arith}
use mulle_fifo.Platform.{Platform, IsPlatform}
use mulle_fifo.Queue.{Queue, enqueue, dequeue}
use mulle_fifo.Ring.Contents.{get_count-Holds}
use mulle_fifo.Fixed
use mulle_fifo.Fixed.{FixedFifo, init}
use mulle_fifo.Fixed.Contract.{HasStorage, ring-IsRing}
use mulle_fifo.Fixed.Sequential.{IsFifo, write_enqueues, read_dequeues}
use native.Mathlib.Nat.{zero-mod}

-- What a header declares.
pub record Header (Cell : Type 0) : Type 0 where
  pub size : ℕ
  pub init : FixedFifo Cell → FixedFifo Cell
  pub done : FixedFifo Cell → FixedFifo Cell
  pub get_count : FixedFifo Cell → ℕ
  pub read : FixedFifo Cell → Result (ℕ × FixedFifo Cell)
  pub write : ℕ → FixedFifo Cell → Result (ℤ × FixedFifo Cell)

-- `sed -e "s/64/${size}/g" < mulle--pointerfifo64.h`
abbrev pub header : {Cell : Type 0} → Platform Cell → ℕ → Header Cell
header pl size = record {
  size = size;
  init = Fixed.init pl;
  done = Fixed.done pl;
  get_count = Fixed.get_count pl;
  read = Fixed.read pl size;
  write = Fixed.write pl size;
}

unfoldable pub pointerfifo4 : {Cell : Type 0} → Platform Cell → Header Cell
pointerfifo4 pl = header pl 4

unfoldable pub pointerfifo8 : {Cell : Type 0} → Platform Cell → Header Cell
pointerfifo8 pl = header pl 8

unfoldable pub pointerfifo16 : {Cell : Type 0} → Platform Cell → Header Cell
pointerfifo16 pl = header pl 16

unfoldable pub pointerfifo32 : {Cell : Type 0} → Platform Cell → Header Cell
pointerfifo32 pl = header pl 32

unfoldable pub pointerfifo64 : {Cell : Type 0} → Platform Cell → Header Cell
pointerfifo64 pl = header pl 64

unfoldable pub pointerfifo128 : {Cell : Type 0} → Platform Cell → Header Cell
pointerfifo128 pl = header pl 128

unfoldable pub pointerfifo256 : {Cell : Type 0} → Platform Cell → Header Cell
pointerfifo256 pl = header pl 256

unfoldable pub pointerfifo512 : {Cell : Type 0} → Platform Cell → Header Cell
pointerfifo512 pl = header pl 512

unfoldable pub pointerfifo1024 : {Cell : Type 0} → Platform Cell → Header Cell
pointerfifo1024 pl = header pl 1024

unfoldable pub pointerfifo2048 : {Cell : Type 0} → Platform Cell → Header Cell
pointerfifo2048 pl = header pl 2048

unfoldable pub pointerfifo4096 : {Cell : Type 0} → Platform Cell → Header Cell
pointerfifo4096 pl = header pl 4096

unfoldable pub pointerfifo8192 : {Cell : Type 0} → Platform Cell → Header Cell
pointerfifo8192 pl = header pl 8192

unfoldable pub provided : {Cell : Type 0} → Platform Cell → List (Header Cell)
provided pl =
    pointerfifo1024 pl
    ∷ pointerfifo128 pl
    ∷ pointerfifo16 pl
    ∷ pointerfifo2048 pl
    ∷ pointerfifo256 pl
    ∷ pointerfifo32 pl
    ∷ pointerfifo4 pl
    ∷ pointerfifo4096 pl
    ∷ pointerfifo512 pl
    ∷ pointerfifo64 pl
    ∷ pointerfifo8 pl
    ∷ pointerfifo8192 pl
    ∷ []

-- The sizes in the names of the headers, in that order.
abbrev pub provided_sizes : List ℕ
provided_sizes = 1024 ∷ 128 ∷ 16 ∷ 2048 ∷ 256 ∷ 32 ∷ 4 ∷ 4096 ∷ 512 ∷ 64 ∷ 8 ∷ 8192 ∷ []

abbrev pub Each {ℓ κ} : {A : Type ℓ} → (A → Type κ) → List A → Type κ
Each P [] = Unit
Each P (x ∷ xs) = P x × Each P xs

-- A header keeps the contract: `init` makes the FIFO empty, and from then on writes, reads and
-- counts are those of a queue of at most `size` pointers.
pub record KeepsContract {Cell : Type 0} (pl : Platform Cell) (h : Header Cell) : Type 0 where
  pub init_empties : (p : FixedFifo Cell) → HasStorage h.size p → IsFifo pl h.size (h.init p) []
  pub writes :
      (x : ℕ) (p : FixedFifo Cell) (q : Queue)
      → IsFifo pl h.size p q
      → (p' : FixedFifo Cell) × (h.write x p ≡ ok ((enqueue h.size x q).0, p'))
        × IsFifo pl h.size p' (enqueue h.size x q).1
  pub reads :
      (p : FixedFifo Cell) (q : Queue)
      → IsFifo pl h.size p q
      → (p' : FixedFifo Cell) × (h.read p ≡ ok ((dequeue q).0, p'))
        × IsFifo pl h.size p' (dequeue q).1
  pub counts : (p : FixedFifo Cell) (q : Queue) → IsFifo pl h.size p q → h.get_count p ≡ length q

module _ {Cell : Type 0} {pl : Platform Cell} (laws : IsPlatform pl) where
  pub init-IsFifo :
      (size : ℕ) (p : FixedFifo Cell) → HasStorage size p → IsFifo pl size (init pl p) []
  unfolding init
  init-IsFifo size p g = (
    0,
    record {
      good = g;
      bound = omega arith;
      counter_is = laws.read-nonatomic_write 0 p.n;
      write_is = sym (zero-mod size);
      read_is = sym (zero-mod size);
      slot_is = λ i lt. elim lt [ ];
    },
  )

  header-KeepsContract : (size : ℕ) → 0 < size → size < 65536 → KeepsContract pl (header pl size)
  header-KeepsContract size above small = record {
    init_empties = init-IsFifo size;
    writes = write_enqueues laws size above fits;
    reads = read_dequeues laws size above fits;
    counts = λ p q h. get_count-Holds (ring-IsRing laws size above fits) above h.1;
  }
    where
      fits : size < pl.uint_mod
      fits = omega (arith, laws.uint_wide)

  headers-KeepsContract :
      (sizes : List ℕ)
      → Each (λ size. (0 < size) × (size < 65536)) sizes
      → Each (KeepsContract pl) (map (header pl) sizes)
  headers-KeepsContract [] h = tt
  headers-KeepsContract (size ∷ sizes) h =
      (header-KeepsContract size h.0.0 h.0.1, headers-KeepsContract sizes h.1)

  -- The twelve headers of fixed FIFOs that the library includes have the sizes that their names
  -- tell, and each keeps the contract at its size: `init` makes any struct with storage of that
  -- size hold the empty queue, and while no call is under way each write and each read returns
  -- what the queue bounded by that size returns and leaves its contents, and the count is the
  -- length of the queue.
  pub provided-KeepsContract :
      (map (λ h. h.size) (provided pl) ≡ provided_sizes) × Each (KeepsContract pl) (provided pl)
  unfolding provided pointerfifo4 pointerfifo8 pointerfifo16 pointerfifo32 pointerfifo64
      pointerfifo128 pointerfifo256 pointerfifo512 pointerfifo1024 pointerfifo2048 pointerfifo4096
      pointerfifo8192
  provided-KeepsContract = (refl, headers-KeepsContract provided_sizes (omega arith))
