-- ===== src/Client/Invariant.antt =====
-- What holds between any two turns of the two threads.
use mulle_fifo.Common.{
  length, ◌∙◌, Result, ok, ℕ, zero, suc, ◌+◌, ◌≤◌, ◌<◌, ◌≡◌, ◌≢◌, refl, ap, [], ◌∷◌, ◌++◌, ==_iff,
  ◌==◌, Bool-cases, inl, inr, arith,
}
use mulle_fifo.Queue.{Queue}
use mulle_fifo.Ring.{Ring}
use mulle_fifo.Spsc.{Producer}
use mulle_fifo.Spsc.Linearizable.{Stands}
use mulle_fifo.Client.{Side, Workload, Writer, Reader, Publication, change}
use mulle_fifo.Client.Progress.{pending, backlog, Progress}
use mulle_fifo.Client.Shape.{Carries}

-- Distinct items of the array have distinct addresses, and none is NULL.
pub record IsArray (address : ℕ → ℕ) (n_items : ℕ) : Type 0 where
  pub pointer : (i : ℕ) → i < n_items → address i ≢ 0
  pub apart : (i j : ℕ) → i < n_items → j < n_items → address i ≡ address j → i ≡ j

-- The items from `k` on, `n` of them.
abbrev pub addresses : (ℕ → ℕ) → ℕ → ℕ → Queue
addresses address zero k = []
addresses address (suc n) k = address k ∷ addresses address n (k + 1)

pub length-addresses : (address : ℕ → ℕ) (n k : ℕ) → length (addresses address n k) ≡ n
length-addresses address zero k = refl
length-addresses address (suc n) k = ap suc (length-addresses address n (k + 1))

pub addresses-append :
    (address : ℕ → ℕ) (n k m : ℕ)
    → k + n ≡ m
    → addresses address n k ++ (address m ∷ []) ≡ addresses address (suc n) k
addresses-append address zero k m e = ap (λ i. address i ∷ []) (omega arith)
addresses-append address (suc n) k m e =
    ap (λ l. address k ∷ l) (addresses-append address n (k + 1) m (omega arith))

pub addresses-uncons :
    (address : ℕ → ℕ) (x : ℕ) (q : Queue) (n k : ℕ)
    → x ∷ q ≡ addresses address n k
    → (m : ℕ) × (n ≡ suc m) × (x ≡ address k) × (q ≡ addresses address m (k + 1))
addresses-uncons address x q zero k e = ground (arith, e)
addresses-uncons address x q (suc n) k e = (n, refl, ground (arith, e), ground (arith, e))

-- What the stores and the looks of a program have to do with each other. `Filled i k` says of item
-- `i` that its first `k` stores were made; a look into an item that is filled in counts nothing as
-- corrupt, and the last one makes the next item the expected one.
pub record IsWorkload {Item : Type 0} (work : Workload Item) : Type 1 where
  pub Filled : ℕ → ℕ → Item → Type 0
  pub some_store : 0 < work.stores
  pub some_look : 0 < work.looks
  pub start_lem : (i : ℕ) (item : Item) → Filled i 0 item
  pub store_lem :
      (i j : ℕ) (item : Item)
      → j < work.stores
      → Filled i j item
      → Filled i (j + 1) (work.store j i item)
  pub look_lem :
      (i j corrupt : ℕ) (item : Item)
      → j + 1 < work.looks
      → Filled i work.stores item
      → work.look j item corrupt i ≡ (corrupt, i)
  pub last_look_lem :
      (i j corrupt : ℕ) (item : Item)
      → j + 1 ≡ work.looks
      → Filled i work.stores item
      → work.look j item corrupt i ≡ (corrupt, i + 1)

module _ (address : ℕ → ℕ) {Item : Type 0} {work : Workload Item} (law : IsWorkload work)
    (n_items : ℕ) where
  abbrev pub Writing : Writer → ℕ → (ℕ → Item) → Producer → Type 0
  Writing Writer.testing i memory p = p ≡ Producer.outside
  Writing (Writer.setting j) i memory p =
      (p ≡ Producer.outside)
      × (i < n_items)
      × (j < work.stores)
      × law.Filled i j (memory (address i))
  Writing Writer.writing i memory p =
      Carries (address i) p × (i < n_items) × law.Filled i work.stores (memory (address i))
  Writing Writer.finished i memory p = (p ≡ Producer.outside) × (n_items ≤ i)

  abbrev pub Reading : Reader → ℕ → Type 0
  Reading Reader.testing received = Unit {0}
  Reading Reader.reading received = received < n_items
  Reading (Reader.comparing j x) received = (x ≡ address received) × (j < work.looks)
  Reading Reader.finished received = n_items ≤ received

  pub record Sound {F : Type 0} (r : Ring F) (Good : F → Type 0) (size : ℕ) (s : Publication Item F)
      : Type 0 where
    pub queue : Queue
    pub waiting : ℕ
    pub stands : Stands r Good size s.system queue
    pub queued : queue ≡ addresses address waiting (s.received + pending s.reader)
    pub sent : s.received + pending s.reader + waiting ≡ s.i
    pub bound : s.i ≤ n_items
    pub filled : (j : ℕ) → j < s.i → law.Filled j work.stores (s.memory (address j))
    pub at_writer : Writing s.writer s.i s.memory s.system.producer
    pub at_reader : Reading s.reader s.received
    pub clean : s.corrupt ≡ 0
    pub in_order : s.expect ≡ s.received

  -- A change of item `i` leaves the items before it as they are.
  pub change-filled :
      (memory : ℕ → Item) (i : ℕ) (item : Item)
      → IsArray address n_items
      → i < n_items
      → ((j : ℕ) → j < i → law.Filled j work.stores (memory (address j)))
      → (j : ℕ) → j < i
      → law.Filled j work.stores (change memory (address i) item (address j))
  change-filled memory i item a h f j k = elim (Bool-cases (address i == address j)) [
    | inl same ↦
        absurd
          (omega (arith, k, a.apart i j h (omega arith) ((==_iff (address i) (address j)).0 same)))
    | inr other ↦ rw other (f j k)
  ]

  pub change_self : (memory : ℕ → Item) (a : ℕ) (item : Item) → change memory a item a ≡ item
  change_self memory a item = rw ((==_iff a a).1 refl)

  pub backlog-length :
      {F : Type 0} {r : Ring F} {Good : F → Type 0} {size : ℕ} (s : Publication Item F)
      → (i : Sound r Good size s) → backlog s ≡ length i.queue
  backlog-length s i =
      omega (arith, i.sent, ap length i.queued ∙ length-addresses address i.waiting _)

module _ {F : Type 0} (r : Ring F) (Good : F → Type 0) (size : ℕ) (address : ℕ → ℕ) {Item : Type 0}
    {work : Workload Item} (law : IsWorkload work) (n_items : ℕ) where
  -- The turn is defined, its outcome is sound and less is left to do, unless the thread waits.
  pub record Keeps (d : Side) (s : Publication Item F) (out : Result (Publication Item F))
      : Type 0 where
    pub after : Publication Item F
    pub returns : out ≡ ok after
    pub sound : Sound address law n_items r Good size after
    pub progress : Progress size n_items work.stores work.looks d s after
