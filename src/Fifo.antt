-- ===== src/Fifo.antt =====
-- glass-lint-datastructures/src/fifo.rs: the bounded deduplicating queue.
-- `BTreeSet` is only asked for membership, insertion and its size: `seen` is the list of its
-- items in the order of their insertion.
mod Tests
pub mod Delivery
use glass_lint.Prelude.{ℕ, Bool, true, false, Option, none, some, List, [], ◌∷◌, ◌++◌}
use glass_lint.Prelude.{Eq, contains, length, leb, if◌then◌else◌}

pub data FifoAdmission : Type 0 where
  inserted duplicate full : FifoAdmission

pub record BoundedFifo (T : Type 0) : Type 0 where
  pub queue : List T
  pub seen : List T
  pub max_retained : ℕ
  pub exhausted : Bool

module _ {T : Type 0} where
  pub new : ℕ → BoundedFifo T
  new max_retained = record {
    queue = [];
    seen = [];
    max_retained = max_retained;
    exhausted = false;
  }

  pub pop_front : BoundedFifo T → BoundedFifo T × Option T
  pop_front f = elim f.queue [ [] ↦ (f, none) | x ∷ rest ↦ (record f { queue = rest }, some x) ]

  pub take_pending : BoundedFifo T → BoundedFifo T × List T
  take_pending f = (record f { queue = [] }, f.queue)

  abbrev pub is_empty : BoundedFifo T → Bool
  is_empty f = elim f.queue [ [] ↦ true | x ∷ rest ↦ false ]

  abbrev pub is_exhausted : BoundedFifo T → Bool
  is_exhausted f = f.exhausted

  abbrev pub retained_len : BoundedFifo T → ℕ
  retained_len f = length f.seen

module _ {T : Type 0} ⦃e : Eq T⦄ where
  pub push : T → BoundedFifo T → BoundedFifo T × FifoAdmission
  push entry f =
      if contains f.seen entry
      then (f, duplicate)
      else if leb f.max_retained (length f.seen)
      then (record f { exhausted = true }, full)
      else (record f { seen = f.seen ++ entry ∷ []; queue = f.queue ++ entry ∷ [] }, inserted)

-- A client's calls, and what it was handed over the whole run, in order.
pub data Call (T : Type 0) : Type 0 where
  push_call : T → Call T
  pop_call : Call T
  drain_call : Call T

module _ {T : Type 0} ⦃e : Eq T⦄ where
  pub step : Call T → BoundedFifo T × List T → BoundedFifo T × List T
  unfolding push pop_front take_pending
  step (push_call x) (f, out) = ((push x f).0, out)
  step pop_call (f, out) =
      let (rest, popped) = pop_front f in
      (rest, elim popped [ none ↦ out | some x ↦ out ++ x ∷ [] ])
  step drain_call (f, out) = let (rest, items) = take_pending f in (rest, out ++ items)

  pub run : List (Call T) → BoundedFifo T × List T → BoundedFifo T × List T
  run [] s = s
  run (c ∷ cs) s = run cs (step c s)
