-- ===== src/Table.antt =====
-- glass-lint-datastructures/src/table.rs: the sparse table over dense identifiers.
-- A `usize` has 64 bits, so that `usize::try_from` of a `u32` succeeds.
mod Tests
mod Slots
pub mod Lookup
pub mod Disjoint
use glass_lint.Prelude.{ℕ, zero, suc, ◌+◌, ◌-◌, max, Bool, true, false, Option, none, some}
use glass_lint.Prelude.{
  List, [], ◌∷◌, ◌++◌, map, ◌≡◌, ◌≤◌, length, get_elem?, set, take, drop, replicate, ◌>>=◌,
}
use glass_lint.Prelude.{leb, ltb, nat_beq, if◌then◌else◌, u32_max}

pub data InsertOutcome : Type 0 where
  inserted replaced out_of_range : InsertOutcome

-- The trait `IdIndex`, with what `Copy + Into<u32>` and the documentation of `from_raw` promise.
pub record IdIndex (I : Type 0) : Type 0 where
  pub into : I → ℕ
  pub from_raw : ℕ → I
  pub into-le : (i : I) → into i ≤ u32_max
  pub into-from_raw : (raw : ℕ) → raw ≤ u32_max → into (from_raw raw) ≡ raw

pub record IndexTable (T : Type 0) : Type 0 where
  pub values : List (Option T)
  pub occupied : ℕ
  pub capacity : ℕ

-- The two borrowed slots, as they read, and the slots of the table after a write of a value through
-- the mutable borrow, where the slot lends one.
pub record Borrowed (T : Type 0) : Type 0 where
  pub read : Option T
  pub write : Option T
  pub written : T → List (Option T)

module _ {T : Type 0} where
  pub new : ℕ → IndexTable T
  new capacity = record { values = []; occupied = 0; capacity = capacity }

  abbrev pub slot : List (Option T) → ℕ → Option T
  slot values index = elim (get_elem? values index) [ none ↦ none | some v ↦ v ]

  -- `resize_with(size, || None)`, where the vector grows.
  abbrev pub resize : List (Option T) → ℕ → List (Option T)
  resize values size = values ++ replicate (size - length values) none

  abbrev pub present : List (Option T) → List T
  present [] = []
  present (none ∷ rest) = present rest
  present (some v ∷ rest) = v ∷ present rest

  abbrev pub values : IndexTable T → List T
  values t = present t.values

  pub len : IndexTable T → ℕ
  len t = t.occupied

  abbrev pub is_empty : IndexTable T → Bool
  unfolding len
  is_empty t = nat_beq (len t) 0

  pub clear : IndexTable T → IndexTable T
  clear t = record t { values = []; occupied = 0 }

  -- `rposition(Option::is_some).map_or(0, |i| i + 1)`.
  pub present_len : List (Option T) → ℕ
  present_len [] = 0
  present_len (v ∷ rest) =
      let after = present_len rest in
      if ltb 0 after then after + 1 else elim v [ none ↦ 0 | some _ ↦ 1 ]

  pub shrink_to_fit : IndexTable T → IndexTable T
  shrink_to_fit t = record t { values = take (present_len t.values) t.values }

  -- The pairs of index and value, from the index of the first slot on.
  pub enumerate : ℕ → List (Option T) → List (ℕ × T)
  enumerate index [] = []
  enumerate index (none ∷ rest) = enumerate (index + 1) rest
  enumerate index (some v ∷ rest) = (index, v) ∷ enumerate (index + 1) rest

  -- `split_at_mut(wi)`: the slot to read is in the left half, the one to write opens the right.
  pub split_at_write : List (Option T) → List (Option T) → ℕ → Option (Option (Borrowed T))
  split_at_write left right ri = do
    read_ref ← get_elem? left ri
    write_ref ← get_elem? right 0
    some (
        some (record {
          read = read_ref;
          write = write_ref;
          written = λ v. left ++ set right 0 (some v);
        }))

  -- `split_at_mut(ri)`: the slot to write is in the left half, the one to read opens the right.
  pub split_at_read : List (Option T) → List (Option T) → ℕ → Option (Option (Borrowed T))
  split_at_read left right wi = do
    write_ref ← get_elem? left wi
    read_ref ← get_elem? right 0
    some (
        some (record {
          read = read_ref;
          write = write_ref;
          written = λ v. set left wi (some v) ++ right;
        }))

  module _ {I : Type 0} ⦃ids : IdIndex I⦄ where
    pub get : I → IndexTable T → Option T
    get id t = slot t.values (ids.into id)

    pub contains : I → IndexTable T → Bool
    unfolding get
    contains id t = elim (get id t) [ none ↦ false | some _ ↦ true ]

    -- The growth of the vector that makes room for the identifier.
    pub grow : I → List (Option T) → List (Option T)
    grow id vs = if leb (length vs) (ids.into id) then resize vs (ids.into id + 1) else vs

    pub insert : I → T → IndexTable T → IndexTable T × InsertOutcome
    insert id value t =
        let grown = grow id t.values in
        let written = set grown (ids.into id) (some value) in
        if leb t.capacity (ids.into id)
        then (t, out_of_range)
        else elim (slot grown (ids.into id)) [
          | none ↦ (record t { values = written; occupied = t.occupied + 1 }, inserted)
          | some _ ↦ (record t { values = written }, replaced)
        ]

    -- It is `none` where an index into a half is out of range, which panics.
    pub get_disjoint : I → I → IndexTable T → Option (Option (Borrowed T))
    get_disjoint read write t =
        let ri = ids.into read in
        let wi = ids.into write in
        if nat_beq ri wi
        then some none
        else if leb (length t.values) (max ri wi)
        then some (some (record { read = none; write = none; written = λ v. t.values }))
        else if ltb ri wi
        then split_at_write (take wi t.values) (drop wi t.values) ri
        else split_at_read (take ri t.values) (drop ri t.values) wi

    -- `u32::try_from(index).unwrap_or(u32::MAX)` through `from_raw`.
    pub label : ℕ × T → I × T
    label (index, v) = (ids.from_raw (if leb index u32_max then index else u32_max), v)

    pub iter : IndexTable T → List (I × T)
    iter t = map label (enumerate 0 t.values)
