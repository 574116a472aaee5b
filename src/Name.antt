-- ===== src/Name.antt =====
-- glass-lint-datastructures/src/name.rs: the table of interned names.
-- The `IndexSet` is the list of its items in the order of insertion, which is their index. A
-- `usize` has 64 bits, so that `usize::try_from` of a `u32` succeeds.
mod Tests
pub mod Stability
pub mod Runs
pub mod Paths
use glass_lint.Prelude.{
  ℕ, ◌+◌, ◌*◌, ◌^◌, Bool, true, false, Option, none, some, List, [], ◌∷◌, ◌++◌,
}
use glass_lint.Prelude.{
  Eq, ◌==◌, nat_eq, list_eq, length, get_elem?, ltb, leb, nat_beq, if◌then◌else◌,
}
use glass_lint.Prelude.{◌>>=◌, Text, usize_max, u32_max, u32_try_from, min}
use glass_lint.Prelude.IndexSets.{get_index_of}
use glass_lint.Path.{SegmentPath}
use glass_lint.Path.Symbol.{SymbolPath}

abbrev pub default_max_names : ℕ
default_max_names = 2 ^ 20

-- The raw `u32` of an identifier.
abbrev pub NameId : Type 0
NameId = ℕ

abbrev pub NamePath : Type 0
NamePath = SegmentPath NameId

pub record NameExhausted : Type 0 where
  pub limit : ℕ
  pub attempted : ℕ

pub record NameTable : Type 0 where
  pub names : List Text
  pub max_entries : ℕ
  pub exhausted : Bool

pub data Interned : Type 0 where
  ok : NameId → Interned
  err : NameExhausted → Interned

-- `usize::saturating_add(1)`.
abbrev pub saturating_suc : ℕ → ℕ
saturating_suc n = min (n + 1) usize_max

pub with_max_entries : ℕ → NameTable
with_max_entries max_entries = record { names = []; max_entries = max_entries; exhausted = false }

abbrev pub default : NameTable
unfolding with_max_entries
default = with_max_entries default_max_names

pub refuse : ℕ → NameTable → NameTable × Interned
refuse attempted t =
    (record t { exhausted = true }, err (record { limit = t.max_entries; attempted = attempted }))

-- `insert_full` of a new name, whose index is the old length, and the check of that index; the
-- `pop` takes the name off again.
pub insert_new : Text → NameTable → NameTable × Interned
unfolding refuse
insert_new name t = elim (u32_try_from (length t.names)) [
  | none ↦ refuse (saturating_suc (length t.names)) t
  | some id ↦ (record t { names = t.names ++ name ∷ [] }, ok id)
]

pub intern : Text → NameTable → NameTable × Interned
unfolding insert_new
intern name t = elim (get_index_of name t.names) [
  | some idx ↦ elim (u32_try_from idx) [
    | none ↦ refuse (saturating_suc idx) t
    | some id ↦ (t, ok id)
  ]
  | none ↦
      if leb t.max_entries (length t.names)
      then refuse (saturating_suc (length t.names)) t
      else insert_new name t
]

pub resolve : NameId → NameTable → Option Text
resolve id t = get_elem? t.names id

pub lookup : Text → NameTable → Option NameId
lookup name t = do index ← get_index_of name t.names; u32_try_from index

-- `try_fold` over the segments, onto the path so far.
pub lookup_onto : NamePath → SymbolPath → NameTable → Option NamePath
lookup_onto path [] t = some path
lookup_onto path (segment ∷ rest) t = do id ← lookup segment t; lookup_onto (path ++ id ∷ []) rest t

pub lookup_path : SymbolPath → NameTable → Option NamePath
lookup_path path t = lookup_onto [] path t

pub resolve_path : NamePath → NameTable → Option SymbolPath
resolve_path [] t = some []
resolve_path (id ∷ ids) t = do name ← resolve id t; names ← resolve_path ids t; some (name ∷ names)

abbrev pub exhaustion : NameTable → Option NameExhausted
exhaustion t =
    if t.exhausted
    then some (record { limit = t.max_entries; attempted = saturating_suc (length t.names) })
    else none

abbrev pub len : NameTable → ℕ
len t = length t.names

abbrev pub checked_id : ℕ → NameTable → Option NameId
checked_id raw t = if ltb raw (length t.names) then some raw else none
