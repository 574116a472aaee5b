-- ===== src/Projector/Aliases.antt =====
-- glass-lint-core/src/analysis/flow/projector/state/tables/aliases.rs: the objects that values
-- alias, with the number of aliases of each object. Values and objects are their raw indices.
pub mod Counts
pub mod Counted
pub mod Runs
use glass_lint.Prelude.{
  ℕ, suc, ◌+◌, ◌-◌, Bool, true, false, Option, none, some, List, [], ◌∷◌, map, nat_beq,
  if◌then◌else◌,
}
use glass_lint.Prelude.Order.{nat_ord}
use glass_lint.Prelude.Sorted.{get, put, delete}
use glass_lint.Flow.State.{FlowObjectId}

abbrev pub ValueId : Type 0
ValueId = ℕ

abbrev pub ObjectRefCounts : Type 0
ObjectRefCounts = List (FlowObjectId × ℕ)

pub record AliasTable : Type 0 where
  pub values : List (ValueId × FlowObjectId)
  pub object_refs : ObjectRefCounts

abbrev pub no_aliases : AliasTable
no_aliases = record { values = []; object_refs = [] }

pub increment : FlowObjectId → ObjectRefCounts → ObjectRefCounts
increment object refs = elim (get object refs) [
  | none ↦ put object 1 refs
  | some count ↦ put object (count + 1) refs
]

-- A count that is kept is not zero, so that the subtraction does not underflow.
pub decrement : FlowObjectId → ObjectRefCounts → ObjectRefCounts
decrement object refs = elim (get object refs) [
  | none ↦ refs
  | some count ↦ if nat_beq (count - 1) 0 then delete object refs else put object (count - 1) refs
]

abbrev pub get_alias : ValueId → AliasTable → Option FlowObjectId
get_alias value t = get value t.values

pub release : Option FlowObjectId → ObjectRefCounts → ObjectRefCounts
release none refs = refs
release (some previous) refs = decrement previous refs

-- `AliasTable::set`, with the previous object.
pub set_alias : ValueId → FlowObjectId → AliasTable → AliasTable × Option FlowObjectId
unfolding release
set_alias value object t =
    let previous = get value t.values in
    (
      record {
        values = put value object t.values;
        object_refs = increment object (release previous t.object_refs);
      },
      previous,
    )

pub remove_alias : ValueId → AliasTable → AliasTable × Option FlowObjectId
remove_alias value t = elim (get value t.values) [
  | none ↦ (t, none)
  | some object ↦ (
    record { values = delete value t.values; object_refs = decrement object t.object_refs },
    some object,
  )
]

-- `AliasTable::take`: the aliases, and the table without them.
abbrev pub take : AliasTable → AliasTable × List (ValueId × FlowObjectId)
take t = (record { values = []; object_refs = [] }, t.values)

pub contains_object : FlowObjectId → AliasTable → Bool
contains_object object t = elim (get object t.object_refs) [ none ↦ false | some count ↦ true ]

abbrev pub objects : AliasTable → List FlowObjectId
objects t = map (λ r. r.0) t.object_refs
