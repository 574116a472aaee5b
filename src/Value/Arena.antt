-- ===== src/Value/Arena.antt =====
-- glass-lint-core/src/analysis/model/value.rs: the arena of interned values. Each value has beside it
-- the identifier at the end of its chain of bindings.
pub mod Interning
pub mod Terminals
use glass_lint.Prelude.{
  ℕ, ◌+◌, Bool, true, false, Option, none, some, List, [], ◌∷◌, ◌++◌, length, get_elem?, leb,
  if◌then◌else◌, Text, u32_max, u32_try_from, ◌>>=◌,
}
use glass_lint.Prelude.IndexSets.{get_index_of}
use glass_lint.Name.{NameId, NamePath, NameTable, lookup}
use glass_lint.Value.{
  Value, unknown, binding, static_object, static_string, ValueId, unknown_id, ResolvedObjectId,
  BindingKey, BindingSlot, StaticObject, slot_of_key, new_object, value_chain,
}
use glass_lint.Value.Equal.{value_eq}

abbrev pub max_values : ℕ
max_values = 65536

abbrev pub max_objects : ℕ
max_objects = 65536

pub record ValueTable : Type 0 where
  pub values : List Value
  pub next_object : ℕ
  pub exhausted : Bool
  pub terminal_cache : List ValueId

pub default : ValueTable
default = record {
  values = unknown ∷ [];
  next_object = 0;
  exhausted = false;
  terminal_cache = unknown_id ∷ [];
}

-- The target of a binding.
abbrev pub target_of : Value → Option ValueId
target_of (binding key target) = some target
target_of _ = none

abbrev pub refuse : ValueTable → ValueTable × ValueId
refuse t = (record t { exhausted = true }, unknown_id)

-- `intern_value` after `insert_full`, for a value that the set has got at `index`.
intern_at : ValueTable → Value → ValueId → ℕ → Option ℕ → ValueTable × ValueId
intern_at t value terminal idx none = refuse t
intern_at t value terminal idx (some id) = if leb max_values idx then refuse t else (
  record t { values = t.values ++ value ∷ []; terminal_cache = t.terminal_cache ++ terminal ∷ [] },
  id,
)

abbrev intern_known : ValueTable → Option ℕ → ValueTable × ValueId
intern_known t none = refuse t
intern_known t (some id) = (t, id)

-- The identifier that goes into the cache.
abbrev or_index : ℕ → Option ValueId → ValueId
or_index idx none = idx
or_index idx (some terminal) = terminal

-- `insert_full`, with the terminal of a binding's target where the value is a binding.
intern_with : Option ValueId → Value → ValueTable → ValueTable × ValueId
unfolding intern_at
intern_with terminal value t = elim (get_index_of value t.values) [
  | some idx ↦ intern_known t (u32_try_from idx)
  | none ↦
      let idx = length t.values in intern_at t value (or_index idx terminal) idx (u32_try_from idx)
]

pub intern_value : Value → ValueTable → ValueTable × ValueId
unfolding intern_with
intern_value value t = elim (target_of value) [
  | none ↦ intern_with none value t
  | some target ↦ elim (get_elem? t.terminal_cache target) [
    | none ↦ refuse t
    | some terminal ↦ intern_with (some terminal) value t
  ]
]

pub intern_value_with_binding : Value → Option BindingKey → ValueTable → ValueTable × ValueId
intern_value_with_binding value key t =
    let (t', target) = intern_value value t in
    elim key [ none ↦ (t', target) | some k ↦ intern_value (binding k target) t' ]

-- The first loop of `intern_static_object`.
pub canonical : List (Text × ValueId) → NameTable → Option (List (NameId × ValueId))
canonical [] names = some []
canonical ((name, value) ∷ values) names = do
  id ← lookup name names
  rest ← canonical values names
  some ((id, value) ∷ rest)

pub intern_static_object :
    List (Text × ValueId) → NameTable → Option BindingKey → ValueTable → ValueTable × ValueId
intern_static_object values names key t = elim (canonical values names) [
  | none ↦ refuse t
  | some entries ↦ elim (new_object entries) [
    | none ↦ (t, unknown_id)
    | some o ↦ intern_value_with_binding (static_object o) key t
  ]
]

pub allocate_object_id : ValueTable → ValueTable × Option ResolvedObjectId
allocate_object_id t =
    if leb max_objects t.next_object
    then (record t { exhausted = true }, none)
    else (record t { next_object = t.next_object + 1 }, some t.next_object)

pub get : ValueId → ValueTable → Option Value
get id t = get_elem? t.values id

pub resolve_id : ValueId → ValueTable → Option ValueId
resolve_id id t = get_elem? t.terminal_cache id

pub resolve : ValueId → ValueTable → Option Value
unfolding get resolve_id
resolve id t = do terminal ← resolve_id id t; get terminal t

pub object_and_chain : ValueId → ValueTable → Option StaticObject × Option NamePath
object_and_chain id t = elim (resolve id t) [ none ↦ (none, none) | some value ↦ value_chain value ]

abbrev slot_of : Value → Option BindingSlot
slot_of (binding key target) = slot_of_key key
slot_of _ = none

pub binding_slot : ValueId → ValueTable → Option BindingSlot
binding_slot id t = do value ← get id t; slot_of value

abbrev text_of : Value → Option Text
text_of (static_string text) = some text
text_of _ = none

pub static_string_at : ValueId → ValueTable → Option Text
static_string_at id t = do value ← resolve id t; text_of value
