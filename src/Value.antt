-- ===== src/Value.antt =====
-- glass-lint-core/src/analysis/model/value.rs, static_properties.rs and the bindings of scope.rs:
-- abstract values, interned in a bounded arena. Identifiers are their raw `u32`; a `usize` has 64
-- bits, so that `usize::try_from` of a `u32` succeeds. The `IndexSet` is the list of its items.
mod Tests
pub mod Equal
pub mod Arena
pub mod Properties
use glass_lint.Prelude.{
  ℕ, ◌+◌, Bool, true, false, Option, none, some, List, [], ◌∷◌, ◌++◌, map, length, get_elem?, leb,
  nat_beq, if◌then◌else◌, Text, ◌>>=◌, Eq, u32_max, u32_try_from,
}
use glass_lint.Prelude.IndexSets.{get_index_of}
use glass_lint.Name.{NameId, NamePath, NameTable, lookup}
use glass_lint.Path
use glass_lint.PathTrie.{PathSegment, property, index}

abbrev pub max_object_keys : ℕ
max_object_keys = 256

pub record StaticProperties (V : Type 0) : Type 0 where
  pub entries : List (NameId × V)

module _ {V : Type 0} where
  abbrev pub no_properties : StaticProperties V
  no_properties = record { entries = [] }

  -- The entry of the name with a new value, where there is one.
  pub overwrite : NameId → V → List (NameId × V) → Option (List (NameId × V))
  overwrite name value [] = none
  overwrite name value ((key, old) ∷ entries) =
      let later = overwrite name value entries in
      if nat_beq key name
      then some ((key, value) ∷ entries)
      else elim later [ none ↦ none | some entries' ↦ some ((key, old) ∷ entries') ]

  pub insert : NameId → V → StaticProperties V → StaticProperties V × Bool
  insert name value p = elim (overwrite name value p.entries) [
    | some entries ↦ (record { entries = entries }, true)
    | none ↦
        if leb max_object_keys (length p.entries)
        then (p, false)
        else (record { entries = p.entries ++ (name, value) ∷ [] }, true)
  ]

  pub find : NameId → List (NameId × V) → Option V
  find name [] = none
  find name ((key, value) ∷ entries) =
      let later = find name entries in if nat_beq key name then some value else later

  pub get_property : NameId → StaticProperties V → Option V
  get_property name p = find name p.entries

  pub contains_key : NameId → StaticProperties V → Bool
  contains_key name p = elim (get_property name p) [ none ↦ false | some _ ↦ true ]

  abbrev pub keys : StaticProperties V → List NameId
  keys p = map (λ e. e.0) p.entries

abbrev pub ValueId : Type 0
ValueId = ℕ

abbrev pub unknown_id : ValueId
unknown_id = 0

abbrev pub ResolvedObjectId : Type 0
ResolvedObjectId = ℕ

abbrev pub StaticObject : Type 0
StaticObject = StaticProperties ValueId

-- The loop of `StaticObject::new`.
pub insert_all :
    List (NameId × ValueId) → StaticProperties ValueId → Option (StaticProperties ValueId)
insert_all [] p = some p
insert_all ((name, value) ∷ entries) p =
    let (p', fits) = insert name value p in
    let rest = insert_all entries p' in if fits then rest else none

pub new_object : List (NameId × ValueId) → Option StaticObject
new_object entries = insert_all entries no_properties

pub value_at_segment : PathSegment → StaticObject → Option ValueId
value_at_segment (property name) object = get_property name object
value_at_segment (index i) object = none

pub data BindingRoot : Type 0 where
  lexical_root : ℕ → ℕ → ℕ → BindingRoot
  global_root : Text → BindingRoot

pub record BindingKey : Type 0 where
  pub root : BindingRoot
  pub path : NamePath

pub new_key : BindingRoot → BindingKey
new_key root = record { root = root; path = Path.new }

pub append_segment : NameId → BindingKey → BindingKey
append_segment segment key = record key { path = Path.append segment key.path }

pub record BindingSlot : Type 0 where
  pub function : ℕ
  pub binding : ℕ
  pub path : NamePath

abbrev pub slot_of_key : BindingKey → Option BindingSlot
slot_of_key key = elim (key.root) [
  | lexical_root function binding version ↦
      some (record { function = function; binding = binding; path = key.path })
  | global_root name ↦ none
]

pub data Value : Type 0 where
  unknown : Value
  global : Text → Value
  local : Value
  rooted_member : NamePath → Value
  module_export : Text → Text → Value
  static_string : Text → Value
  static_number : ℕ → Value
  static_array : List ValueId → Value
  static_object : StaticObject → Value
  callable : ValueId → Value
  object : ResolvedObjectId → Value
  binding : BindingKey → ValueId → Value

-- `Value::object_and_chain`.
pub value_chain : Value → Option StaticObject × Option NamePath
value_chain (static_object o) = (some o, none)
value_chain (rooted_member path) = (none, some path)
value_chain _ = (none, none)
