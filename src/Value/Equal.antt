-- ===== src/Value/Equal.antt =====
-- The derived equality of values: values are compared by a code of their constructor and fields.
use glass_lint.Prelude.{
  ℕ, ◌≡◌, refl, sym, ap, ◌∙◌, ◌↔◌, Bool, true, List, [], ◌∷◌, Eq, ◌==◌, nat_eq, list_eq, pair_eq,
  nat_beq, if◌then◌else◌, Text,
}
use glass_lint.Path.{SegmentPath}
use glass_lint.Value.{
  Value, unknown, global, local, rooted_member, module_export, static_string, static_number,
  static_array, static_object, callable, object, binding, BindingRoot, lexical_root, global_root,
}

-- The constructor with its fields of each type.
abbrev Code : Type 0
Code = ℕ × (Text × (Text × List (ℕ × ℕ)))

abbrev encode : Value → Code
encode unknown = (0, ([], ([], [])))
encode (global name) = (1, (name, ([], [])))
encode local = (2, ([], ([], [])))
encode (rooted_member path) = (3, (path, ([], [])))
encode (module_export module_name export) = (4, (module_name, (export, [])))
encode (static_string text) = (5, (text, ([], [])))
encode (static_number n) = (6, (n ∷ [], ([], [])))
encode (static_array ids) = (7, (ids, ([], [])))
encode (static_object o) = (8, ([], ([], o.entries)))
encode (callable id) = (9, (id ∷ [], ([], [])))
encode (object id) = (10, (id ∷ [], ([], [])))
encode (binding key target) = elim (key.root) [
  | lexical_root function slot version ↦
      (11, (function ∷ slot ∷ version ∷ [], (key.path, (target, 0) ∷ [])))
  | global_root name ↦ (12, (name, (key.path, (target, 0) ∷ [])))
]

abbrev first_of : Text → ℕ
first_of [] = 0
first_of (n ∷ ns) = n

abbrev root_of : Text → BindingRoot
root_of (function ∷ slot ∷ version ∷ []) = lexical_root function slot version
root_of name = global_root name

abbrev target_in : List (ℕ × ℕ) → ℕ
target_in [] = 0
target_in ((target, n) ∷ rest) = target

abbrev decode : Code → Value
decode (tag, (first, (second, pairs))) =
    if nat_beq tag 0
    then unknown
    else if nat_beq tag 1
    then global first
    else if nat_beq tag 2
    then local
    else if nat_beq tag 3
    then rooted_member (first)
    else if nat_beq tag 4
    then module_export first second
    else if nat_beq tag 5
    then static_string first
    else if nat_beq tag 6
    then static_number (first_of first)
    else if nat_beq tag 7
    then static_array first
    else if nat_beq tag 8
    then static_object (record { entries = pairs })
    else if nat_beq tag 9
    then callable (first_of first)
    else if nat_beq tag 10
    then object (first_of first)
    else if nat_beq tag 11
    then binding (record { root = root_of first; path = second }) (target_in pairs)
    else binding (record { root = global_root first; path = second }) (target_in pairs)

decode-binding :
    (root : BindingRoot) (path : SegmentPath ℕ) (target : ℕ)
    → decode (encode (binding (record { root = root; path = path }) target))
      ≡ binding (record { root = root; path = path }) target
decode-binding (lexical_root function slot version) path target = refl
decode-binding (global_root name) path target = refl

decode-encode : (v : Value) → decode (encode v) ≡ v
decode-encode unknown = refl
decode-encode (global name) = refl
decode-encode local = refl
decode-encode (rooted_member path) = refl
decode-encode (module_export module_name export) = refl
decode-encode (static_string text) = refl
decode-encode (static_number n) = refl
decode-encode (static_array ids) = refl
decode-encode (static_object o) = refl
decode-encode (callable id) = refl
decode-encode (object id) = refl
decode-encode (binding key target) = decode-binding key.root key.path target

pub value_beq : Value → Value → Bool
value_beq v w = encode v == encode w

pub value_beq_iff : (v w : Value) → (value_beq v w ≡ true) ↔ (v ≡ w)
unfolding value_beq
value_beq_iff v w = (
  λ h.
      sym (decode-encode v)
      ∙ ap decode ((pair_eq.eq_iff (encode v) (encode w)).0 h)
      ∙ decode-encode w,
  λ h. (pair_eq.eq_iff (encode v) (encode w)).1 (ap encode h),
)

instance abbrev pub value_eq : Eq Value
value_eq = record { eq = value_beq; eq_iff = value_beq_iff }
