-- ===== src/Name/Stability.antt =====
-- Interned names keep their identifiers, and a path is read back from its identifiers.
use glass_lint.Prelude.{
  ℕ, ◌+◌, ◌≤◌, ◌<◌, ◌≡◌, ◌⊎◌, refl, sym, ap, subst, ◌∙◌, true, false, inl, inr,
}
use glass_lint.Prelude.{none, some, [], ◌∷◌, ◌++◌, length, length-append, get_elem?, arith}
use glass_lint.Prelude.{
  >>=-eq-some, leb, leb→gt, leb→le, le→leb, Bool-cases, Option-cases, u32_max, u32_try_from, Text,
}
use glass_lint.Prelude.{
  ◌∈◌, IsNodup, IsNodup-append_end, get_elem?-append_left, get_elem?-append_end, lt_of_get_elem?,
}
use glass_lint.Name.{NameId, NameTable, NameExhausted, Interned, ok, err}
use glass_lint.Name.{refuse, insert_new, intern, resolve, lookup}
use glass_lint.Name.{with_max_entries, saturating_suc}
use glass_lint.Prelude.{nat_eq, list_eq}
use glass_lint.Prelude.IndexSets.{
  get_index_of, get_index_of-found, get_index_of-missing, get_index_of-place,
}

-- No name stands twice, and the names fit the bound and the 32 bits of an identifier.
pub record IsValid (t : NameTable) : Type 0 where
  pub distinct : IsNodup t.names
  pub bounded : length t.names ≤ t.max_entries
  pub small : length t.names ≤ u32_max + 1

pub with_max_entries-IsValid : (n : ℕ) → IsValid (with_max_entries n)
unfolding with_max_entries
with_max_entries-IsValid n = record { distinct = tt; bounded = omega arith; small = omega arith }

-- What `intern` of a name does to a table: it answers with an identifier, or it refuses.
pub data Interns (name : Text) (t u : NameTable) : Interned → Type 0 where
  known : (id : NameId) → u ≡ t → resolve id t ≡ some name → Interns name t u (ok id)
  fresh :
      (id : NameId)
      → ¬ (name ∈ t.names)
      → id ≡ length t.names
      → u ≡ record t { names = t.names ++ name ∷ [] }
      → IsValid u
      → Interns name t u (ok id)
  refused :
      (e : NameExhausted)
      → ¬ (name ∈ t.names)
      → (t.max_entries ≤ length t.names) ⊎ (u32_max < length t.names)
      → u ≡ record t { exhausted = true }
      → Interns name t u (err e)

u32_fits : (n : ℕ) → n ≤ u32_max → u32_try_from n ≡ some n
u32_fits n h = ground arith

u32_over : (n : ℕ) → u32_max < n → u32_try_from n ≡ none
u32_over n h = ground arith

pub lookup_found :
    (name : Text) (t : NameTable) (id : NameId) → lookup name t ≡ some id → resolve id t ≡ some name
unfolding lookup resolve
lookup_found name t id h =
    let (i, at, fits) = >>=-eq-some (get_index_of name t.names) u32_try_from h in
    let same : i ≡ id = ground arith in rw same at (get_index_of-found name t.names at)

pub lookup_resolved :
    (name : Text) (t : NameTable) (id : NameId)
    → IsValid t
    → resolve id t ≡ some name
    → lookup name t ≡ some id
unfolding lookup resolve
lookup_resolved name t id v h =
    rw (get_index_of-place name t.names id v.distinct h)
      (u32_fits id (omega (arith, v.small, lt_of_get_elem? t.names id h)))

intern_known :
    (name : Text) (t : NameTable) (i : ℕ)
    → IsValid t
    → get_index_of name t.names ≡ some i
    → intern name t ≡ (t, ok i)
unfolding intern
intern_known name t i v h =
    let found = get_index_of-found name t.names h in
    let fits = u32_fits i (omega (arith, lt_of_get_elem? t.names i found, v.small)) in
    rw (h, intern) (rw fits)

intern_full :
    (name : Text) (t : NameTable)
    → get_index_of name t.names ≡ none
    → t.max_entries ≤ length t.names
    → intern name t ≡ refuse (saturating_suc (length t.names)) t
unfolding intern
intern_full name t h full = rw (h, intern) (rw (le→leb _ _ full))

intern_new :
    (name : Text) (t : NameTable)
    → get_index_of name t.names ≡ none
    → leb t.max_entries (length t.names) ≡ false
    → intern name t ≡ insert_new name t
unfolding intern
intern_new name t h room = rw (h, intern) (rw room)

refuse-Interns :
    (name : Text) (t : NameTable) (n : ℕ)
    → ¬ (name ∈ t.names)
    → (t.max_entries ≤ length t.names) ⊎ (u32_max < length t.names)
    → Interns name t (refuse n t).0 (refuse n t).1
unfolding refuse
refuse-Interns name t n missing full =
    refused (record { limit = t.max_entries; attempted = n }) missing full refl

insert_new-Interns :
    (name : Text) (t : NameTable)
    → IsValid t
    → ¬ (name ∈ t.names)
    → length t.names < t.max_entries
    → Interns name t (insert_new name t).0 (insert_new name t).1
unfolding insert_new
insert_new-Interns name t v missing room = elim (Bool-cases (leb (length t.names) u32_max)) [
  | inl fits ↦
      rw (u32_fits (length t.names) (leb→le _ _ fits), insert_new)
        (fresh (length t.names) missing refl refl (record {
          distinct = IsNodup-append_end t.names name v.distinct missing;
          bounded = omega (arith, length-append t.names (name ∷ []));
          small = omega (arith, length-append t.names (name ∷ []), leb→le _ _ fits);
        }))
  | inr over ↦
      rw (u32_over (length t.names) (leb→gt _ _ over), insert_new)
        (refuse-Interns name t (saturating_suc (length t.names)) missing (inr (leb→gt _ _ over)))
]

-- On a valid table `intern` answers a known name with an identifier that resolves to it and
-- changes nothing; it appends a new name, under the next identifier, and the table stays valid; or
-- it refuses a new name, only where the bound or the 32 bits are used up, and then only marks the
-- exhaustion.
pub intern-Interns :
    (name : Text) (t : NameTable) → IsValid t → Interns name t (intern name t).0 (intern name t).1
intern-Interns name t v = elim (Option-cases (get_index_of name t.names)) [
  | inr (i, at) ↦
      subst (λ (r : NameTable × Interned). Interns name t r.0 r.1)
        (sym (intern_known name t i v at))
        (known i refl (unfold resolve in get_index_of-found name t.names at))
  | inl missing ↦
      let absent = get_index_of-missing name t.names missing in
      elim (Bool-cases (leb t.max_entries (length t.names))) [
        | inl full ↦
            subst (λ (r : NameTable × Interned). Interns name t r.0 r.1)
              (sym (intern_full name t missing (leb→le _ _ full)))
              (refuse-Interns name t (saturating_suc (length t.names)) absent
                (inl (leb→le _ _ full)))
        | inr room ↦
            subst (λ (r : NameTable × Interned). Interns name t r.0 r.1)
              (sym (intern_new name t missing room))
              (insert_new-Interns name t v absent (leb→gt _ _ room))
      ]
]

pub resolve-Interns :
    (name : Text) (t u : NameTable) (r : Interned) (j : NameId) {other : Text}
    → Interns name t u r
    → resolve j t ≡ some other
    → resolve j u ≡ some other
unfolding resolve
resolve-Interns name t u r j (known id same found) h = rw same h
resolve-Interns name t u r j (fresh id missing at same valid) h =
    ap (λ (w : NameTable). get_elem? w.names j) same
    ∙ get_elem?-append_left t.names (name ∷ []) j (lt_of_get_elem? t.names j h)
    ∙ h
resolve-Interns name t u r j (refused e missing full same) h = rw same h

pub answered-Interns :
    (name : Text) (t u : NameTable) (id : NameId) {r : Interned}
    → Interns name t u r
    → r ≡ ok id
    → (resolve id u ≡ some name)
unfolding resolve
answered-Interns name t u id (known j same found) h =
    let at : j ≡ id = ground arith in rw same (rw at at found)
answered-Interns name t u id (fresh j missing at same valid) h =
    let there : id ≡ length t.names = ground arith in
    ap (λ (w : NameTable). get_elem? w.names id) same
    ∙ ap (get_elem? (t.names ++ name ∷ [])) there
    ∙ get_elem?-append_end t.names name
answered-Interns name t u id (refused e missing full same) h = cc

pub Interns-IsValid :
    (name : Text) (t u : NameTable) (r : Interned) → IsValid t → Interns name t u r → IsValid u
Interns-IsValid name t u r v (known id same found) = subst IsValid (sym same) v
Interns-IsValid name t u r v (fresh id missing at same valid) = valid
Interns-IsValid name t u r v (refused e missing full same) =
    subst IsValid (sym same)
      (record { distinct = v.distinct; bounded = v.bounded; small = v.small })
