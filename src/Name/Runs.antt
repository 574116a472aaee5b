-- ===== src/Name/Runs.antt =====
-- Names interned one after the other.
use glass_lint.Prelude.{◌≡◌, ◌∙◌, refl, ap, ℕ, some, List, [], ◌∷◌, ◌++◌, Text}
use glass_lint.Name.{NameId, NameTable, ok, intern, resolve, lookup, with_max_entries}
use glass_lint.Name.Stability.{
  IsValid, with_max_entries-IsValid, intern-Interns, resolve-Interns, answered-Interns,
  Interns-IsValid, lookup_resolved,
}

-- The table after some names have been interned, one after the other.
unfoldable pub intern_all : List Text → NameTable → NameTable
intern_all [] t = t
intern_all (name ∷ names) t = intern_all names (intern name t).0

intern_all-append :
    (before after : List Text) (t : NameTable)
    → intern_all (before ++ after) t ≡ intern_all after (intern_all before t)
unfolding intern_all
intern_all-append [] after t = refl
intern_all-append (name ∷ before) after t = intern_all-append before after (intern name t).0

intern_all-IsValid : (names : List Text) (t : NameTable) → IsValid t → IsValid (intern_all names t)
unfolding intern_all
intern_all-IsValid [] t v = v
intern_all-IsValid (name ∷ names) t v =
    intern_all-IsValid names (intern name t).0
      (Interns-IsValid name t (intern name t).0 (intern name t).1 v (intern-Interns name t v))

resolve-kept :
    (names : List Text) (t : NameTable) (j : NameId) {other : Text}
    → IsValid t
    → resolve j t ≡ some other
    → resolve j (intern_all names t) ≡ some other
unfolding intern_all
resolve-kept [] t j v h = h
resolve-kept (name ∷ names) t j v h =
    let it = intern-Interns name t v in
    resolve-kept names (intern name t).0 j
      (Interns-IsValid name t (intern name t).0 (intern name t).1 v it)
      (resolve-Interns name t (intern name t).0 (intern name t).1 j it h)

-- Whatever names are interned into an empty table, before a name and after it: if the name is
-- answered with an identifier, then in the table at the end this identifier resolves to the name,
-- and the name looks up to this identifier.
pub resolve-intern_all :
    (max_entries : ℕ) (before after : List Text) (name : Text) (id : NameId)
    → (intern name (intern_all before (with_max_entries max_entries))).1 ≡ ok id
    → (resolve id (intern_all (before ++ name ∷ after) (with_max_entries max_entries)) ≡ some name)
      × (lookup name (intern_all (before ++ name ∷ after) (with_max_entries max_entries)) ≡ some id)
resolve-intern_all max_entries before after name id answered =
    let start = with_max_entries max_entries in
    let t = intern_all before start in
    let v = intern_all-IsValid before start (with_max_entries-IsValid max_entries) in
    let u = (intern name t).0 in
    let it = intern-Interns name t v in
    let valid = Interns-IsValid name t u (intern name t).1 v it in
    let end : intern_all (before ++ name ∷ after) start ≡ intern_all after u =
      intern_all-append before (name ∷ after) start ∙ (unfold intern_all in refl) in
    let found = resolve-kept after u id valid (answered-Interns name t u id it answered) in
    (
      ap (resolve id) end ∙ found,
      ap (lookup name) end
          ∙ lookup_resolved name (intern_all after u) id (intern_all-IsValid after u valid) found,
    )
