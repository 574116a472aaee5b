-- ===== src/Name/Paths.antt =====
-- Paths of names and paths of identifiers determine one another.
use glass_lint.Prelude.{list_laws, ◌≡◌, ◌↔◌, refl, sym, ap, subst, ◌∙◌, some, [], ◌∷◌, ◌++◌}
use glass_lint.Prelude.{append_assoc, append-nil, some_injective, >>=-eq-some}
use glass_lint.Path.Symbol.{SymbolPath}
use glass_lint.Name.{NamePath, NameTable, resolve, lookup, lookup_onto, lookup_path, resolve_path}
use glass_lint.Name.Stability.{IsValid, lookup_found, lookup_resolved}

resolve_onto :
    (ids : NamePath) (path : SymbolPath) (acc : NamePath) (t : NameTable)
    → IsValid t
    → resolve_path ids t ≡ some path
    → lookup_onto acc path t ≡ some (acc ++ ids)
unfolding lookup_onto resolve_path
resolve_onto [] [] acc t v h = ap some (sym (append-nil acc))
resolve_onto [] (name ∷ path) acc t v h = cc
resolve_onto (id ∷ ids) path acc t v h =
    let (name, found, more) = >>=-eq-some (resolve id t) _ h in
    let (names, rest, whole) = >>=-eq-some (resolve_path ids t) _ more in
    let onto =
      resolve_onto ids names (acc ++ id ∷ []) t v rest ∙ ap some (append_assoc acc (id ∷ []) ids) in
    subst (λ p. lookup_onto acc p t ≡ some (acc ++ id ∷ ids)) (some_injective whole)
      (rw (lookup_resolved name t id v found, lookup_onto) onto)

lookup_onto-resolve :
    (path : SymbolPath) (acc out : NamePath) (t : NameTable)
    → lookup_onto acc path t ≡ some out
    → (ids : NamePath) × (out ≡ acc ++ ids) × (resolve_path ids t ≡ some path)
unfolding lookup_onto resolve_path
lookup_onto-resolve [] acc out t h = ([], sym (some_injective h) ∙ sym (append-nil acc), refl)
lookup_onto-resolve (name ∷ path) acc out t h =
    let (id, at, more) = >>=-eq-some (lookup name t) _ h in
    let (ids, whole, resolved) = lookup_onto-resolve path (acc ++ id ∷ []) out t more in
    (id ∷ ids, rw whole (simp list_laws), rw (lookup_found name t id at) (rw resolved))

-- On a valid table a path of names looks up to a path of identifiers exactly if that path resolves
-- to the path of names.
pub lookup_path_iff :
    (path : SymbolPath) (ids : NamePath) (t : NameTable)
    → IsValid t
    → (lookup_path path t ≡ some ids) ↔ (resolve_path ids t ≡ some path)
unfolding lookup_path
lookup_path_iff path ids t v = (
  λ h.
      let (out, whole, resolved) = lookup_onto-resolve path [] ids t h in
      subst (λ l. resolve_path l t ≡ some path) (sym whole) resolved,
  resolve_onto ids path [] t v,
)
