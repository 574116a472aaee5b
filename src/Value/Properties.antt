-- ===== src/Value/Properties.antt =====
-- Static properties: the last value written for a name is read, in the order of the first writes.
use glass_lint.Prelude.{
  ◌≡◌, ◌≤◌, ◌<◌, refl, ap, arith, inl, inr, Bool, true, false, Option, none, some, List, [], ◌∷◌,
  ◌++◌, map, length, leb, leb→le, leb→gt, nat_beq, if◌then◌else◌, Bool-cases,
}
use glass_lint.Name.{NameId}
use glass_lint.Value.{
  StaticProperties, max_object_keys, overwrite, insert, find, get_property, keys,
}

module _ {V : Type 0} where
  abbrev key_list : List (NameId × V) → List NameId
  key_list entries = map (λ e. e.0) entries

  abbrev write : NameId → V → Option V → NameId → Option V
  write name value old k = if nat_beq name k then some value else old

  data Overwritten (name : NameId) (value : V) (es : List (NameId × V))
      : Option (List (NameId × V)) → Type 0 where
    absent : find name es ≡ none → Overwritten name value es none
    present :
        (es' : List (NameId × V)) (old : V)
        → find name es ≡ some old
        → key_list es' ≡ key_list es
        → ((k : NameId) → find k es' ≡ write name value (find k es) k)
        → Overwritten name value es (some es')

  -- Past an entry of another name.
  pass :
      (name : NameId) (value : V) (key : NameId) (old : V) (es : List (NameId × V))
      (r : Option (List (NameId × V)))
      → nat_beq key name ≡ false
      → Overwritten name value es r
      → Overwritten name value
          ((key, old) ∷ es)
          (elim r [ none ↦ none | some entries' ↦ some ((key, old) ∷ entries') ])
  unfolding find
  pass name value key old es _ other (absent missing) = absent (rw (other, find) missing)
  pass name value key old es _ other (present es' was at keys_kept reads) =
      present ((key, old) ∷ es') was (rw (other, find) at) (ap (λ ks. key ∷ ks) keys_kept) (λ k.
        elim (Bool-cases (nat_beq key k)) [
          | inl same ↦ ground (arith, same, other)
          | inr apart ↦ rw (apart, find) (reads k)
        ])

  overwrite-Overwritten :
      (name : NameId) (value : V) (es : List (NameId × V))
      → Overwritten name value es (overwrite name value es)
  unfolding overwrite find
  overwrite-Overwritten name value [] = absent refl
  overwrite-Overwritten name value ((key, old) ∷ es) = elim (Bool-cases (nat_beq key name)) [
    | inl same ↦
        rw (same, overwrite)
          (present ((key, value) ∷ es) old (rw (same, find)) refl (λ k. ground arith))
    | inr other ↦
        rw (other, overwrite)
          (pass name value key old es (overwrite name value es) other
            (overwrite-Overwritten name value es))
  ]

  find-append_end :
      (name : NameId) (value : V) (es : List (NameId × V)) (k : NameId)
      → find name es ≡ none
      → find k (es ++ (name, value) ∷ []) ≡ write name value (find k es) k
  unfolding find
  find-append_end name value [] k h = refl
  find-append_end name value ((key, old) ∷ es) k h = elim (Bool-cases (nat_beq key name)) [
    | inl same ↦ cc (rw (same, find) at h)
    | inr other ↦
        let rest = find-append_end name value es k (rw (other, find) at h) in
        elim (Bool-cases (nat_beq key k)) [
          | inl here ↦ ground (arith, here, other)
          | inr apart ↦ rw (apart, find) rest
        ]
  ]

  -- What writing a property does.
  pub data Written (name : NameId) (value : V) (p : StaticProperties V)
      : StaticProperties V × Bool → Type 0 where
    replaced :
        (q : StaticProperties V) (old : V)
        → get_property name p ≡ some old
        → keys q ≡ keys p
        → ((k : NameId)
            → get_property k q ≡ (if nat_beq name k then some value else get_property k p))
        → Written name value p (q, true)
    added :
        (q : StaticProperties V)
        → get_property name p ≡ none
        → length p.entries < max_object_keys
        → keys q ≡ keys p ++ name ∷ []
        → ((k : NameId)
            → get_property k q ≡ (if nat_beq name k then some value else get_property k p))
        → Written name value p (q, true)
    refused :
        get_property name p ≡ none
        → max_object_keys ≤ length p.entries
        → Written name value p (p, false)

  key_list-append :
      (es : List (NameId × V)) (e : NameId × V) → key_list (es ++ e ∷ []) ≡ key_list es ++ e.0 ∷ []
  key_list-append [] e = refl
  key_list-append (f ∷ es) e = ap (λ ks. f.0 ∷ ks) (key_list-append es e)

  -- `insert` replaces the value of a name that has one, at its place; or adds the name at the end,
  -- while there are fewer names than the bound; or changes nothing and answers `false`. Where it
  -- writes, the name reads the new value and every other name what it read before.
  pub insert-Written :
      (name : NameId) (value : V) (p : StaticProperties V)
      → Written name value p (insert name value p)
  unfolding insert get_property
  insert-Written name value p =
      written (overwrite name value p.entries) (overwrite-Overwritten name value p.entries)
    where
      written :
          (r : Option (List (NameId × V)))
          → Overwritten name value p.entries r
          → Written name value p (elim r [
            | some entries ↦ (record { entries = entries }, true)
            | none ↦
                if leb max_object_keys (length p.entries)
                then (p, false)
                else (record { entries = p.entries ++ (name, value) ∷ [] }, true)
          ])
      written _ (present es' old at keys_kept reads) =
          replaced (record { entries = es' }) old at keys_kept reads
      written _ (absent missing) = elim (Bool-cases (leb max_object_keys (length p.entries))) [
        | inl full ↦ rw full (refused missing (leb→le max_object_keys (length p.entries) full))
        | inr room ↦ rw room (
            added (record { entries = p.entries ++ (name, value) ∷ [] }) missing
              (leb→gt max_object_keys (length p.entries) room)
              (key_list-append p.entries (name, value))
              (λ k. find-append_end name value p.entries k missing))
      ]
