-- ===== src/Prelude/Sorted/Splits.antt =====
-- A sorted vector, split where a binary search arrives.
use mathlib.Core.Path.{◌≡◌, refl, ap, subst}
use mathlib.Core.Logic.{inl, inr}
use mathlib.Core.Bool.{true}
use mathlib.Core.Option.{some}
use mathlib.Core.List.{List, [], ◌∷◌, ◌++◌}
use glass_lint.Prelude.Lists.{length, get_elem?, set}
use glass_lint.Prelude.Results.{ok, err}
use glass_lint.Prelude.Order.{Ord, lt, lt_asymm, lt_cases}
use glass_lint.Prelude.Sorted.{insert_at, remove_at, binary_search_by_key}

module _ {A : Type 0} where
  pub insert_at-length :
      (ls rs : List A) (a : A) → insert_at (length ls) a (ls ++ rs) ≡ ls ++ a ∷ rs
  unfolding insert_at
  insert_at-length [] rs a = refl
  insert_at-length (x ∷ ls) rs a = ap (λ l. x ∷ l) (insert_at-length ls rs a)

  pub remove_at-length : (ls rs : List A) (a : A) → remove_at (length ls) (ls ++ a ∷ rs) ≡ ls ++ rs
  unfolding remove_at
  remove_at-length [] rs a = refl
  remove_at-length (x ∷ ls) rs a = ap (λ l. x ∷ l) (remove_at-length ls rs a)

  pub set-length : (ls rs : List A) (a b : A) → set (ls ++ a ∷ rs) (length ls) b ≡ ls ++ b ∷ rs
  set-length [] rs a b = refl
  set-length (x ∷ ls) rs a b = ap (λ l. x ∷ l) (set-length ls rs a b)

  pub get_elem?-length : (ls rs : List A) (a : A) → get_elem? (ls ++ a ∷ rs) (length ls) ≡ some a
  get_elem?-length [] rs a = refl
  get_elem?-length (x ∷ ls) rs a = get_elem?-length ls rs a

module _ {A K : Type 0} ⦃o : Ord K⦄ (key : A → K) where
  abbrev pub IsBefore : K → List A → Type 0
  IsBefore k [] = Unit
  IsBefore k (a ∷ ls) = (lt (key a) k ≡ true) × IsBefore k ls

  abbrev pub IsAfter : K → List A → Type 0
  IsAfter k [] = Unit
  IsAfter k (a ∷ ls) = (lt k (key a) ≡ true) × IsAfter k ls

  abbrev pub IsSorted : List A → Type 0
  IsSorted [] = Unit
  IsSorted (a ∷ ls) = IsAfter (key a) ls × IsSorted ls

  pub IsAfter-trans : (j k : K) (ls : List A) → lt j k ≡ true → IsAfter k ls → IsAfter j ls
  IsAfter-trans j k [] h after = tt
  IsAfter-trans j k (a ∷ ls) h (first, rest) =
      (o.trans j k (key a) h first, IsAfter-trans j k ls h rest)

  pub search_hit :
      (k : K) (ls rs : List A) (a : A)
      → IsBefore k ls
      → key a ≡ k
      → binary_search_by_key key k (ls ++ a ∷ rs) ≡ ok (length ls)
  unfolding binary_search_by_key
  search_hit k [] rs a h e = rw (e, o.irrefl k)
  search_hit k (x ∷ ls) rs a (h, hs) e = rw (h, search_hit k ls rs a hs e)

  pub search_miss :
      (k : K) (ls rs : List A)
      → IsBefore k ls
      → IsAfter k rs
      → binary_search_by_key key k (ls ++ rs) ≡ err (length ls)
  unfolding binary_search_by_key
  search_miss k [] [] h g = refl
  search_miss k [] (b ∷ rs) h (g, gs) = rw (lt_asymm k (key b) g, g)
  search_miss k (x ∷ ls) rs (h, hs) g = rw (h, search_miss k ls rs hs g)

  -- Where a search for `k` arrives.
  pub data Split (k : K) (xs : List A) : Type 0 where
    hit :
        (ls rs : List A) (a : A)
        → xs ≡ ls ++ a ∷ rs
        → key a ≡ k
        → IsBefore k ls
        → IsAfter k rs
        → Split k xs
    miss : (ls rs : List A) → xs ≡ ls ++ rs → IsBefore k ls → IsAfter k rs → Split k xs

  Split-cons : (k : K) (x : A) (xs : List A) → lt (key x) k ≡ true → Split k xs → Split k (x ∷ xs)
  Split-cons k x xs h (hit ls rs a whole same before after) =
      hit (x ∷ ls) rs a (ap (λ l. x ∷ l) whole) same (h, before) after
  Split-cons k x xs h (miss ls rs whole before after) =
      miss (x ∷ ls) rs (ap (λ l. x ∷ l) whole) (h, before) after

  pub split : (k : K) (xs : List A) → IsSorted xs → Split k xs
  split k [] s = miss [] [] refl tt tt
  split k (x ∷ xs) (first, rest) = elim (lt_cases (key x) k) [
    | inl less ↦ Split-cons k x xs less (split k xs rest)
    | inr other ↦ elim other [
      | inl same ↦ hit [] xs x refl same tt (subst (λ j. IsAfter j xs) same first)
      | inr more ↦ miss [] (x ∷ xs) refl tt (more, IsAfter-trans k (key x) xs more first)
    ]
  ]

  IsAfter-insert :
      (j : K) (ls rs : List A) (a : A)
      → IsAfter j (ls ++ rs)
      → lt j (key a) ≡ true
      → IsAfter j (ls ++ a ∷ rs)
  IsAfter-insert j [] rs a h g = (g, h)
  IsAfter-insert j (x ∷ ls) rs a (h, hs) g = (h, IsAfter-insert j ls rs a hs g)

  IsAfter-remove :
      (j : K) (ls rs : List A) (a : A) → IsAfter j (ls ++ a ∷ rs) → IsAfter j (ls ++ rs)
  IsAfter-remove j [] rs a h = h.1
  IsAfter-remove j (x ∷ ls) rs a (h, hs) = (h, IsAfter-remove j ls rs a hs)

  pub IsSorted-insert :
      (ls rs : List A) (a : A)
      → IsSorted (ls ++ rs)
      → IsBefore (key a) ls
      → IsAfter (key a) rs
      → IsSorted (ls ++ a ∷ rs)
  IsSorted-insert [] rs a s h g = (g, s)
  IsSorted-insert (x ∷ ls) rs a (first, rest) (h, hs) g =
      (IsAfter-insert (key x) ls rs a first h, IsSorted-insert ls rs a rest hs g)

  pub IsSorted-remove : (ls rs : List A) (a : A) → IsSorted (ls ++ a ∷ rs) → IsSorted (ls ++ rs)
  IsSorted-remove [] rs a s = s.1
  IsSorted-remove (x ∷ ls) rs a (first, rest) =
      (IsAfter-remove (key x) ls rs a first, IsSorted-remove ls rs a rest)
