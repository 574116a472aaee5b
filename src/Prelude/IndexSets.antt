-- ===== src/Prelude/IndexSets.antt =====
-- `IndexSet::get_index_of`: the place of an item in a list without repetition, and only that.
use glass_lint.Prelude.{
  ℕ, suc, ◌+◌, ◌≡◌, sym, ap, ◌∙◌, Option, none, some, List, [], ◌∷◌, get_elem?, arith, inl, inr,
}
use glass_lint.Prelude.{Eq, ◌==◌, ==→≡, ==→≢, Bool-cases, if◌then◌else◌}
use glass_lint.Prelude.{◌∈◌, IsNodup, mem_of_get_elem?, IsNodup-injective, Option-cases}

module _ {A : Type 0} ⦃e : Eq A⦄ where
  -- The search from the index of the first item on.
  unfoldable pub index_from : ℕ → A → List A → Option ℕ
  index_from i item [] = none
  index_from i item (x ∷ xs) =
      let later = index_from (i + 1) item xs in if x == item then some i else later

  unfoldable pub get_index_of : A → List A → Option ℕ
  unfolding index_from
  get_index_of item items = index_from 0 item items

  index_from-found :
      (i : ℕ) (item : A) (xs : List A) {j : ℕ}
      → index_from i item xs ≡ some j
      → (k : ℕ) × (j ≡ i + k) × (get_elem? xs k ≡ some item)
  unfolding index_from
  index_from-found i item [] h = cc
  index_from-found i item (x ∷ xs) h = elim (Bool-cases (x == item)) [
    | inl same ↦ (0, ground arith, ap some (==→≡ x item same))
    | inr other ↦
        let (k, at, found) = index_from-found (i + 1) item xs (rw other at h) in
        (suc k, omega arith, found)
  ]

  index_from-missing :
      (i : ℕ) (item : A) (xs : List A) → index_from i item xs ≡ none → ¬ (item ∈ xs)
  unfolding index_from
  index_from-missing i item [] h m = m
  index_from-missing i item (x ∷ xs) h m = elim (Bool-cases (x == item)) [
    | inl same ↦ cc (rw same at h)
    | inr other ↦ elim m [
      | inl e ↦ ==→≢ x item other (sym e)
      | inr later ↦ index_from-missing (i + 1) item xs (rw other at h) later
    ]
  ]

  pub get_index_of-found :
      (item : A) (xs : List A) {i : ℕ} → get_index_of item xs ≡ some i → get_elem? xs i ≡ some item
  unfolding get_index_of
  get_index_of-found item xs {i} h =
      let (k, at, found) = index_from-found 0 item xs h in
      let same : i ≡ k = omega arith in rw same found

  pub get_index_of-missing : (item : A) (xs : List A) → get_index_of item xs ≡ none → ¬ (item ∈ xs)
  unfolding get_index_of
  get_index_of-missing item xs = index_from-missing 0 item xs

  -- In a list without repetition an item is found at its place.
  pub get_index_of-place :
      (item : A) (xs : List A) (i : ℕ)
      → IsNodup xs
      → get_elem? xs i ≡ some item
      → get_index_of item xs ≡ some i
  get_index_of-place item xs i n h = elim (Option-cases (get_index_of item xs)) [
    | inl missing ↦ absurd (get_index_of-missing item xs missing (mem_of_get_elem? xs i h))
    | inr (j, at) ↦ at ∙ ap some (IsNodup-injective xs j i n (get_index_of-found item xs at) h)
  ]
