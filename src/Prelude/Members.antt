-- ===== src/Prelude/Members.antt =====
-- Membership in a list and lists without repetition, by recursion, so that tactics see through.
use mathlib.Core.Path.{◌≡◌, refl, sym, ap, subst}
use mathlib.Core.Logic.{◌⊎◌, inl, inr, ◌↔◌}
use mathlib.Core.Bool.{Bool, true, false, ◌||◌}
use mathlib.Core.List.{List, [], ◌∷◌, ◌++◌, map}
use mathlib.Core.Option.{some}
use Prim.Native.Nat.{ℕ, zero, suc}
use native.Mathlib.Omega.{arith}
use glass_lint.Prelude.Equality.{Eq, ◌==◌}
use glass_lint.Prelude.Lists.{get_elem?}

module _ {A : Type 0} where
  infix 40 ◌∈◌
  abbrev pub ◌∈◌ : A → List A → Type 0
  a ∈ [] = ⊥
  a ∈ x ∷ xs = (a ≡ x) ⊎ (a ∈ xs)

  -- No item stands twice.
  abbrev pub IsNodup : List A → Type 0
  IsNodup [] = Unit
  IsNodup (x ∷ xs) = ¬ (x ∈ xs) × IsNodup xs

  pub mem-append : (a : A) (xs ys : List A) → (a ∈ xs ++ ys) ↔ ((a ∈ xs) ⊎ (a ∈ ys))
  mem-append a [] ys = (λ h. inr h, elim [ inl h ↦ absurd h | inr h ↦ h ])
  mem-append a (x ∷ xs) ys = ground (arith, mem-append a xs ys)

  pub mem_of_get_elem? : (xs : List A) (i : ℕ) {a : A} → get_elem? xs i ≡ some a → a ∈ xs
  mem_of_get_elem? [] i h = cc
  mem_of_get_elem? (x ∷ xs) zero h = inl (ground arith)
  mem_of_get_elem? (x ∷ xs) (suc i) h = inr (mem_of_get_elem? xs i h)

  pub IsNodup-injective :
      (xs : List A) (i j : ℕ) {a : A}
      → IsNodup xs
      → get_elem? xs i ≡ some a
      → get_elem? xs j ≡ some a
      → i ≡ j
  IsNodup-injective [] i j n hi hj = cc
  IsNodup-injective (x ∷ xs) zero zero n hi hj = refl
  IsNodup-injective (x ∷ xs) zero (suc j) {a} n hi hj =
      let same : x ≡ a = cc in
      absurd (n.0 (subst (λ b. b ∈ xs) (sym same) (mem_of_get_elem? xs j hj)))
  IsNodup-injective (x ∷ xs) (suc i) zero {a} n hi hj =
      let same : x ≡ a = cc in
      absurd (n.0 (subst (λ b. b ∈ xs) (sym same) (mem_of_get_elem? xs i hi)))
  IsNodup-injective (x ∷ xs) (suc i) (suc j) n hi hj = ap suc (IsNodup-injective xs i j n.1 hi hj)

  pub IsNodup-append_end : (xs : List A) (x : A) → IsNodup xs → ¬ (x ∈ xs) → IsNodup (xs ++ x ∷ [])
  IsNodup-append_end [] x n h = (λ m. m, tt)
  IsNodup-append_end (y ∷ xs) x n h = (
    λ m. elim ((mem-append y xs (x ∷ [])).0 m) [
      | inl old ↦ n.0 old
      | inr new ↦ elim new [ inl e ↦ h (inl (sym e)) | inr bad ↦ bad ]
    ],
    IsNodup-append_end xs x n.1 (λ m. h (inr m)),
  )

module _ {A B : Type 0} (f : A → B) where
  pub mem-map : (a : A) (xs : List A) → a ∈ xs → f a ∈ map f xs
  mem-map a [] m = absurd m
  mem-map a (x ∷ xs) (inl e) = inl (ap f e)
  mem-map a (x ∷ xs) (inr m) = inr (mem-map a xs m)

  pub mem_of_map : (b : B) (xs : List A) → b ∈ map f xs → (a : A) × (a ∈ xs) × (b ≡ f a)
  mem_of_map b [] m = absurd m
  mem_of_map b (x ∷ xs) (inl e) = (x, inl refl, e)
  mem_of_map b (x ∷ xs) (inr m) = let (a, at, e) = mem_of_map b xs m in (a, inr at, e)

module _ {A : Type 0} ⦃e : Eq A⦄ where
  abbrev pub contains : List A → A → Bool
  contains [] a = false
  contains (x ∷ xs) a = a == x || contains xs a

  pub contains_iff : (xs : List A) (a : A) → (contains xs a ≡ true) ↔ (a ∈ xs)
  contains_iff [] a = (λ h. cc, λ h. absurd h)
  contains_iff (x ∷ xs) a = ground (arith, e.eq_iff a x, contains_iff xs a)

  pub contains-false : (xs : List A) (a : A) → contains xs a ≡ false → ¬ (a ∈ xs)
  contains-false xs a h m = cc ((contains_iff xs a).1 m)
