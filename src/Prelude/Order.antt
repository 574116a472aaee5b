-- ===== src/Prelude/Order.antt =====
-- The bound `T: Ord` as an interface, with the instances that the program's maps and sorted vectors
-- are ordered by.
use Prim.Native.Nat.{ℕ}
use mathlib.Core.Path.{◌≡◌, ap}
use mathlib.Core.Logic.{◌⊎◌, ◌≢◌, inl, inr}
use mathlib.Core.Bool.{Bool, true, false}
use native.Mathlib.Omega.{arith}
use glass_lint.Prelude.Tests.{ltb, Bool-cases}

-- `Ord::cmp`, as the test `<` of a strict total order.
pub record Ord {ℓ} (T : Type ℓ) : Type ℓ where
  pub lt : T → T → Bool
  pub irrefl : (a : T) → lt a a ≡ false
  pub trans : (a b c : T) → lt a b ≡ true → lt b c ≡ true → lt a c ≡ true
  pub total : (a b : T) → lt a b ≡ false → lt b a ≡ false → a ≡ b

pub ltb_irrefl : (a : ℕ) → ltb a a ≡ false
ltb_irrefl a = ground arith

pub ltb_trans : (a b c : ℕ) → ltb a b ≡ true → ltb b c ≡ true → ltb a c ≡ true
ltb_trans a b c h k = ground arith

pub ltb_total : (a b : ℕ) → ltb a b ≡ false → ltb b a ≡ false → a ≡ b
ltb_total a b h k = ground arith

instance abbrev pub nat_ord : Ord ℕ
nat_ord = record { lt = ltb; irrefl = ltb_irrefl; trans = ltb_trans; total = ltb_total }

module _ {ℓ} {T : Type ℓ} ⦃o : Ord T⦄ where
  abbrev pub lt : T → T → Bool
  lt a b = o.lt a b

  pub lt_asymm : (a b : T) → lt a b ≡ true → lt b a ≡ false
  lt_asymm a b h = elim (Bool-cases (o.lt b a)) [
    | inr less ↦ less
    | inl back ↦ cc (o.trans a b a h back, o.irrefl a)
  ]

  pub lt_cases : (a b : T) → (lt a b ≡ true) ⊎ (a ≡ b) ⊎ (lt b a ≡ true)
  lt_cases a b = elim (Bool-cases (o.lt a b)) [
    | inl less ↦ inl less
    | inr not_less ↦ elim (Bool-cases (o.lt b a)) [
      | inl more ↦ inr (inr more)
      | inr not_more ↦ inr (inl (o.total a b not_less not_more))
    ]
  ]

  pub same_cases : (a b : T) → (a ≡ b) ⊎ (a ≢ b)
  same_cases a b = elim (lt_cases a b) [
    | inl less ↦ inr (λ e. cc (less, ap (λ x. o.lt x b) e, o.irrefl b))
    | inr other ↦ elim other [
      | inl same ↦ inl same
      | inr more ↦ inr (λ e. cc (more, ap (λ x. o.lt b x) e, o.irrefl b))
    ]
  ]
