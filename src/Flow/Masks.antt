-- ===== src/Flow/Masks.antt =====
-- The word operations, bit by bit: masks of the first indices and the tests on words.
use glass_lint.Prelude.{ℕ, zero, suc, ◌<◌, ◌≤◌, ◌≡◌, refl, ap, ◌∙◌, subst, inl, inr}
use glass_lint.Prelude.{true, false, not, some, none, Bool-cases}
use glass_lint.Prelude.{ltb, nat_beq, arith, lt→ltb}
use glass_lint.Prelude.Order.{nat_ord}
use glass_lint.Prelude.Words.{
  Word, word_bits, max_word, bit_word, none_below, is_zero_word, same_below, saturating_pred,
}
use glass_lint.Flow.{mask}

pub none_below_lem : (n : ℕ) (w : Word) → none_below n w ≡ true → (j : ℕ) → j < n → w j ≡ false
unfolding none_below
none_below_lem zero w h j small = absurd (omega arith)
none_below_lem (suc n) w h j small = elim (Bool-cases (nat_beq n j)) [
  | inl same ↦ ground (arith, ap w (let e : n ≡ j = ground arith in e))
  | inr other ↦ none_below_lem n w (ground arith) j (ground arith)
]

pub none_below-false :
    (n : ℕ) (w : Word) → none_below n w ≡ false → (j : ℕ) × (j < n) × (w j ≡ true)
unfolding none_below
none_below-false zero w h = cc
none_below-false (suc n) w h = elim (Bool-cases (w n)) [
  | inl here ↦ (n, omega arith, here)
  | inr nothing ↦
      let (j, small, found) = none_below-false n w (ground arith) in (j, omega arith, found)
]

pub none_below-bit_word : (i n : ℕ) → none_below n (bit_word i) ≡ not (ltb i n)
unfolding none_below
none_below-bit_word i zero = ground arith
none_below-bit_word i (suc n) = ground (arith, none_below-bit_word i n)

pub same_below_lem : (n : ℕ) (w v : Word) → same_below n w v ≡ true → (j : ℕ) → j < n → w j ≡ v j
unfolding same_below
same_below_lem zero w v h j small = absurd (omega arith)
same_below_lem (suc n) w v h j small = elim (Bool-cases (nat_beq n j)) [
  | inl same ↦
      let e : n ≡ j = ground arith in
      let here : w n ≡ v n = ground arith in subst (λ x. w x ≡ v x) e here
  | inr other ↦ same_below_lem n w v (ground arith) j (ground arith)
]

pub same_below_of : (n : ℕ) (w v : Word) → ((j : ℕ) → j < n → w j ≡ v j) → same_below n w v ≡ true
unfolding same_below
same_below_of zero w v h = refl
same_below_of (suc n) w v h =
    ground (arith, h n (omega arith), same_below_of n w v (λ j small. h j (omega arith)))

pub is_zero-bit_word : (i : ℕ) → i < word_bits → is_zero_word (bit_word i) ≡ false
unfolding is_zero_word
is_zero-bit_word i h = none_below-bit_word i word_bits ∙ ap not (lt→ltb i word_bits h)

pub saturating_pred-bit_word : (i j : ℕ) → i < word_bits → saturating_pred (bit_word i) j ≡ ltb j i
unfolding saturating_pred
saturating_pred-bit_word i j h = rw (is_zero-bit_word i h, none_below-bit_word i j) (ground arith)

-- The mask of the first `count` indices.
pub record Masks (count : ℕ) : Type 0 where
  pub word : Word
  pub returns : mask count ≡ some word
  pub bits : (j : ℕ) → j < word_bits → word j ≡ ltb j count

pub mask-Masks : (count : ℕ) → count ≤ word_bits → Masks count
unfolding mask
mask-Masks count h = elim (Bool-cases (nat_beq count word_bits)) [
  | inl full ↦ record { word = max_word; returns = ground arith; bits = λ j small. ground arith }
  | inr part ↦ record {
    word = saturating_pred (bit_word count);
    returns = ground arith;
    bits = λ j small. saturating_pred-bit_word count j (ground arith);
  }
]

pub mask-none : (count : ℕ) → word_bits < count → mask count ≡ none
unfolding mask
mask-none count h = ground arith

pub some_bit : (w : Word) → is_zero_word w ≡ false → (j : ℕ) × (w j ≡ true)
unfolding is_zero_word
some_bit w h = let (j, small, found) = none_below-false word_bits w h in (j, found)

pub not_zero : (w : Word) (j : ℕ) → j < word_bits → w j ≡ true → is_zero_word w ≡ false
unfolding is_zero_word
not_zero w j small h = elim (Bool-cases (none_below word_bits w)) [
  | inl nothing ↦ cc (none_below_lem word_bits w nothing j small)
  | inr something ↦ something
]
