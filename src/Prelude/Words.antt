-- ===== src/Prelude/Words.antt =====
-- A `u64` as its bits, the lowest first: bit `j` is set where the word is `true` at `j`.
use Prim.Native.Nat.{ℕ, zero, suc}
use mathlib.Core.Bool.{Bool, true, false, ◌&&◌, ◌||◌, not}
use glass_lint.Prelude.Tests.{ltb, nat_beq, if◌then◌else◌}

abbrev pub Word : Type 0
Word = ℕ → Bool

-- `u64::BITS`.
abbrev pub word_bits : ℕ
word_bits = 64

abbrev pub zero_word : Word
zero_word j = false

-- `u64::MAX`.
abbrev pub max_word : Word
max_word j = ltb j word_bits

-- `1 << i`.
abbrev pub bit_word : ℕ → Word
bit_word i j = nat_beq i j

-- `w |= v`.
abbrev pub or_word : Word → Word → Word
or_word w v j = w j || v j

-- `w &= !v`.
abbrev pub and_not_word : Word → Word → Word
and_not_word w v j = w j && not (v j)

-- No bit below `n` is set.
unfoldable pub none_below : ℕ → Word → Bool
none_below zero w = true
none_below (suc n) w = not (w n) && none_below n w

-- `w == 0`.
unfoldable pub is_zero_word : Word → Bool
unfolding none_below
is_zero_word w = none_below word_bits w

unfoldable pub same_below : ℕ → Word → Word → Bool
same_below zero w v = true
same_below (suc n) w v = (if w n then v n else not (v n)) && same_below n w v

-- `w == v`.
unfoldable pub word_beq : Word → Word → Bool
unfolding same_below
word_beq w v = same_below word_bits w v

-- `w.saturating_sub(1)`: the borrow runs up to the lowest bit that is set.
unfoldable pub saturating_pred : Word → Word
unfolding is_zero_word
saturating_pred w j = if is_zero_word w then false else if none_below j w then not (w j) else w j
