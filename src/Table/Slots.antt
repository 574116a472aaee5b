-- ===== src/Table/Slots.antt =====
-- Lemmas on the vector of slots.
use glass_lint.Prelude.{
  ℕ, zero, suc, ◌+◌, ◌-◌, ◌≤◌, ◌<◌, ◌≡◌, refl, ap, Option, none, some, inl, inr,
}
use glass_lint.Prelude.{
  List, [], ◌∷◌, ◌++◌, length, length-append, length-take, set, take, replicate,
}
use native.Mathlib.Numerals.{add-one}
use glass_lint.Prelude.{
  arith, subst, sym, ◌∙◌, Bool-cases, lt→ltb, ltb→lt, ltb, nat_beq, if◌then◌else◌, ◌∈◌,
}
use glass_lint.Table.{slot, resize, present, present_len, enumerate}

module _ {T : Type 0} where
  pub slot-beyond : (vs : List (Option T)) (i : ℕ) → length vs ≤ i → slot vs i ≡ none
  slot-beyond [] i h = refl
  slot-beyond (v ∷ vs) zero h = absurd (omega arith)
  slot-beyond (v ∷ vs) (suc i) h = slot-beyond vs i (omega arith)

  slot-replicate : (n i : ℕ) → slot {T = T} (replicate n none) i ≡ none
  slot-replicate zero i = refl
  slot-replicate (suc n) zero = refl
  slot-replicate (suc n) (suc i) = slot-replicate n i

  slot-append_none : (vs : List (Option T)) (n i : ℕ) → slot (vs ++ replicate n none) i ≡ slot vs i
  slot-append_none [] n i = slot-replicate n i
  slot-append_none (v ∷ vs) n zero = refl
  slot-append_none (v ∷ vs) n (suc i) = slot-append_none vs n i

  pub slot-resize : (vs : List (Option T)) (n i : ℕ) → slot (resize vs n) i ≡ slot vs i
  slot-resize vs n i = slot-append_none vs (n - length vs) i

  length-replicate : (n : ℕ) (v : Option T) → length (replicate n v) ≡ n
  length-replicate zero v = refl
  length-replicate (suc n) v = ap suc (length-replicate n v)

  pub length-resize : (vs : List (Option T)) (n : ℕ) → length vs ≤ n → length (resize vs n) ≡ n
  length-resize vs n h = omega (
    arith,
    length-append vs (replicate (n - length vs) none),
    length-replicate (n - length vs) none,
  )

  pub slot-set :
      (vs : List (Option T)) (i j : ℕ) (v : T)
      → i < length vs
      → slot (set vs i (some v)) j ≡ (if nat_beq i j then some v else slot vs j)
  slot-set [] i j v h = absurd (omega arith)
  slot-set (x ∷ vs) zero zero v h = refl
  slot-set (x ∷ vs) zero (suc j) v h = ground arith
  slot-set (x ∷ vs) (suc i) zero v h = ground arith
  slot-set (x ∷ vs) (suc i) (suc j) v h = ground (arith, slot-set vs i j v (omega arith))

  -- 1 for a value and 0 for a vacant slot.
  abbrev pub held : Option T → ℕ
  held none = 0
  held (some _) = 1

  pub length-present-set :
      (vs : List (Option T)) (i : ℕ) (v : T)
      → i < length vs
      → length (present (set vs i (some v))) + held (slot vs i) ≡ length (present vs) + 1
  length-present-set [] i v h = absurd (omega arith)
  length-present-set (none ∷ vs) zero v h = omega arith
  length-present-set (some x ∷ vs) zero v h = omega arith
  length-present-set (none ∷ vs) (suc i) v h = length-present-set vs i v (omega arith)
  length-present-set (some x ∷ vs) (suc i) v h =
      omega (arith, length-present-set vs i v (omega arith))

  present-append_none :
      (vs : List (Option T)) (n : ℕ) → present (vs ++ replicate n none) ≡ present vs
  present-append_none [] zero = refl
  present-append_none [] (suc n) = present-append_none [] n
  present-append_none (none ∷ vs) n = present-append_none vs n
  present-append_none (some x ∷ vs) n = ap (λ l. x ∷ l) (present-append_none vs n)

  pub present-resize : (vs : List (Option T)) (n : ℕ) → present (resize vs n) ≡ present vs
  present-resize vs n = present-append_none vs (n - length vs)

  pub present_len-le : (vs : List (Option T)) → present_len vs ≤ length vs
  unfolding present_len
  present_len-le [] = omega arith
  present_len-le (none ∷ vs) = ground (arith, present_len-le vs)
  present_len-le (some x ∷ vs) = ground (arith, present_len-le vs)

  slot-take_zero : (vs : List (Option T)) (i : ℕ) → present_len vs ≡ 0 → slot vs i ≡ none
  unfolding present_len
  slot-take_zero [] i h = refl
  slot-take_zero (none ∷ vs) zero h = refl
  slot-take_zero (none ∷ vs) (suc i) h = slot-take_zero vs i (ground arith)
  slot-take_zero (some x ∷ vs) i h = absurd (ground arith)

  -- The slots up to the last value, by recursion: nothing is left after it.
  unfoldable pub trim : List (Option T) → List (Option T)
  trim vs = take (present_len vs) vs

  trim_more :
      (v : Option T) (vs : List (Option T)) → 0 < present_len vs → trim (v ∷ vs) ≡ v ∷ trim vs
  unfolding trim present_len
  trim_more v vs h = rw (lt→ltb _ _ h) (rw add-one)

  trim_last :
      (v : Option T) (vs : List (Option T))
      → present_len vs ≡ 0
      → trim (v ∷ vs) ≡ elim v [ none ↦ [] | some x ↦ some x ∷ [] ]
  unfolding trim present_len
  trim_last none vs h = rw h
  trim_last (some x) vs h = rw h

  pub slot-trim : (vs : List (Option T)) (i : ℕ) → slot (trim vs) i ≡ slot vs i
  slot-trim [] i = unfold trim present_len in refl
  slot-trim (v ∷ vs) i = elim (Bool-cases (ltb 0 (present_len vs))) [
    | inl more ↦ ap (λ l. slot l i) (trim_more v vs (ltb→lt _ _ more)) ∙ under v vs i (slot-trim vs)
    | inr last ↦
        let none_left : present_len vs ≡ 0 = ground arith in
        ap (λ l. slot l i) (trim_last v vs none_left)
        ∙ final v vs i (λ j. slot-take_zero vs j none_left)
  ]
    where
      under :
          (v : Option T) (vs : List (Option T)) (i : ℕ)
          → ((j : ℕ) → slot (trim vs) j ≡ slot vs j)
          → slot (v ∷ trim vs) i ≡ slot (v ∷ vs) i
      under v vs zero h = refl
      under v vs (suc i) h = h i

      final :
          (v : Option T) (vs : List (Option T)) (i : ℕ)
          → ((j : ℕ) → slot vs j ≡ none)
          → slot (elim v [ none ↦ [] | some x ↦ some x ∷ [] ]) i ≡ slot (v ∷ vs) i
      final none vs zero h = refl
      final none vs (suc i) h = sym (h i)
      final (some x) vs zero h = refl
      final (some x) vs (suc i) h = sym (h i)

  present-take_zero : (vs : List (Option T)) → present_len vs ≡ 0 → present vs ≡ []
  unfolding present_len
  present-take_zero [] h = refl
  present-take_zero (none ∷ vs) h = present-take_zero vs (ground arith)
  present-take_zero (some x ∷ vs) h = absurd (ground arith)

  present-cons :
      (v : Option T) (vs ws : List (Option T))
      → present vs ≡ present ws
      → present (v ∷ vs) ≡ present (v ∷ ws)
  present-cons none vs ws h = h
  present-cons (some x) vs ws h = ap (λ l. x ∷ l) h

  pub present-trim : (vs : List (Option T)) → present (trim vs) ≡ present vs
  present-trim [] = unfold trim present_len in refl
  present-trim (v ∷ vs) = elim (Bool-cases (ltb 0 (present_len vs))) [
    | inl more ↦
        ap present (trim_more v vs (ltb→lt _ _ more))
        ∙ present-cons v (trim vs) vs (present-trim vs)
    | inr last ↦
        let none_left : present_len vs ≡ 0 = ground arith in
        ap present (trim_last v vs none_left) ∙ final v (present-take_zero vs none_left)
  ]
    where
      final :
          (v : Option T)
          → present vs ≡ []
          → present (elim v [ none ↦ [] | some x ↦ some x ∷ [] ]) ≡ present (v ∷ vs)
      final none h = sym h
      final (some x) h = ap (λ l. x ∷ l) (sym h)

  pub length-trim : (vs : List (Option T)) → length (trim vs) ≡ present_len vs
  unfolding trim
  length-trim vs = length-take (present_len vs) vs (present_len-le vs)

  -- `enumerate` lists the slot at each index, by index.
  pub mem-enumerate :
      (base : ℕ) (vs : List (Option T)) (i : ℕ) (v : T)
      → ((i, v) ∈ enumerate base vs)
      → (j : ℕ) × (i ≡ base + j) × (slot vs j ≡ some v)
  unfolding enumerate
  mem-enumerate base [] i v m = absurd m
  mem-enumerate base (none ∷ vs) i v m =
      let (j, at, found) = mem-enumerate (base + 1) vs i v m in (suc j, omega arith, found)
  mem-enumerate base (some x ∷ vs) i v (inl e) = (0, ground arith, ground arith)
  mem-enumerate base (some x ∷ vs) i v (inr m) =
      let (j, at, found) = mem-enumerate (base + 1) vs i v m in (suc j, omega arith, found)

  pub enumerate-mem :
      (base : ℕ) (vs : List (Option T)) (j : ℕ) (v : T)
      → slot vs j ≡ some v
      → (base + j, v) ∈ enumerate base vs
  unfolding enumerate
  enumerate-mem base [] j v h = cc
  enumerate-mem base (none ∷ vs) zero v h = cc
  enumerate-mem base (none ∷ vs) (suc j) v h =
      subst (λ n. (n, v) ∈ enumerate (base + 1) vs) (omega arith)
        (enumerate-mem (base + 1) vs j v h)
  enumerate-mem base (some x ∷ vs) zero v h = inl (ground arith)
  enumerate-mem base (some x ∷ vs) (suc j) v h = inr (
      subst (λ n. (n, v) ∈ enumerate (base + 1) vs) (omega arith)
        (enumerate-mem (base + 1) vs j v h))

  pub length-enumerate :
      (base : ℕ) (vs : List (Option T)) → length (enumerate base vs) ≡ length (present vs)
  unfolding enumerate
  length-enumerate base [] = refl
  length-enumerate base (none ∷ vs) = length-enumerate (base + 1) vs
  length-enumerate base (some x ∷ vs) = ap suc (length-enumerate (base + 1) vs)

  pub lt_of_slot : (vs : List (Option T)) (i : ℕ) {v : T} → slot vs i ≡ some v → i < length vs
  lt_of_slot [] i h = cc
  lt_of_slot (x ∷ vs) zero h = omega arith
  lt_of_slot (x ∷ vs) (suc i) h = omega (arith, lt_of_slot vs i h)
