-- ===== src/Selection/Pattern/Greedy.antt =====
-- The loop of `matches` takes each literal at its first place, which loses no match.
use glass_lint.Prelude.{
  list_laws, ℕ, zero, suc, ◌+◌, ◌≤◌, Text, List, [], ◌∷◌, ◌++◌, true, false, arith, refl, sym, ap,
  ◌∙◌,
}
use glass_lint.Prelude.{◌≡◌, ◌↔◌, inl, inr, subst, nat_beq, nat_beq_iff, Bool-cases, none, some}
use glass_lint.Prelude.{
  length, length-append, drop, drop-append, Option-cases, some_injective, append_assoc, ◌==◌, ==→≡,
  ==_refl, nat_eq, list_eq,
}
use glass_lint.Selection.Pattern.{
  PatternSegment, literal, wildcard, starts_with, ends_with, find, one_more,
}
use glass_lint.Selection.Pattern.Segments.{Accepts}

pub starts_with_text_iff : (l s : Text) → (starts_with l s ≡ true) ↔ ((v : Text) × (s ≡ l ++ v))
starts_with_text_iff [] s = (λ h. (s, refl), λ h. refl)
starts_with_text_iff (c ∷ l) [] = (λ h. absurd cc, λ (v, eq). absurd cc)
starts_with_text_iff (c ∷ l) (d ∷ s) = (
  λ h.
      let same : c ≡ d = ground (arith, nat_beq_iff c d) in
      let (v, eq) = (starts_with_text_iff l s).0 (ground arith) in (v, cc),
  λ (v, eq).
      let same : nat_beq c d ≡ true = (nat_beq_iff c d).1 cc in
      let rest : starts_with l s ≡ true = (starts_with_text_iff l s).1 (v, cc) in
      rw (same, rest) refl,
)

pub ends_with-suffix : (l s u : Text) → s ≡ u ++ l → ends_with l s ≡ true
unfolding ends_with
ends_with-suffix l [] [] eq = subst (λ x. (l == x) ≡ true) (sym eq) (==_refl l)
ends_with-suffix l [] (c ∷ u) eq = absurd cc
ends_with-suffix l (c ∷ s) [] eq =
    let same : (l == c ∷ s) ≡ true = subst (λ x. (l == x) ≡ true) (sym eq) (==_refl l) in
    rw same refl
ends_with-suffix l (c ∷ s) (d ∷ u) eq =
    let rest : ends_with l s ≡ true = ends_with-suffix l s u cc in ground arith

pub ends_with→suffix : (l s : Text) → ends_with l s ≡ true → (u : Text) × (s ≡ u ++ l)
unfolding ends_with
ends_with→suffix l [] h = ([], sym (==→≡ l [] h))
ends_with→suffix l (c ∷ s) h = elim (Bool-cases (l == c ∷ s)) [
  | inl same ↦ ([], sym (==→≡ l (c ∷ s) same))
  | inr other ↦ let (u, eq) = ends_with→suffix l s (rw other at h) in (c ∷ u, ap (λ x. c ∷ x) eq)
]

find-here : (l s : Text) → starts_with l s ≡ true → find l s ≡ some 0
unfolding find
find-here l [] h = rw h refl
find-here l (c ∷ s) h = rw h refl

drop-append_left : (n : ℕ) (xs ys : Text) → n ≤ length xs → drop n (xs ++ ys) ≡ drop n xs ++ ys
drop-append_left zero xs ys h = refl
drop-append_left (suc n) [] ys h = absurd (omega arith)
drop-append_left (suc n) (x ∷ xs) ys h = drop-append_left n xs ys (omega arith)

drop-suc : (k n : ℕ) (c : ℕ) (s : Text) → drop (suc k + n) (c ∷ s) ≡ drop (k + n) s
drop-suc k n c s = let step : suc k + n ≡ suc (k + n) = omega arith in ap (λ m. drop m (c ∷ s)) step

find-later :
    (l s : Text) (c k : ℕ)
    → starts_with l (c ∷ s) ≡ false
    → find l s ≡ some k
    → find l (c ∷ s) ≡ some (suc k)
unfolding find
find-later l s c k later h = rw (later, h) refl

-- A place is found, and behind it stands at least the text `v`.
abbrev pub Found : Text → Text → Text → Type 0
Found l s v = (k : ℕ) × (w : Text) × (find l s ≡ some k) × (drop (k + length l) s ≡ w ++ v)

Found-here : (l s u v : Text) → s ≡ u ++ l ++ v → starts_with l s ≡ true → Found l s v
Found-here l s u v eq here = (0, drop (length l) (u ++ l), find-here l s here, behind)
  where
    behind : drop (0 + length l) s ≡ drop (length l) (u ++ l) ++ v
    behind =
        let whole : s ≡ (u ++ l) ++ v = eq in
        let same : 0 + length l ≡ length l = omega arith in
        ap (drop (0 + length l)) whole
        ∙ ap (λ m. drop m ((u ++ l) ++ v)) same
        ∙ drop-append_left (length l) (u ++ l) v (omega (arith, length-append u l))

-- `find` returns the first place: what stands behind any other place stands behind it too.
pub find-first : (l s u v : Text) → s ≡ u ++ l ++ v → Found l s v
find-first l s [] v eq = Found-here l s [] v eq ((starts_with_text_iff l s).1 (v, eq))
find-first l [] (d ∷ u) v eq = absurd cc
find-first l (c ∷ s) (d ∷ u) v eq = elim (Bool-cases (starts_with l (c ∷ s))) [
  | inl here ↦ Found-here l (c ∷ s) (d ∷ u) v eq here
  | inr later ↦
      let (k, w, found, rest) = find-first l s u v cc in
      (suc k, w, find-later l s c k later found, drop-suc k (length l) c s ∙ rest)
]

starts_with-drop : (l s : Text) → starts_with l s ≡ true → s ≡ l ++ drop (0 + length l) s
starts_with-drop l s h =
    let (v, eq) = (starts_with_text_iff l s).0 h in
    let same : 0 + length l ≡ length l = omega arith in
    eq
    ∙ ap (λ x. l ++ x) (sym (ap (λ m. drop m s) same ∙ ap (drop (length l)) eq ∙ drop-append l v))

pub find-some :
    (l s : Text) (k : ℕ) → find l s ≡ some k → (u : Text) × (s ≡ u ++ l ++ drop (k + length l) s)
unfolding find
find-some l [] k h = elim (Bool-cases (starts_with l [])) [
  | inl here ↦
      let zero_k : 0 ≡ k = some_injective (sym (find-here l [] here) ∙ h) in
      ([], starts_with-drop l [] here ∙ ap (λ m. l ++ drop (m + length l) []) zero_k)
  | inr later ↦ let clash : none ≡ some k = rw later at h in absurd cc
]
find-some l (c ∷ s) k h = elim (Bool-cases (starts_with l (c ∷ s))) [
  | inl here ↦
      let zero_k : 0 ≡ k = some_injective (sym (find-here l (c ∷ s) here) ∙ h) in
      ([], starts_with-drop l (c ∷ s) here ∙ ap (λ m. l ++ drop (m + length l) (c ∷ s)) zero_k)
  | inr later ↦
      let next : one_more (find l s) ≡ some k = rw later at h in
      elim (Option-cases (find l s)) [
        | inl nothing ↦ let clash : none ≡ some k = rw nothing at next in absurd cc
        | inr (j, found) ↦
            let suc_k : suc j ≡ k = some_injective (sym (ap one_more found) ∙ next) in
            let (u, eq) = find-some l s j found in
            (
              c ∷ u,
              ap (λ x. c ∷ x) eq
                  ∙ ap (λ x. c ∷ u ++ l ++ x)
                      (sym (drop-suc j (length l) c s)
                        ∙ ap (λ m. drop (m + length l) (c ∷ s)) suc_k),
            )
      ]
]

drop_nil : (n : ℕ) → drop {A = ℕ} n [] ≡ []
drop_nil zero = refl
drop_nil (suc n) = refl

pub drop-drop : (m n : ℕ) (s : Text) → drop (m + n) s ≡ drop n (drop m s)
drop-drop zero n s = ap (λ k. drop k s) (omega arith)
drop-drop (suc m) n [] = drop_nil (suc m + n) ∙ sym (drop_nil n)
drop-drop (suc m) n (c ∷ s) = drop-suc m n c s ∙ drop-drop m n s

-- A wildcard in front of a literal and another wildcard: the first place of the literal serves.
pub float_iff :
    (l : Text) (segments : List PatternSegment) (s : Text) (k : ℕ)
    → find l s ≡ some k
    → Accepts (wildcard ∷ literal l ∷ wildcard ∷ segments) s
      ↔ Accepts (wildcard ∷ segments) (drop (k + length l) s)
float_iff l segments s k found = (into, from)
  where
    into :
        Accepts (wildcard ∷ literal l ∷ wildcard ∷ segments) s
        → Accepts (wildcard ∷ segments) (drop (k + length l) s)
    into (u, v, eq, (w, eq', (x, y, eq'', rest))) =
        let (j, z, found', behind) = find-first l s u w (rw (eq, eq') (simp list_laws)) in
        let same : j ≡ k = some_injective (sym found' ∙ found) in
        (
          z ++ x,
          y,
          ap (λ m. drop (m + length l) s) (sym same)
              ∙ behind
              ∙ ap (λ t. z ++ t) eq''
              ∙ sym (append_assoc z x y),
          rest,
        )

    from :
        Accepts (wildcard ∷ segments) (drop (k + length l) s)
        → Accepts (wildcard ∷ literal l ∷ wildcard ∷ segments) s
    from h =
        let (u, eq) = find-some l s k found in
        (
          u,
          l ++ drop (k + length l) s,
          eq ∙ append_assoc u l (drop (k + length l) s),
          (drop (k + length l) s, refl, h),
        )
