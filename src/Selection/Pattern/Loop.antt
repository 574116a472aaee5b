-- ===== src/Selection/Pattern/Loop.antt =====
-- `matches` decides what a pattern accepts.
use glass_lint.Prelude.{
  list_laws, ℕ, suc, ◌+◌, ◌-◌, ◌<◌, Text, List, [], ◌∷◌, ◌++◌, Bool, true, false, ◌&&◌, arith, refl,
  sym, ap, ◌∙◌,
}
use glass_lint.Prelude.{◌≡◌, ◌↔◌, inl, inr, subst, nat_beq, none, some}
use glass_lint.Prelude.{length, drop, drop-append, Option-cases, append-nil, nat_eq, list_eq}
use glass_lint.Selection.Pattern.{
  PatternSegment, literal, wildcard, starts_with, ends_with, find, match_loop,
}
use glass_lint.Selection.Pattern.Segments.{Accepts}
use glass_lint.Selection.Pattern.Shape.{IsSpaced, HasWildcard}
use glass_lint.Selection.Pattern.Greedy.{
  starts_with_text_iff, ends_with-suffix, ends_with→suffix, find-first, drop-drop, float_iff,
}

loop-last :
    (count index pos : ℕ) (ends : Bool) (l id : Text)
    → count ≡ suc index + 1
    → ends ≡ false
    → match_loop count ends (suc index) pos (literal l ∷ []) id
      ≡ (ends_with l (drop pos id) && true)
unfolding match_loop
loop-last count index pos ends l id size open_end =
    let last : nat_beq (suc index) (count - 1) ≡ true = ground arith in
    let later : nat_beq (suc index) 0 ≡ false = ground arith in rw (later, last, open_end) refl

loop-inner :
    (count index pos : ℕ) (ends : Bool) (l : Text) (segments : List PatternSegment) (id : Text)
    → suc index + 1 < count
    → match_loop count ends (suc index) pos (literal l ∷ wildcard ∷ segments) id
      ≡ elim (find l (drop pos id)) as (λ x. Bool) [
        | none ↦ false
        | some found ↦
            match_loop count ends (suc (suc (suc index))) (pos + (found + length l)) segments id
      ]
unfolding match_loop
loop-inner count index pos ends l segments id size =
    let inner : nat_beq (suc index) (count - 1) ≡ false = ground arith in
    let later : nat_beq (suc index) 0 ≡ false = ground arith in rw (later, inner) refl

loop-found :
    (count index pos k : ℕ) (ends : Bool) (l : Text) (segments : List PatternSegment) (id : Text)
    → suc index + 1 < count
    → find l (drop pos id) ≡ some k
    → match_loop count ends (suc index) pos (literal l ∷ wildcard ∷ segments) id
      ≡ match_loop count ends (suc (suc (suc index))) (pos + (k + length l)) segments id
loop-found count index pos k ends l segments id size found =
    loop-inner count index pos ends l segments id size ∙ (rw found)

loop-missing :
    (count index pos : ℕ) (ends : Bool) (l : Text) (segments : List PatternSegment) (id : Text)
    → suc index + 1 < count
    → find l (drop pos id) ≡ none
    → match_loop count ends (suc index) pos (literal l ∷ wildcard ∷ segments) id ≡ false
loop-missing count index pos ends l segments id size missing =
    loop-inner count index pos ends l segments id size ∙ (rw missing)

-- `matches` behind a wildcard, on what the position has left.
loop_iff :
    (count index pos : ℕ) (ends : Bool) (segments : List PatternSegment) (id : Text)
    → count ≡ suc index + length segments
    → IsSpaced ends segments
    → (match_loop count ends (suc index) pos segments id ≡ true)
      ↔ Accepts (wildcard ∷ segments) (drop pos id)
unfolding match_loop
loop_iff count index pos ends [] id size spaced =
    (λ h. (drop pos id, [], sym (append-nil (drop pos id)), refl), λ h. refl)
loop_iff count index pos ends (wildcard ∷ segments) id size spaced =
    let rec = loop_iff count (suc index) pos ends segments id (omega arith) spaced in
    (
      λ h. ([], drop pos id, refl, rec.0 h),
      λ (u, v, eq, (x, y, eq', rest)). rec.1 (u ++ x, y, rw (eq, eq') (simp list_laws), rest),
    )
loop_iff count index pos ends (literal l ∷ []) id size spaced =
    let step = loop-last count index pos ends l id (omega arith) spaced in
    (
      λ h.
          let same : (ends_with l (drop pos id) && true) ≡ true = sym step ∙ h in
          let (u, eq) = ends_with→suffix l (drop pos id) (ground arith) in
          (u, l, eq, ([], sym (append-nil l), refl)),
      λ (u, v, eq, (w, eq', none_left)).
          let v_l : v ≡ l = eq' ∙ ap (λ t. l ++ t) none_left ∙ append-nil l in
          let same : ends_with l (drop pos id) ≡ true =
            ends_with-suffix l (drop pos id) u (eq ∙ ap (λ t. u ++ t) v_l) in
          step ∙ ap (λ b. b && true) same,
    )
loop_iff count index pos ends (literal l ∷ literal m ∷ segments) id size spaced = absurd spaced
loop_iff count index pos ends (literal l ∷ wildcard ∷ segments) id size spaced =
    let inner : suc index + 1 < count = omega arith in
    elim (Option-cases (find l (drop pos id))) [
      | inl missing ↦
          let step = loop-missing count index pos ends l segments id inner missing in
          (
            λ h. let clash : false ≡ true = sym step ∙ h in absurd cc,
            λ (u, v, eq, (w, eq', rest)).
                let (k, z, found, behind) =
                  find-first l (drop pos id) u w (rw (eq, eq') (simp list_laws)) in
                let clash : none ≡ some k = sym missing ∙ found in absurd cc,
          )
      | inr (k, found) ↦
          let step = loop-found count index pos k ends l segments id inner found in
          let rec =
            loop_iff count (suc (suc index)) (pos + (k + length l)) ends segments id (omega arith)
              spaced in
          let far = float_iff l segments (drop pos id) k found in
          let moved = drop-drop pos (k + length l) id in
          (
            λ h. far.1 (subst (Accepts (wildcard ∷ segments)) moved (rec.0 (sym step ∙ h))),
            λ h. step ∙ rec.1 (subst (Accepts (wildcard ∷ segments)) (sym moved) (far.0 h)),
          )
    ]

-- `matches` from its start, on a pattern with a wildcard.
pub segments_iff :
    (ends : Bool) (segments : List PatternSegment) (id : Text)
    → IsSpaced ends segments
    → HasWildcard segments
    → (match_loop (length segments) ends 0 0 segments id ≡ true) ↔ Accepts segments id
unfolding match_loop
segments_iff ends [] id spaced wild = absurd wild
segments_iff ends (wildcard ∷ segments) id spaced wild =
    loop_iff (suc (length segments)) 0 0 ends segments id (omega arith) spaced
segments_iff ends (literal l ∷ []) id spaced wild = absurd wild
segments_iff ends (literal l ∷ literal m ∷ segments) id spaced wild = absurd spaced
segments_iff ends (literal l ∷ wildcard ∷ segments) id spaced wild =
    let rec =
      loop_iff (suc (suc (length segments))) 1 (length l) ends segments id (omega arith) spaced in
    (
      λ h.
          let (v, eq) = (starts_with_text_iff l id).0 (ground arith) in
          let left : drop (length l) id ≡ v = ap (drop (length l)) eq ∙ drop-append l v in
          (v, eq, subst (Accepts (wildcard ∷ segments)) left (rec.0 (ground arith))),
      λ (v, eq, rest).
          let left : drop (length l) id ≡ v = ap (drop (length l)) eq ∙ drop-append l v in
          let first : starts_with l id ≡ true = (starts_with_text_iff l id).1 (v, eq) in
          let later = rec.1 (subst (Accepts (wildcard ∷ segments)) (sym left) rest) in
          rw (first, later) refl,
    )
