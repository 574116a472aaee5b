-- ===== src/Selection/Flags.antt =====
-- The flags of the overrides that matched a rule, and the error that they lead to.
use glass_lint.Prelude.{
  ℕ, zero, suc, Text, List, [], ◌∷◌, ◌++◌, map, Bool, true, false, ◌||◌, arith, refl, sym, ap, ◌∙◌,
}
use glass_lint.Prelude.{◌≡◌, inl, inr, Bool-cases, append_assoc}
use glass_lint.Prelude.{length, set, replicate, length-append, length-map}
use glass_lint.Selection.{RuleOverride, RuleSelection, CompiledRuleRecord, matches, is_enabled}
use glass_lint.Selection.{meets_baseline, apply_overrides, evaluate_from, evaluate}

abbrev pub or_list : List Bool → List Bool → List Bool
or_list [] ns = []
or_list (m ∷ ms) [] = []
or_list (m ∷ ms) (n ∷ ns) = (m || n) ∷ or_list ms ns

abbrev hits : Text → RuleOverride → Bool
hits id o = matches o.selector id

-- Whether an override matches some rule of the list.
abbrev pub hits_any : List CompiledRuleRecord → RuleOverride → Bool
hits_any [] o = false
hits_any (r ∷ rs) o = hits r.rule_id o || hits_any rs o

or_true : (m : Bool) → true ≡ (m || true)
or_true true = refl
or_true false = refl

or_false : (m : Bool) → m ≡ (m || false)
or_false true = refl
or_false false = refl

or_assoc : (a b c : Bool) → (a || b || c) ≡ (a || (b || c))
or_assoc true b c = refl
or_assoc false b c = refl

set-append :
    (ms ns : List Bool) (m : Bool) → set (ms ++ m ∷ ns) (length ms) true ≡ (ms ++ true ∷ []) ++ ns
set-append [] ns m = refl
set-append (x ∷ ms) ns m = ap (λ l. x ∷ l) (set-append ms ns m)

apply_overrides-flags :
    (os : List RuleOverride) (id : Text) (done ms : List Bool) (k : ℕ) (b : Bool)
    → k ≡ length done
    → length ms ≡ length os
    → (apply_overrides os k id (done ++ ms) b).0 ≡ done ++ or_list ms (map (hits id) os)
unfolding apply_overrides
apply_overrides-flags [] id done [] k b at size = refl
apply_overrides-flags [] id done (m ∷ ms) k b at size = absurd (omega arith)
apply_overrides-flags (o ∷ os) id done [] k b at size = absurd (omega arith)
apply_overrides-flags (o ∷ os) id done (m ∷ ms) k b at size =
    elim (Bool-cases (matches o.selector id)) [
      | inl hit ↦
          let rec =
            apply_overrides-flags os id (done ++ true ∷ []) ms (suc k) (is_enabled o.state)
              (omega (arith, length-append done (true ∷ []))) (omega arith) in
          let moved : set (done ++ m ∷ ms) k true ≡ (done ++ true ∷ []) ++ ms =
            ap (λ i. set (done ++ m ∷ ms) i true) at ∙ set-append done ms m in
          rw hit (
            rw moved (
              rec
              ∙ append_assoc done (true ∷ []) (or_list ms (map (hits id) os))
              ∙ ap (λ x. done ++ x ∷ or_list ms (map (hits id) os)) (or_true m)))
      | inr miss ↦
          let rec =
            apply_overrides-flags os id (done ++ m ∷ []) ms (suc k) b
              (omega (arith, length-append done (m ∷ []))) (omega arith) in
          rw miss (
            ap (λ l. (apply_overrides os (suc k) id l b).0) (sym (append_assoc done (m ∷ []) ms))
            ∙ rec
            ∙ append_assoc done (m ∷ []) (or_list ms (map (hits id) os))
            ∙ ap (λ x. done ++ x ∷ or_list ms (map (hits id) os)) (or_false m))
    ]

or_list-or :
    (f g : RuleOverride → Bool) (os : List RuleOverride) (ms : List Bool)
    → or_list (or_list ms (map f os)) (map g os) ≡ or_list ms (map (λ o. f o || g o) os)
or_list-or f g [] [] = refl
or_list-or f g [] (m ∷ ms) = refl
or_list-or f g (o ∷ os) [] = refl
or_list-or f g (o ∷ os) (m ∷ ms) =
    ap (λ l. (m || f o || g o) ∷ l) (or_list-or f g os ms)
    ∙ ap (λ x. x ∷ or_list ms (map (λ o. f o || g o) os)) (or_assoc m (f o) (g o))

or_list-false :
    (f : RuleOverride → Bool) (os : List RuleOverride)
    → or_list (replicate (length os) false) (map f os) ≡ map f os
or_list-false f [] = refl
or_list-false f (o ∷ os) = ap (λ l. f o ∷ l) (or_list-false f os)

length-replicate : (n : ℕ) → length (replicate n false) ≡ n
length-replicate zero = refl
length-replicate (suc n) = ap suc (length-replicate n)

or_list-none :
    (os : List RuleOverride) (ms : List Bool)
    → length ms ≡ length os
    → ms ≡ or_list ms (map (hits_any []) os)
or_list-none [] [] size = refl
or_list-none [] (m ∷ ms) size = absurd (omega arith)
or_list-none (o ∷ os) [] size = absurd (omega arith)
or_list-none (o ∷ os) (m ∷ ms) size =
    ap (λ l. m ∷ l) (or_list-none os ms (omega arith))
    ∙ ap (λ x. x ∷ or_list ms (map (hits_any []) os)) (or_false m)

length-or_list : (ms ns : List Bool) → length ms ≡ length ns → length (or_list ms ns) ≡ length ns
length-or_list [] ns size = size
length-or_list (m ∷ ms) [] size = refl
length-or_list (m ∷ ms) (n ∷ ns) size = ap suc (length-or_list ms ns (omega arith))

module _ (s : RuleSelection) where
  evaluate_from-flags :
      (rs : List CompiledRuleRecord) (k : ℕ) (ms : List Bool)
      → length ms ≡ length s.overrides
      → (evaluate_from s rs k ms).matched_overrides ≡ or_list ms (map (hits_any rs) s.overrides)
  unfolding evaluate_from
  evaluate_from-flags [] k ms size = or_list-none s.overrides ms size
  evaluate_from-flags (r ∷ rs) k ms size =
      let state = meets_baseline s.baseline r in
      let applied = apply_overrides s.overrides 0 r.rule_id ms state in
      let now = map (hits r.rule_id) s.overrides in
      let flags : applied.0 ≡ or_list ms now =
        apply_overrides-flags s.overrides r.rule_id [] ms 0 state refl size in
      let wide : length applied.0 ≡ length s.overrides =
        ap length flags
        ∙ length-or_list ms now (size ∙ sym (length-map (hits r.rule_id) s.overrides))
        ∙ length-map (hits r.rule_id) s.overrides in
      evaluate_from-flags rs (suc k) applied.0 wide
      ∙ ap (λ l. or_list l (map (hits_any rs) s.overrides)) flags
      ∙ or_list-or (hits r.rule_id) (hits_any rs) s.overrides ms

  -- The flags say of each override whether it matches some rule.
  pub evaluate-flags :
      (catalog : List CompiledRuleRecord)
      → (evaluate s catalog).matched_overrides ≡ map (hits_any catalog) s.overrides
  unfolding evaluate
  evaluate-flags catalog =
      evaluate_from-flags catalog 0 (replicate (length s.overrides) false)
        (length-replicate (length s.overrides))
      ∙ or_list-false (hits_any catalog) s.overrides
