-- ===== src/Selection/Overrides.antt =====
-- The rules that an evaluation enables.
use glass_lint.Prelude.{
  ℕ, zero, suc, ◌+◌, Text, List, [], ◌∷◌, ◌++◌, Bool, true, false, arith, refl, sym, ap, ◌∙◌, subst,
}
use glass_lint.Prelude.{
  ◌≡◌, ◌↔◌, ◌⊎◌, inl, inr, if◌then◌else◌, Bool-cases, some, get_elem?, All, ◌∈◌,
}
use glass_lint.Prelude.{set, some_injective}
use glass_lint.Selection.{RuleOverride, RuleSelection, CompiledRuleRecord, matches, is_enabled}
use glass_lint.Selection.{meets_baseline, apply_overrides, evaluate_from}

abbrev pub Misses : Text → RuleOverride → Type 0
Misses id o = matches o.selector id ≡ false

-- The last override that matches the id.
abbrev pub IsLastMatch : List RuleOverride → Text → RuleOverride → Type 0
IsLastMatch os id o =
    (before : List RuleOverride) × (after : List RuleOverride) × (os ≡ before ++ o ∷ after)
    × (matches o.selector id ≡ true)
    × All (Misses id) after

-- The last override that matches decides, or the baseline if none does.
abbrev pub IsSelected : List RuleOverride → Text → Bool → Type 0
IsSelected os id baseline =
    ((o : RuleOverride) × IsLastMatch os id o × (is_enabled o.state ≡ true))
    ⊎ (All (Misses id) os × (baseline ≡ true))

IsSelected-hit :
    (o : RuleOverride) (os : List RuleOverride) (id : Text) (b : Bool)
    → matches o.selector id ≡ true
    → IsSelected os id (is_enabled o.state) ↔ IsSelected (o ∷ os) id b
IsSelected-hit o os id b hit = (
  elim [
    | inl (p, (before, after, eq, m, none_later), on) ↦
        inl (p, (o ∷ before, after, ap (λ l. o ∷ l) eq, m, none_later), on)
    | inr (none_later, on) ↦ inl (o, ([], os, refl, hit, none_later), on)
  ],
  elim [ inl (p, last, on) ↦ hit_from p last on | inr (missed, on) ↦ absurd cc ],
)
  where
    hit_from :
        (p : RuleOverride)
        → IsLastMatch (o ∷ os) id p
        → is_enabled p.state ≡ true
        → IsSelected os id (is_enabled o.state)
    hit_from p ([], after, eq, m, none_later) on =
        let same : os ≡ after = cc in inr (subst (All (Misses id)) (sym same) none_later, cc)
    hit_from p (q ∷ before, after, eq, m, none_later) on =
        inl (p, (before, after, cc, m, none_later), on)

IsSelected-miss :
    (o : RuleOverride) (os : List RuleOverride) (id : Text) (b : Bool)
    → matches o.selector id ≡ false
    → IsSelected os id b ↔ IsSelected (o ∷ os) id b
IsSelected-miss o os id b miss = (
  elim [
    | inl (p, (before, after, eq, m, none_later), on) ↦
        inl (p, (o ∷ before, after, ap (λ l. o ∷ l) eq, m, none_later), on)
    | inr (none_later, on) ↦ inr ((miss, none_later), on)
  ],
  elim [ inl (p, last, on) ↦ miss_from p last on | inr (missed, on) ↦ inr (missed.1, on) ],
)
  where
    miss_from :
        (p : RuleOverride)
        → IsLastMatch (o ∷ os) id p
        → is_enabled p.state ≡ true
        → IsSelected os id b
    miss_from p ([], after, eq, m, none_later) on = absurd cc
    miss_from p (q ∷ before, after, eq, m, none_later) on =
        inl (p, (before, after, cc, m, none_later), on)

apply_overrides-hit :
    (o : RuleOverride) (os : List RuleOverride) (k : ℕ) (id : Text) (ms : List Bool) (b : Bool)
    → matches o.selector id ≡ true
    → apply_overrides (o ∷ os) k id ms b
      ≡ apply_overrides os (suc k) id (set ms k true) (is_enabled o.state)
unfolding apply_overrides
apply_overrides-hit o os k id ms b hit = rw hit refl

apply_overrides-miss :
    (o : RuleOverride) (os : List RuleOverride) (k : ℕ) (id : Text) (ms : List Bool) (b : Bool)
    → matches o.selector id ≡ false
    → apply_overrides (o ∷ os) k id ms b ≡ apply_overrides os (suc k) id ms b
unfolding apply_overrides
apply_overrides-miss o os k id ms b miss = rw miss refl

none_last : (id : Text) (p : RuleOverride) → ¬ IsLastMatch [] id p
none_last id p ([], after, eq, m, none_later) = cc
none_last id p (q ∷ before, after, eq, m, none_later) = cc

apply_overrides-IsSelected :
    (os : List RuleOverride) (k : ℕ) (id : Text) (ms : List Bool) (b : Bool)
    → ((apply_overrides os k id ms b).1 ≡ true) ↔ IsSelected os id b
unfolding apply_overrides
apply_overrides-IsSelected [] k id ms b =
    (λ h. inr (tt, h), elim [ inl (p, last, _) ↦ absurd (none_last id p last) | inr (_, on) ↦ on ])
apply_overrides-IsSelected (o ∷ os) k id ms b = elim (Bool-cases (matches o.selector id)) [
  | inl hit ↦
      let rec = apply_overrides-IsSelected os (suc k) id (set ms k true) (is_enabled o.state) in
      let step = IsSelected-hit o os id b hit in
      let same = ap (λ (x : List Bool × Bool). x.1) (apply_overrides-hit o os k id ms b hit) in
      (λ h. step.0 (rec.0 (sym same ∙ h)), λ h. same ∙ rec.1 (step.1 h))
  | inr miss ↦
      let rec = apply_overrides-IsSelected os (suc k) id ms b in
      let step = IsSelected-miss o os id b miss in
      let same = ap (λ (x : List Bool × Bool). x.1) (apply_overrides-miss o os k id ms b miss) in
      (λ h. step.0 (rec.0 (sym same ∙ h)), λ h. same ∙ rec.1 (step.1 h))
]

mem-push :
    (b : Bool) (i k : ℕ) (l : List ℕ)
    → (i ∈ (if b then k ∷ l else l)) ↔ (((b ≡ true) × (i ≡ k)) ⊎ (i ∈ l))
mem-push true i k l = ground arith
mem-push false i k l = ground arith

module _ (s : RuleSelection) where
  -- Whether a rule is selected.
  abbrev pub IsRuleSelected : CompiledRuleRecord → Type 0
  IsRuleSelected r = IsSelected s.overrides r.rule_id (meets_baseline s.baseline r)

  pub evaluate_from-enabled :
      (rs : List CompiledRuleRecord) (k i : ℕ) (ms : List Bool)
      → (i ∈ (evaluate_from s rs k ms).enabled) ↔ (
          (j : ℕ) × (r : CompiledRuleRecord) × (i ≡ k + j)
          × (get_elem? rs j ≡ some r)
          × IsRuleSelected r)
  unfolding evaluate_from
  evaluate_from-enabled [] k i ms = (λ h. absurd h, λ (j, r, at, found, sel). absurd cc)
  evaluate_from-enabled (r ∷ rs) k i ms =
      let applied = apply_overrides s.overrides 0 r.rule_id ms (meets_baseline s.baseline r) in
      let here =
        apply_overrides-IsSelected s.overrides 0 r.rule_id ms (meets_baseline s.baseline r) in
      let rec = evaluate_from-enabled rs (suc k) i applied.0 in
      let pushed = mem-push applied.1 i k (evaluate_from s rs (suc k) applied.0).enabled in
      (
        λ h. elim (pushed.0 h) [
          | inl (on, at) ↦ (0, r, omega (arith, at), refl, here.0 on)
          | inr later ↦ shift (rec.0 later)
        ],
        λ (j, q, at, found, sel). elim (first_or_later j q at found sel) [
          | inl (at', sel') ↦ pushed.1 (inl (here.1 sel', at'))
          | inr later ↦ pushed.1 (inr (rec.1 later))
        ],
      )
    where
      shift :
          ((j : ℕ) × (q : CompiledRuleRecord) × (i ≡ suc k + j)
            × (get_elem? rs j ≡ some q)
            × IsRuleSelected q)
          → (j : ℕ) × (q : CompiledRuleRecord) × (i ≡ k + j)
            × (get_elem? (r ∷ rs) j ≡ some q)
            × IsRuleSelected q
      shift (j, q, at, found, sel) = (suc j, q, omega arith, found, sel)

      first_or_later :
          (j : ℕ) (q : CompiledRuleRecord)
          → i ≡ k + j
          → get_elem? (r ∷ rs) j ≡ some q
          → IsRuleSelected q
          → ((i ≡ k) × IsRuleSelected r)
            ⊎ ((j : ℕ) × (q : CompiledRuleRecord) × (i ≡ suc k + j)
                × (get_elem? rs j ≡ some q)
                × IsRuleSelected q)
      first_or_later zero q at found sel =
          inl (omega arith, subst IsRuleSelected (sym (some_injective found)) sel)
      first_or_later (suc j) q at found sel = inr (j, q, omega arith, found, sel)
