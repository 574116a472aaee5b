-- ===== src/Flow/Readiness.antt =====
-- The readiness tests on the mask, and what they decide about the recorded evidence.
use glass_lint.Prelude.{ℕ, ◌<◌, ◌≤◌, ◌≡◌, refl, sym, ap, ◌∙◌, inl, inr, ◌↔◌, ◌∈◌}
use glass_lint.Prelude.{Bool, true, false, ◌&&◌, some, none, Bool-cases, Option-cases}
use glass_lint.Prelude.{[], ◌∷◌, ltb, leb, arith, ltb→lt, lt→ltb, ◌≢◌}
use glass_lint.Prelude.Order.{Ord, nat_ord}
use glass_lint.Prelude.Words.{Word, word_bits, is_zero_word, word_beq}
use glass_lint.Prelude.Sorted.{get}
use glass_lint.Prelude.Sorted.Extensional.{get_of_mem, mem_of_get}
use glass_lint.Flow.{
  EvidenceValues, IndexedEvidence, mask, beyond, ready_any, ready_all, FlowReadiness,
  any_requirement, all_requirements, configuration, any_sink, all_sinks, LifecycleEvidence,
  complete, requirements_ready, sinks_ready, RequirementReadiness, SinkReadiness,
}
use glass_lint.Flow.Indexed.{Entries, IsValid, is_some}
use glass_lint.Flow.Masks.{
  Masks, same_below_lem, same_below_of, mask-Masks, mask-none, some_bit, not_zero,
}

both_iff : {a b : Bool} {P Q : Type 0} → (a ≡ true) ↔ P → (b ≡ true) ↔ Q → (a && b ≡ true) ↔ (P × Q)
both_iff p q = ground (arith, p, q)

module _ {K : Type 0} ⦃o : Ord K⦄ where
  beyond_lem :
      (count j : ℕ) (vs : EvidenceValues K) (es : Entries K)
      → beyond count es ≡ false
      → (j, vs) ∈ es
      → j < count
  unfolding beyond
  beyond_lem count j vs [] h m = absurd m
  beyond_lem count j vs ((i, ws) ∷ es) h (inl e) =
      let same : j ≡ i = ap (λ x. x.0) e in ground arith
  beyond_lem count j vs ((i, ws) ∷ es) h (inr m) = beyond_lem count j vs es (ground arith) m

  beyond-true :
      (count : ℕ) (es : Entries K)
      → beyond count es ≡ true
      → (j : ℕ) × (vs : EvidenceValues K) × ((j, vs) ∈ es) × (count ≤ j)
  unfolding beyond
  beyond-true count [] h = cc
  beyond-true count ((i, ws) ∷ es) h = elim (Bool-cases (leb count i)) [
    | inl here ↦ (i, ws, inl refl, ground arith)
    | inr before ↦ let (j, vs, m, far) = beyond-true count es (ground arith) in (j, vs, inr m, far)
  ]

  -- An event is recorded for the index.
  abbrev pub HasEvidence : ℕ → IndexedEvidence K → Type 0
  HasEvidence j e = is_some (get j e.entries) ≡ true

  -- Evidence stands at some index, and only at indices below the count.
  abbrev pub MeetsAny : ℕ → IndexedEvidence K → Type 0
  MeetsAny count e = ((j : ℕ) → HasEvidence j e → j < count) × ((j : ℕ) × HasEvidence j e)

  -- Evidence stands at exactly the indices below the count.
  abbrev pub MeetsAll : ℕ → IndexedEvidence K → Type 0
  MeetsAll count e = (count ≤ word_bits) × ((j : ℕ) → HasEvidence j e ↔ (j < count))

  module _ (count : ℕ) (e : IndexedEvidence K) (valid : IsValid e) where
    HasEvidence-mem : (j : ℕ) → HasEvidence j e → (vs : EvidenceValues K) × ((j, vs) ∈ e.entries)
    HasEvidence-mem j h = elim (Option-cases (get j e.entries)) [
      | inl nothing ↦ cc (ap is_some nothing)
      | inr (vs, at) ↦ (vs, mem_of_get j vs e.entries valid.sorted at)
    ]

    HasEvidence-lt : (j : ℕ) → HasEvidence j e → j < word_bits
    HasEvidence-lt j h = elim (Option-cases (get j e.entries)) [
      | inl nothing ↦ cc (ap is_some nothing)
      | inr (vs, at) ↦ valid.bounded j vs at
    ]

    within : beyond count e.entries ≡ false → (j : ℕ) → HasEvidence j e → j < count
    within h j has = let (vs, m) = HasEvidence-mem j has in beyond_lem count j vs e.entries h m

    not_beyond : ((j : ℕ) → HasEvidence j e → j < count) → beyond count e.entries ≡ false
    not_beyond all = elim (Bool-cases (beyond count e.entries)) [
      | inr fine ↦ fine
      | inl past ↦
          let (j, vs, m, far) = beyond-true count e.entries past in
          let at : get j e.entries ≡ some vs = get_of_mem j vs e.entries valid.sorted m in
          absurd (omega (arith, all j (ap is_some at)))
    ]

    any_of :
        ready_any count e ≡ true → (beyond count e.entries ≡ false) × (is_zero_word e.mask ≡ false)
    unfolding ready_any
    any_of h = ground arith

    all_of :
        ready_all count e ≡ true
        → (beyond count e.entries ≡ false)
          × ((w : Word) → mask count ≡ some w → word_beq e.mask w ≡ true)
          × (mask count ≢ none)
    unfolding ready_all
    all_of h = (ground arith, λ w at. ground (arith, at), λ no_mask. ground (arith, no_mask))

    pub ready_any_iff : (ready_any count e ≡ true) ↔ MeetsAny count e
    unfolding ready_any
    ready_any_iff = (
      λ h.
          let fine = any_of h in
          let bit : (j : ℕ) × (e.mask j ≡ true) = some_bit e.mask fine.1 in
          (within fine.0, (bit.0, sym (valid.masked bit.0) ∙ bit.1)),
      λ m.
          let j = m.1.0 in
          let has = m.1.1 in
          rw (not_beyond m.0, not_zero e.mask j (HasEvidence-lt j has) (valid.masked j ∙ has)),
    )

    shown : (j : ℕ) → (HasEvidence j e ↔ (j < count)) → is_some (get j e.entries) ≡ ltb j count
    shown j h = elim (Bool-cases (is_some (get j e.entries))) [
      | inl has ↦ has ∙ sym (lt→ltb j count (h.0 has))
      | inr none_at ↦ elim (Bool-cases (ltb j count)) [
        | inl less ↦ cc (h.1 (ltb→lt j count less))
        | inr more ↦ none_at ∙ sym more
      ]
    ]

    all_masked :
        (m : Masks count)
        → word_beq e.mask m.word ≡ true
        → count ≤ word_bits
        → (j : ℕ) → j < count
        → HasEvidence j e
    unfolding word_beq
    all_masked m equal fits j less =
        let near : j < word_bits = omega arith in
        sym (valid.masked j)
        ∙ same_below_lem word_bits e.mask m.word equal j near
        ∙ m.bits j near
        ∙ lt→ltb j count less

    mask_equal : (m : Masks count) → MeetsAll count e → word_beq e.mask m.word ≡ true
    unfolding word_beq
    mask_equal m meets =
        same_below_of word_bits e.mask m.word
          (λ j near. valid.masked j ∙ shown j (meets.1 j) ∙ sym (m.bits j near))

    pub ready_all_iff : (ready_all count e ≡ true) ↔ MeetsAll count e
    unfolding ready_all
    ready_all_iff = (
      λ h.
          let parts = all_of h in
          elim (Bool-cases (ltb word_bits count)) [
            | inl large ↦ absurd (parts.2 (mask-none count (ltb→lt word_bits count large)))
            | inr small ↦
                let fits : count ≤ word_bits = ground arith in
                let m = mask-Masks count fits in
                (fits, λ j. (within parts.0 j, all_masked m (parts.1 m.word m.returns) fits j))
          ],
      λ meets.
          let m = mask-Masks count meets.0 in
          rw (not_beyond (λ j has. (meets.1 j).0 has), m.returns, mask_equal m meets),
    )

  -- What a policy asks of the requirements and of the sinks.
  abbrev pub RequirementsMet : RequirementReadiness → ℕ → IndexedEvidence K → Type 0
  RequirementsMet any_requirement count e = MeetsAny count e
  RequirementsMet all_requirements count e = MeetsAll count e

  abbrev pub SinksMet : SinkReadiness → ℕ → IndexedEvidence K → Type 0
  SinksMet configuration count e = Unit
  SinksMet any_sink count e = Unit
  SinksMet all_sinks count e = MeetsAll count e

  RequirementsMet-iff :
      (mode : RequirementReadiness) (count : ℕ) (e : IndexedEvidence K)
      → IsValid e
      → (elim mode [ any_requirement ↦ ready_any count e | all_requirements ↦ ready_all count e ])
          ≡ true
        ↔ RequirementsMet mode count e
  RequirementsMet-iff any_requirement count e v = ready_any_iff count e v
  RequirementsMet-iff all_requirements count e v = ready_all_iff count e v

  SinksMet-iff :
      (mode : SinkReadiness) (count : ℕ) (e : IndexedEvidence K)
      → IsValid e
      → (elim mode [ configuration ↦ true | any_sink ↦ true | all_sinks ↦ ready_all count e ])
          ≡ true
        ↔ SinksMet mode count e
  SinksMet-iff configuration count e v = (λ h. tt, λ h. refl)
  SinksMet-iff any_sink count e v = (λ h. tt, λ h. refl)
  SinksMet-iff all_sinks count e v = ready_all_iff count e v

  -- With valid evidence, `complete` holds exactly if the policy is met: for `Any` requirements stand
  -- at some index and only below the count, for `All` at exactly the indices below the count, of
  -- which there are at most 64; sinks are asked for under `All` alone.
  pub complete_iff :
      (r : FlowReadiness) (l : LifecycleEvidence K)
      → IsValid l.requirements
      → IsValid l.sinks
      → (complete r l ≡ true) ↔ (
          RequirementsMet r.requirement_mode r.requirement_count l.requirements
          × SinksMet r.sink_mode r.sink_count l.sinks)
  unfolding complete requirements_ready sinks_ready
  complete_iff r l requirements sinks =
      both_iff
        (RequirementsMet-iff r.requirement_mode r.requirement_count l.requirements requirements)
        (SinksMet-iff r.sink_mode r.sink_count l.sinks sinks)
