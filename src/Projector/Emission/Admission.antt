-- ===== src/Projector/Emission/Admission.antt =====
-- Admission of one evidence item: what is counted, what is stored, and why an item is refused.
use glass_lint.Prelude.{
  ℕ, ◌+◌, ◌≤◌, ◌<◌, ◌≡◌, refl, sym, ap, subst, Bool, true, false, some, none, Bool-cases, List, inl,
  inr, ◌⊎◌, arith, leb, if◌then◌else◌, Result, ok, err, leb→le, leb→gt,
}
use glass_lint.Prelude.Sorted.{get, put}
use glass_lint.Prelude.Sorted.Maps.{IsMap, put-IsMap, get-put_same}
use glass_lint.Evidence.{
  RuleEvidenceTable, ClassificationEvidence, record_evidence, RuleEvidenceError,
}
use glass_lint.Flow.State.{RuleIndex}
use glass_lint.Projector.Emission.{
  ReportEvidenceKey, report_ord, FlowEvidence, reserve_at, or_zero, reserve, released, release,
  record_if_admitted,
}
use glass_lint.Projector.Emission.Accounts.{IsAccounted, emissions, total-put}
use glass_lint.Projector.Emission.Release.{Agrees, each-put, same-put, released-Agrees}

-- The sink has the same counts and bounds as before.
record Unchanged (f f' : FlowEvidence) : Type 0 where
  counts : Agrees f.emitted f'.emitted
  totalled : f'.total_emitted ≡ f.total_emitted
  limited : f'.limit ≡ f.limit
  bounded : f'.max_per_key ≡ f.max_per_key

Unchanged-IsAccounted : (f f' : FlowEvidence) → IsAccounted f → Unchanged f f' → IsAccounted f'
Unchanged-IsAccounted f f' i u = record {
  sorted = u.counts.sorted;
  summed = omega (arith, u.counts.summed, u.totalled, i.summed);
  within = omega (arith, u.totalled, u.limited, i.within);
  each = λ key. omega (arith, u.counts.each key, u.bounded, i.each key);
}

-- The decision on one evidence item.
pub data Admission (key : ReportEvidenceKey) (rule : RuleIndex) (evidence : ClassificationEvidence)
    (f : FlowEvidence) : FlowEvidence × Bool → Type 0 where
  admits :
      (f' : FlowEvidence)
      → record_evidence rule evidence f.items ≡ ok f'.items
      → emissions key f < f.max_per_key
      → f.total_emitted < f.limit
      → emissions key f' ≡ emissions key f + 1
      → f'.total_emitted ≡ f.total_emitted + 1
      → IsAccounted f'
      → Admission key rule evidence f (f', true)
  refuses :
      (f' : FlowEvidence)
      → (f.max_per_key ≤ emissions key f)
        ⊎ (f.limit ≤ f.total_emitted)
        ⊎ ((error : RuleEvidenceError) × (record_evidence rule evidence f.items ≡ err error))
      → f'.items ≡ f.items
      → ((k : ReportEvidenceKey) → emissions k f' ≡ emissions k f)
      → f'.total_emitted ≡ f.total_emitted
      → IsAccounted f'
      → Admission key rule evidence f (f', false)

module _ (key : ReportEvidenceKey) (rule : RuleIndex) (evidence : ClassificationEvidence)
    (f : FlowEvidence) where
  abbrev count : ℕ
  count = or_zero (get key f.emitted)

  refused :
      (f' : FlowEvidence)
      → Unchanged f f'
      → (f.max_per_key ≤ count)
        ⊎ (f.limit ≤ f.total_emitted)
        ⊎ ((error : RuleEvidenceError) × (record_evidence rule evidence f.items ≡ err error))
      → f'.items ≡ f.items
      → IsAccounted f
      → Admission key rule evidence f (f', false)
  refused f' u why items i =
      refuses f' why items u.counts.each u.totalled (Unchanged-IsAccounted f f' i u)

  kept-Agrees : IsMap f.emitted → Agrees f.emitted (put key count f.emitted)
  kept-Agrees sorted = record {
    sorted = put-IsMap key count f.emitted sorted;
    summed = omega (arith, total-put key count f.emitted sorted);
    each = same-put key count f.emitted sorted refl;
  }

  abbrev admitted : RuleEvidenceTable → FlowEvidence
  admitted items = record f {
    items = items;
    emitted = put key (count + 1) f.emitted;
    total_emitted = f.total_emitted + 1;
  }

  admitted-IsAccounted :
      (items : RuleEvidenceTable)
      → IsAccounted f
      → count < f.max_per_key
      → f.total_emitted < f.limit
      → IsAccounted (admitted items)
  admitted-IsAccounted items i room space = record {
    sorted = put-IsMap key (count + 1) f.emitted i.sorted;
    summed = omega (arith, total-put key (count + 1) f.emitted i.sorted, i.summed);
    within = omega (arith, space);
    each = each-put key (count + 1) f.emitted i.sorted f.max_per_key (omega (arith, room)) i.each;
  }

  stored-Admission :
      IsAccounted f
      → count < f.max_per_key
      → f.total_emitted < f.limit
      → (r : Result RuleEvidenceTable RuleEvidenceError) → record_evidence rule evidence f.items ≡ r
      → Admission key rule evidence f (elim r [
        | ok items ↦ (admitted items, true)
        | err _ ↦ (release key (admitted f.items), false)
      ])
  stored-Admission i room space (ok items) h =
      admits (admitted items) h room space
        (ap or_zero (get-put_same key (count + 1) f.emitted i.sorted)) refl
        (admitted-IsAccounted items i room space)
  stored-Admission i room space (err error) h =
      let made = put key (count + 1) f.emitted in
      let at = get-put_same key (count + 1) f.emitted i.sorted in
      let same : released key (count + 1) made ≡ (release key (admitted f.items)).emitted =
        unfold release in
        ap (λ o. elim o [ none ↦ made | some n ↦ released key n made ]) (sym at) in
      let agrees : Agrees f.emitted (released key (count + 1) made) =
        released-Agrees key count f.emitted i.sorted refl in
      refused (release key (admitted f.items))
        (unfold release in
          record {
            counts = subst (Agrees f.emitted) same agrees;
            totalled = omega arith;
            limited = refl;
            bounded = refl;
          })
        (inr (inr (error, h))) (unfold release in refl) i

  kept : List (ReportEvidenceKey × Unit {0}) → Bool → FlowEvidence
  kept truncated limit_rejected = record f {
    emitted = put key count f.emitted;
    truncated = truncated;
    limit_rejected = limit_rejected;
  }

  kept-Admission :
      (truncated : List (ReportEvidenceKey × Unit {0})) (limit_rejected : Bool)
      → IsAccounted f
      → (f.max_per_key ≤ count) ⊎ (f.limit ≤ f.total_emitted)
      → Admission key rule evidence f (kept truncated limit_rejected, false)
  unfolding kept
  kept-Admission truncated limit_rejected i why =
      refused (kept truncated limit_rejected)
        (record { counts = kept-Agrees i.sorted; totalled = refl; limited = refl; bounded = refl })
        (elim why [ inl full ↦ inl full | inr spent ↦ inr (inl spent) ]) refl i

  -- What follows the reservation.
  abbrev stored : FlowEvidence × Bool → FlowEvidence × Bool
  stored (f', reserved) =
      if reserved
      then elim (record_evidence rule evidence f'.items) [
        | ok items ↦ (record f' { items = items }, true)
        | err _ ↦ (release key f', false)
      ]
      else (f', false)

  reserve-full :
      leb f.max_per_key count ≡ true
      → reserve key f ≡ (kept (put key tt f.truncated) f.limit_rejected, false)
  unfolding reserve reserve_at kept
  reserve-full full = simp full

  reserve-spent :
      leb f.max_per_key count ≡ false
      → leb f.limit f.total_emitted ≡ true
      → reserve key f ≡ (kept (put key tt f.truncated) true, false)
  unfolding reserve reserve_at kept
  reserve-spent room spent = simp (room, spent)

  reserve-free :
      leb f.max_per_key count ≡ false
      → leb f.limit f.total_emitted ≡ false
      → reserve key f ≡ (admitted f.items, true)
  unfolding reserve reserve_at
  reserve-free room space = simp (room, space)

  -- On a sink whose counts agree, an item below the bound of its key and that of the run is stored
  -- if the table takes it, and counted once; otherwise, for one of these three reasons, the stored
  -- items and all counts stay as they were. Either way the counts go on agreeing with each other and
  -- with the bounds.
  pub record_if_admitted-Admission :
      IsAccounted f → Admission key rule evidence f (record_if_admitted key rule evidence f)
  unfolding record_if_admitted
  record_if_admitted-Admission i = elim (Bool-cases (leb f.max_per_key count)) [
    | inl full ↦
        subst (λ r. Admission key rule evidence f (stored r)) (sym (reserve-full full))
          (kept-Admission (put key tt f.truncated) f.limit_rejected i
            (inl (leb→le f.max_per_key count full)))
    | inr room ↦ elim (Bool-cases (leb f.limit f.total_emitted)) [
      | inl spent ↦
          subst (λ r. Admission key rule evidence f (stored r)) (sym (reserve-spent room spent))
            (kept-Admission (put key tt f.truncated) true i
              (inr (leb→le f.limit f.total_emitted spent)))
      | inr space ↦
          subst (λ r. Admission key rule evidence f (stored r)) (sym (reserve-free room space))
            (stored-Admission i (leb→gt f.max_per_key count room)
              (leb→gt f.limit f.total_emitted space) (record_evidence rule evidence f.items) refl)
    ]
  ]
