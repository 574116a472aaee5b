-- ===== src/Flow/Indexed.antt =====
-- The invariant of indexed evidence: sorted entries of sorted values, and a bit for each entry.
use glass_lint.Prelude.{ℕ, ◌<◌, ◌≡◌, ◌≢◌, refl, sym, ap, ◌∙◌, subst, inl, inr}
use glass_lint.Prelude.{
  Bool, true, false, ◌||◌, Option, some, none, nat_beq, nat_beq_iff, Bool-cases,
}
use glass_lint.Prelude.{
  List, [], ◌∷◌, ◌++◌, arith, ◌∈◌, Option-cases, ==_cases, nat_eq, some_injective,
}
use glass_lint.Prelude.Order.{Ord, nat_ord}
use glass_lint.Prelude.Words.{Word, word_bits, bit_word, or_word, and_not_word}
use glass_lint.Prelude.Sorted.{binary_search_by_key, key_of, get, put}
use glass_lint.Prelude.Sorted.Splits.{
  IsBefore, IsAfter, search_hit, search_miss, insert_at-length, remove_at-length, set-length,
  get_elem?-length,
}
use glass_lint.Prelude.Sorted.Maps.{
  IsMap, present, absent, keyed, put-IsMap, get-put_same, put_hit, put_miss,
}
use glass_lint.Prelude.Sorted.Extensional.{get-put_other}
use glass_lint.Flow.{
  BoundedIndex, EvidenceValues, IndexedEvidence, no_evidence, insert_value, is_empty, insert,
  insert_found, remove, remove_found, from_value,
}
use glass_lint.Flow.Values.{
  IsOrderedSet, Inserted, old, fresh, insert_value-Inserted, insert_value-end,
}

abbrev pub is_some {ℓ} : {A : Type ℓ} → Option A → Bool
is_some none = false
is_some (some a) = true

abbrev pub Entries : Type 0 → Type 0
Entries K = List (BoundedIndex × EvidenceValues K)

bit_set : (i j : ℕ) (m : Word) → m i ≡ true → m j ≡ (m j || nat_beq i j)
bit_set i j m h = elim (Bool-cases (nat_beq i j)) [
  | inr other ↦ ground arith
  | inl same ↦ ground (arith, ap m ((nat_beq_iff i j).0 same))
]

module _ {K : Type 0} ⦃o : Ord K⦄ where
  pub record IsValid (e : IndexedEvidence K) : Type 0 where
    pub sorted : IsMap e.entries
    pub bounded : (j : ℕ) (vs : EvidenceValues K) → get j e.entries ≡ some vs → j < word_bits
    pub filled :
        (j : ℕ) (vs : EvidenceValues K)
        → get j e.entries ≡ some vs
        → IsOrderedSet vs × (is_empty vs ≡ false)
    pub masked : (j : ℕ) → e.mask j ≡ is_some (get j e.entries)

  abbrev pub events_at : Option (EvidenceValues K) → EvidenceValues K
  events_at none = []
  events_at (some vs) = vs

  -- The events recorded for an index.
  pub events : BoundedIndex → IndexedEvidence K → EvidenceValues K
  events i e = events_at (get i e.entries)

  pub no_evidence-IsValid : IsValid (no_evidence {K = K})
  unfolding no_evidence get binary_search_by_key
  no_evidence-IsValid = record {
    sorted = tt;
    bounded = λ j vs h. cc;
    filled = λ j vs h. cc;
    masked = λ j. refl;
  }

  module _ (i : BoundedIndex) (m : Word) (ls rs : Entries K) (before : IsBefore key_of i ls) where
    pub insert-present :
        (v : K) (vs : EvidenceValues K)
        → insert i v (record { mask = m; entries = ls ++ (i, vs) ∷ rs }) ≡ (
          record { mask = m; entries = ls ++ (i, (insert_value v vs).0) ∷ rs },
          (insert_value v vs).1,
        )
    unfolding insert insert_found
    insert-present v vs =
        rw (search_hit key_of i ls rs (i, vs) before refl, insert)
          (rw (get_elem?-length ls rs (i, vs), insert_found)
            (ap (λ l. (record { mask = m; entries = l }, (insert_value v vs).1))
              (set-length ls rs (i, vs) (i, (insert_value v vs).0))))

    pub remove-present :
        (vs : EvidenceValues K)
        → remove i (record { mask = m; entries = ls ++ (i, vs) ∷ rs })
          ≡ (record { mask = and_not_word m (bit_word i); entries = ls ++ rs }, some vs)
    unfolding remove remove_found
    remove-present vs =
        rw (search_hit key_of i ls rs (i, vs) before refl, remove)
          (rw (get_elem?-length ls rs (i, vs), remove_found)
            (ap (λ l. (record { mask = and_not_word m (bit_word i); entries = l }, some vs))
              (remove_at-length ls rs (i, vs))))

    module _ (after : IsAfter key_of i rs) where
      pub insert-absent :
          (v : K)
          → insert i v (record { mask = m; entries = ls ++ rs }) ≡ (
            record { mask = or_word m (bit_word i); entries = ls ++ (i, from_value v) ∷ rs },
            true,
          )
      unfolding insert
      insert-absent v =
          rw (search_miss key_of i ls rs before after, insert)
            (ap (λ l. (record { mask = or_word m (bit_word i); entries = l }, true))
              (insert_at-length ls rs (i, from_value v)))

      pub remove-absent :
          remove i (record { mask = m; entries = ls ++ rs })
          ≡ (record { mask = m; entries = ls ++ rs }, none)
      unfolding remove
      remove-absent = rw (search_miss key_of i ls rs before after, remove)

  nonempty_of_mem : (v : K) (vs : EvidenceValues K) → v ∈ vs → is_empty vs ≡ false
  nonempty_of_mem v [] m = absurd m
  nonempty_of_mem v (x ∷ vs) m = refl

  filled_by :
      {r s : EvidenceValues K × Bool}
      → r ≡ s
      → IsOrderedSet r.0 × (is_empty r.0 ≡ false)
      → IsOrderedSet s.0 × (is_empty s.0 ≡ false)
  filled_by h = subst (λ (x : EvidenceValues K × Bool). IsOrderedSet x.0 × (is_empty x.0 ≡ false)) h

  pub with_entries :
      (e : IndexedEvidence K) {es : Entries K} → e.entries ≡ es → e ≡ record e { entries = es }
  with_entries e h = λ z. record e { entries = h z }

  events-some :
      (i : BoundedIndex) (e : IndexedEvidence K) {vs : EvidenceValues K}
      → get i e.entries ≡ some vs
      → events i e ≡ vs
  unfolding events
  events-some i e h = rw (h, events)

  events-none :
      (i : BoundedIndex) (e : IndexedEvidence K) → get i e.entries ≡ none → events i e ≡ []
  unfolding events
  events-none i e h = rw (h, events)

  -- What `insert` does to the mask and to the entries.
  pub record Put (i : BoundedIndex) (v : K) (e : IndexedEvidence K) (r : IndexedEvidence K × Bool)
      : Type 0 where
    pub entries_put : r.0.entries ≡ put i (insert_value v (events i e)).0 e.entries
    pub mask_set : (j : ℕ) → r.0.mask j ≡ (e.mask j || nat_beq i j)
    pub added : r.1 ≡ (insert_value v (events i e)).1

  module _ (i : BoundedIndex) (v : K) (e : IndexedEvidence K) (valid : IsValid e) where
    pub insert-Put : Put i v e (insert i v e)
    insert-Put = elim (keyed i (events i e) e.entries valid.sorted) [
      | present ls rs vs whole before after at ↦
          let r =
            ap (insert i v) (with_entries e whole) ∙ insert-present i e.mask ls rs before v vs in
          let vs_at : vs ≡ events i e = sym (events-some i e at) in
          record {
            entries_put =
                ap (λ (x : IndexedEvidence K × Bool). x.0.entries) r
                ∙ ap (λ (x : EvidenceValues K). ls ++ (i, (insert_value v x).0) ∷ rs) vs_at
                ∙ sym (put_hit i (insert_value v (events i e)).0 ls rs before vs)
                ∙ sym (ap (put i (insert_value v (events i e)).0) whole);
            mask_set = λ j.
                ap (λ (x : IndexedEvidence K × Bool). x.0.mask j) r
                ∙ bit_set i j e.mask (valid.masked i ∙ ap is_some at);
            added =
                ap (λ (x : IndexedEvidence K × Bool). x.1) r
                ∙ ap (λ (x : EvidenceValues K). (insert_value v x).1) vs_at;
          }
      | absent ls rs whole before after at ↦
          let r =
            ap (insert i v) (with_entries e whole) ∙ insert-absent i e.mask ls rs before after v in
          let empty_at : [] ≡ events i e = sym (events-none i e at) in
          record {
            entries_put =
                ap (λ (x : IndexedEvidence K × Bool). x.0.entries) r
                ∙ ap (λ (x : EvidenceValues K). ls ++ (i, x) ∷ rs)
                    (from_put ∙ ap (λ x. (insert_value v x).0) empty_at)
                ∙ sym (put_miss i (insert_value v (events i e)).0 ls rs before after)
                ∙ sym (ap (put i (insert_value v (events i e)).0) whole);
            mask_set = λ j. ap (λ (x : IndexedEvidence K × Bool). x.0.mask j) r;
            added =
                ap (λ (x : IndexedEvidence K × Bool). x.1) r
                ∙ added_first
                ∙ ap (λ (x : EvidenceValues K). (insert_value v x).1) empty_at;
          }
    ]
      where
        from_put : from_value v ≡ (insert_value v []).0
        from_put = unfold from_value in refl

        added_first : true ≡ (insert_value v []).1
        added_first = sym (ap (λ r. r.1) (insert_value-end v [] tt))

    events-IsOrderedSet : IsOrderedSet (events i e)
    unfolding events
    events-IsOrderedSet = elim (Option-cases (get i e.entries)) [
      | inl nothing ↦ rw (nothing, events) tt
      | inr (vs, at) ↦ rw (at, events) (valid.filled i vs at).0
    ]

    pub insertion : Inserted v (events i e) (insert_value v (events i e))
    insertion = insert_value-Inserted v (events i e) events-IsOrderedSet

    new_values : EvidenceValues K
    new_values = (insert_value v (events i e)).0

    new_values-filled : IsOrderedSet new_values × (is_empty new_values ≡ false)
    unfolding new_values
    new_values-filled = elim insertion [
      | old r m ↦ filled_by (sym r) (events-IsOrderedSet, nonempty_of_mem v (events i e) m)
      | fresh ws r new a_set full back mem ↦ filled_by (sym r) (a_set, full)
    ]

    get-insert_same : get i (insert i v e).0.entries ≡ some new_values
    unfolding new_values
    get-insert_same =
        ap (get i) insert-Put.entries_put ∙ get-put_same i new_values e.entries valid.sorted

    get-insert_other : (j : ℕ) → j ≢ i → get j (insert i v e).0.entries ≡ get j e.entries
    unfolding new_values
    get-insert_other j apart =
        ap (get j) insert-Put.entries_put
        ∙ get-put_other j i new_values e.entries apart valid.sorted

    pub insert-IsValid : i < word_bits → IsValid (insert i v e).0
    insert-IsValid small = record {
      sorted =
          subst (λ l. IsMap l) (sym insert-Put.entries_put)
            (put-IsMap i (insert_value v (events i e)).0 e.entries valid.sorted);
      bounded = λ j vs at. elim (==_cases j i) [
        | inl same ↦ omega (arith, same)
        | inr apart ↦ valid.bounded j vs (sym (get-insert_other j apart) ∙ at)
      ];
      filled = λ j vs at. elim (==_cases j i) [
        | inl same ↦
            let here : some new_values ≡ some vs =
              sym get-insert_same ∙ ap (λ x. get x (insert i v e).0.entries) (sym same) ∙ at in
            subst (λ x. IsOrderedSet x × (is_empty x ≡ false)) (some_injective here)
              new_values-filled
        | inr apart ↦ valid.filled j vs (sym (get-insert_other j apart) ∙ at)
      ];
      masked = λ j. elim (==_cases j i) [
        | inl same ↦
            insert-Put.mask_set j
            ∙ ground (arith, (nat_beq_iff i j).1 (sym same))
            ∙ sym (ap is_some (ap (λ x. get x (insert i v e).0.entries) same ∙ get-insert_same))
        | inr apart ↦
            insert-Put.mask_set j
            ∙ ground (arith, nat_beq_iff i j)
            ∙ valid.masked j
            ∙ sym (ap is_some (get-insert_other j apart))
      ];
    }

    pub events-insert_same : events i (insert i v e).0 ≡ (insert_value v (events i e)).0
    unfolding new_values
    events-insert_same = events-some i (insert i v e).0 get-insert_same

    pub events-insert_other : (j : ℕ) → j ≢ i → events j (insert i v e).0 ≡ events j e
    unfolding events
    events-insert_other j apart = ap (λ o. events_at o) (get-insert_other j apart)
