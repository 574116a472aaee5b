-- ===== src/Catalog/Combine.antt =====
-- What `combine` returns: all records in order if no id stands twice.
use glass_lint.Prelude.{
  Text, List, [], ◌∷◌, ◌++◌, true, false, Result, ok, err, refl, sym, ap, ◌∙◌, subst,
}
use glass_lint.Prelude.{
  ◌≡◌, inl, inr, contains, contains_iff, contains-false, ◌∈◌, IsNodup, IsNodup-append_end,
  append_assoc, append-nil, nat_eq, list_eq, Bool-cases,
}
use glass_lint.Selection.{CompiledRuleRecord}
use glass_lint.Catalog.{RuleCatalog, add_records, and_add, add_catalogs, combine, rule_ids}

abbrev pub concat : List RuleCatalog → RuleCatalog
concat [] = []
concat (c ∷ cs) = c ++ concat cs

rule_ids-append : (xs ys : RuleCatalog) → rule_ids (xs ++ ys) ≡ rule_ids xs ++ rule_ids ys
rule_ids-append [] ys = refl
rule_ids-append (x ∷ xs) ys = ap (λ l. x.rule_id ∷ l) (rule_ids-append xs ys)

abbrev Continue : Type 0
Continue = List Text → RuleCatalog → Result RuleCatalog Text

add_records-append :
    (xs ys : List CompiledRuleRecord) (seen : List Text) (records : RuleCatalog) (next : Continue)
    → and_add (add_records (xs ++ ys) seen records) next
      ≡ and_add (add_records xs seen records) (λ s r. and_add (add_records ys s r) next)
unfolding add_records
add_records-append [] ys seen records next = refl
add_records-append (x ∷ xs) ys seen records next = elim (Bool-cases (contains seen x.rule_id)) [
  | inl double ↦ rw double refl
  | inr fresh ↦
      rw fresh (add_records-append xs ys (seen ++ x.rule_id ∷ []) (records ++ x ∷ []) next)
]

-- The outcome of adding records to some: all of them, or the id of the first that was there.
pub data Combined (records rs : RuleCatalog) (r : Result RuleCatalog Text) : Type 0 where
  combined : r ≡ ok (records ++ rs) → IsNodup (rule_ids (records ++ rs)) → Combined records rs r
  duplicated :
      (before after : RuleCatalog) (q : CompiledRuleRecord)
      → rs ≡ before ++ q ∷ after
      → q.rule_id ∈ rule_ids (records ++ before)
      → IsNodup (rule_ids (records ++ before))
      → r ≡ err q.rule_id
      → Combined records rs r

and_add-ext :
    (r : Result (List Text × RuleCatalog) Text) (f g : Continue)
    → ((s : List Text) (c : RuleCatalog) → f s c ≡ g s c)
    → and_add r f ≡ and_add r g
and_add-ext (ok (s, c)) f g same = same s c
and_add-ext (err id) f g same = refl

add_catalogs-concat :
    (cs : List RuleCatalog) (seen : List Text) (records : RuleCatalog)
    → add_catalogs cs seen records ≡ and_add (add_records (concat cs) seen records) (λ s r. ok r)
unfolding add_catalogs add_records
add_catalogs-concat [] seen records = refl
add_catalogs-concat (c ∷ cs) seen records =
    and_add-ext (add_records c seen records) (add_catalogs cs)
      (λ s r. and_add (add_records (concat cs) s r) (λ s r. ok r)) (add_catalogs-concat cs)
    ∙ sym (add_records-append c (concat cs) seen records (λ s r. ok r))

abbrev add_flat : RuleCatalog → List Text → RuleCatalog → Result RuleCatalog Text
add_flat rs seen records = and_add (add_records rs seen records) (λ s r. ok r)

add_flat-cons :
    (x : CompiledRuleRecord) (xs : RuleCatalog) (seen : List Text) (records : RuleCatalog)
    → contains seen x.rule_id ≡ false
    → add_flat (x ∷ xs) seen records ≡ add_flat xs (seen ++ x.rule_id ∷ []) (records ++ x ∷ [])
unfolding add_records
add_flat-cons x xs seen records fresh = rw fresh refl

add_flat-double :
    (x : CompiledRuleRecord) (xs : RuleCatalog) (seen : List Text) (records : RuleCatalog)
    → contains seen x.rule_id ≡ true
    → add_flat (x ∷ xs) seen records ≡ err x.rule_id
unfolding add_records
add_flat-double x xs seen records double = rw double refl

Combined-cons :
    (x : CompiledRuleRecord) (xs records : RuleCatalog) (r s : Result RuleCatalog Text)
    → s ≡ r
    → Combined (records ++ x ∷ []) xs r
    → Combined records (x ∷ xs) s
Combined-cons x xs records r s same (combined all distinct) =
    combined (same ∙ all ∙ ap ok (append_assoc records (x ∷ []) xs))
      (subst (λ l. IsNodup (rule_ids l)) (append_assoc records (x ∷ []) xs) distinct)
Combined-cons x xs records r s same (duplicated before after q eq double distinct refused) =
    duplicated (x ∷ before) after q (ap (λ l. x ∷ l) eq)
      (subst (λ l. q.rule_id ∈ rule_ids l) (append_assoc records (x ∷ []) before) double)
      (subst (λ l. IsNodup (rule_ids l)) (append_assoc records (x ∷ []) before) distinct)
      (same ∙ refused)

add_flat-Combined :
    (rs records : RuleCatalog)
    → IsNodup (rule_ids records)
    → Combined records rs (add_flat rs (rule_ids records) records)
unfolding add_records
add_flat-Combined [] records distinct =
    combined (ap ok (sym (append-nil records)))
      (subst (λ l. IsNodup (rule_ids l)) (sym (append-nil records)) distinct)
add_flat-Combined (x ∷ xs) records distinct =
    elim (Bool-cases (contains (rule_ids records) x.rule_id)) [
      | inl double ↦
          let nil = sym (append-nil records) in
          duplicated [] xs x refl
            (subst (λ l. x.rule_id ∈ rule_ids l) nil
              ((contains_iff (rule_ids records) x.rule_id).0 double))
            (subst (λ l. IsNodup (rule_ids l)) nil distinct)
            (add_flat-double x xs (rule_ids records) records double)
      | inr fresh ↦
          let more : rule_ids (records ++ x ∷ []) ≡ rule_ids records ++ x.rule_id ∷ [] =
            rule_ids-append records (x ∷ []) in
          let still : IsNodup (rule_ids (records ++ x ∷ [])) =
            subst (λ l. IsNodup l) (sym more)
              (IsNodup-append_end (rule_ids records) x.rule_id distinct
                (contains-false (rule_ids records) x.rule_id fresh)) in
          let step = add_flat-cons x xs (rule_ids records) records fresh in
          Combined-cons x xs records
            (add_flat xs (rule_ids (records ++ x ∷ [])) (records ++ x ∷ []))
            (add_flat (x ∷ xs) (rule_ids records) records)
            (step ∙ ap (λ l. add_flat xs l (records ++ x ∷ [])) (sym more))
            (add_flat-Combined xs (records ++ x ∷ []) still)
    ]

-- `combine` returns the records of all catalogs in their order, with no id twice; or it reports the
-- id of the first record whose id stands among those before it.
pub combine-Combined :
    (catalogs : List RuleCatalog) → Combined [] (concat catalogs) (combine catalogs)
unfolding combine
combine-Combined catalogs =
    subst (Combined [] (concat catalogs)) (sym (add_catalogs-concat catalogs [] []))
      (add_flat-Combined (concat catalogs) [] tt)
