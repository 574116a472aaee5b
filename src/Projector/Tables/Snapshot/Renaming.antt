-- ===== src/Projector/Tables/Snapshot/Renaming.antt =====
-- The snapshot forgets which numbers the objects have, but for the order of the states.
use glass_lint.Prelude.{
  ℕ, ◌+◌, ◌≡◌, refl, sym, ap, ◌∙◌, inl, inr, none, some, Option, subst, List, [], ◌∷◌, map, min,
  u32_max, Option-cases,
}
use mathlib.Core.Logic.{∥∥₁_map}
use mathlib.Core.List.{Perm, Permᴰ}
use mathlib.Core.List.Permᴰ
use glass_lint.Prelude.Order.{nat_ord, same_cases}
use glass_lint.Prelude.Sorted.{get, put, binary_search_by_key}
use glass_lint.Prelude.Sorted.Maps.{IsMap, put-IsMap, get-put_same}
use glass_lint.Prelude.Sorted.Extensional.{get-put_other}
use glass_lint.Flow.State.{FlowObjectId, FlowState, FlowStateKey}
use glass_lint.Projector.Aliases.{ValueId}
use glass_lint.Projector.Log.{States}
use glass_lint.Projector.Tables.{FlowStateTable}
use glass_lint.Projector.Tables.Snapshot.{
  CanonicalFlowState, canonical_state, Numbers, number_all, canonical_aliases, canonical_states,
  with_alias, with_state, numbers, semantic_snapshot,
}

-- Reordered states give reordered canonical states.
with_state-Permᴰ :
    (key : FlowStateKey) (state : FlowState) (o : Option ℕ) {xs ys : List CanonicalFlowState}
    → Permᴰ xs ys
    → Permᴰ (with_state key state o xs) (with_state key state o ys)
with_state-Permᴰ key state none p = p
with_state-Permᴰ key state (some id) p = Permᴰ.cons refl p

with_states-swap :
    (k j : FlowStateKey) (s r : FlowState) (o p : Option ℕ) (xs : List CanonicalFlowState)
    → Permᴰ (with_state k s o (with_state j r p xs)) (with_state j r p (with_state k s o xs))
with_states-swap k j s r none none xs = Permᴰ.refl xs
with_states-swap k j s r none (some q) xs = Permᴰ.refl (canonical_state j r q ∷ xs)
with_states-swap k j s r (some q) none xs = Permᴰ.refl (canonical_state k s q ∷ xs)
with_states-swap k j s r (some q) (some p) xs = Permᴰ.swap refl refl

-- What one state adds.
abbrev prepend :
    Numbers → FlowStateKey × FlowState → List CanonicalFlowState → List CanonicalFlowState
prepend objects e xs = with_state e.0 e.1 (get e.0.object objects) xs

canonical_states-Permᴰ :
    (objects : Numbers) {xs ys : States}
    → Permᴰ xs ys
    → Permᴰ (canonical_states xs objects) (canonical_states ys objects)
unfolding canonical_states
canonical_states-Permᴰ objects Permᴰ.nil = Permᴰ.nil
canonical_states-Permᴰ objects (Permᴰ.cons {a = a} {l₁ = xs} {l₂ = ys} e p) =
    subst
      (λ x.
        Permᴰ (prepend objects a (canonical_states xs objects))
          (prepend objects x (canonical_states ys objects)))
      e (with_state-Permᴰ a.0 a.1 (get a.0.object objects) (canonical_states-Permᴰ objects p))
canonical_states-Permᴰ objects (Permᴰ.swap {a = a} {b = b} {l = xs} e f) =
    let rest = canonical_states xs objects in
    subst
      (λ (x : (FlowStateKey × FlowState) × (FlowStateKey × FlowState)).
        Permᴰ (prepend objects a (prepend objects b rest))
          (prepend objects x.0 (prepend objects x.1 rest)))
      (λ z. (f z, e z))
      (with_states-swap a.0 b.0 a.1 b.1 (get a.0.object objects) (get b.0.object objects) rest)
canonical_states-Permᴰ objects (Permᴰ.trans p q) =
    Permᴰ.trans (canonical_states-Permᴰ objects p) (canonical_states-Permᴰ objects q)

module _ (ρ : FlowObjectId → FlowObjectId) where
  abbrev pub renamed_aliases : List (ValueId × FlowObjectId) → List (ValueId × FlowObjectId)
  renamed_aliases aliases = map (λ a. (a.0, ρ a.1)) aliases

  abbrev pub renamed_states : States → States
  renamed_states states =
      map (λ s. (record s.0 { object = ρ s.0.object }, record s.1 { object_id = ρ s.1.object_id }))
        states

  record Agree (objects others : Numbers) : Type 0 where
    sorted : IsMap objects
    others_sorted : IsMap others
    agree : (o : FlowObjectId) → get (ρ o) others ≡ get o objects

  none-Agree : Agree [] []
  unfolding get binary_search_by_key
  none-Agree = record { sorted = tt; others_sorted = tt; agree = λ o. refl }

  module _ (injective : (o p : FlowObjectId) → ρ o ≡ ρ p → o ≡ p) where
    put-Agree :
        (objects others : Numbers) (o : FlowObjectId) (next : ℕ)
        → Agree objects others
        → Agree (put o next objects) (put (ρ o) next others)
    put-Agree objects others o next a = record {
      sorted = put-IsMap o next objects a.sorted;
      others_sorted = put-IsMap (ρ o) next others a.others_sorted;
      agree = λ p. elim (same_cases p o) [
        | inl same ↦
            ap (λ x. get (ρ x) (put (ρ o) next others)) same
            ∙ get-put_same (ρ o) next others a.others_sorted
            ∙ sym (get-put_same o next objects a.sorted)
            ∙ ap (λ x. get x (put o next objects)) (sym same)
        | inr other ↦
            get-put_other (ρ p) (ρ o) next others (λ same. other (injective p o same))
              a.others_sorted
            ∙ a.agree p
            ∙ sym (get-put_other p o next objects other a.sorted)
      ];
    }

    number_all-Agree :
        (aliases : List (ValueId × FlowObjectId)) (objects others : Numbers) (next : ℕ)
        → Agree objects others
        → Agree (number_all aliases objects next) (number_all (renamed_aliases aliases) others next)
    unfolding number_all
    number_all-Agree [] objects others next a = a
    number_all-Agree ((value, o) ∷ aliases) objects others next a =
        elim (Option-cases (get o objects)) [
          | inl new ↦
              rw (new, number_all)
                (rw (a.agree o ∙ new, number_all)
                  (number_all-Agree aliases (put o next objects) (put (ρ o) next others)
                    (min (next + 1) u32_max) (put-Agree objects others o next a)))
          | inr (id, at) ↦
              rw (at, number_all)
                (rw (a.agree o ∙ at, number_all) (number_all-Agree aliases objects others next a))
        ]

    module _ (objects others : Numbers) (a : Agree objects others) where
      canonical_aliases-renamed :
          (aliases : List (ValueId × FlowObjectId))
          → canonical_aliases (renamed_aliases aliases) others ≡ canonical_aliases aliases objects
      unfolding canonical_aliases
      canonical_aliases-renamed [] = refl
      canonical_aliases-renamed ((value, o) ∷ aliases) =
          λ z. with_alias value (a.agree o z) (canonical_aliases-renamed aliases z)

      canonical_states-renamed :
          (states : States)
          → canonical_states (renamed_states states) others ≡ canonical_states states objects
      unfolding canonical_states
      canonical_states-renamed [] = refl
      canonical_states-renamed ((key, state) ∷ states) =
          λ z. with_state key state (a.agree key.object z) (canonical_states-renamed states z)

    -- For two tables that differ by a renumbering of the objects, in which no two get one number, and
    -- in the order of the states that goes with it: their snapshots have the same aliases, and the
    -- same states up to their order.
    pub semantic_snapshot-renumbered :
        (t u : FlowStateTable)
        → u.live.aliases.values ≡ renamed_aliases t.live.aliases.values
        → Perm u.live.states (renamed_states t.live.states)
        → ((semantic_snapshot u).aliases ≡ (semantic_snapshot t).aliases)
          × Perm (semantic_snapshot u).states (semantic_snapshot t).states
    unfolding semantic_snapshot numbers
    semantic_snapshot-renumbered t u aliases states =
        let a = number_all-Agree t.live.aliases.values [] [] 0 none-Agree in
        let others = number_all (renamed_aliases t.live.aliases.values) [] 0 in
        let same : numbers u ≡ others = ap (λ l. number_all l [] 0) aliases in
        (
          (λ z. canonical_aliases (aliases z) (same z))
              ∙ canonical_aliases-renamed (numbers t) others a t.live.aliases.values,
          subst (λ xs. Perm (canonical_states u.live.states (numbers u)) xs)
              (ap (canonical_states (renamed_states t.live.states)) same
                ∙ canonical_states-renamed (numbers t) others a t.live.states)
              (∥∥₁_map
                {B = Permᴰ (canonical_states u.live.states (numbers u))
                  (canonical_states (renamed_states t.live.states) (numbers u))}
                states (λ d. canonical_states-Permᴰ (numbers u) d)),
        )
