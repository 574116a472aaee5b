-- ===== src/Projector/Tables/Capacity.antt =====
-- The capacity of the state table: how many states an admission leaves, and when it is refused.
use glass_lint.Prelude.{
  ◌+◌, ◌≡◌, ◌≤◌, ◌<◌, refl, sym, ap, ◌∙◌, subst, arith, Bool, true, false, ◌||◌, some, none, List,
  [], ◌∷◌, length, ltb, inl, inr, Bool-cases, Option-cases, usize_max,
}
use glass_lint.Prelude.Order.{same_cases}
use glass_lint.Prelude.Sorted.{get, put, binary_search_by_key}
use glass_lint.Prelude.Sorted.Maps.{IsMap, put-IsMap, get-put_same}
use glass_lint.Prelude.Sorted.Extensional.{get-put_other}
use glass_lint.Prelude.Sorted.Sizes.{has, bit, length-put}
use glass_lint.Flow.State.{FlowObjectId, FlowStateKey, key_ord, FlowState}
use glass_lint.Flow.State
use glass_lint.Projector.Aliases.{ValueId}
use glass_lint.Projector.Log.{States}
use glass_lint.Projector.Tables.{
  FlowStateTable, logged, insert_state_unchecked, insert_states, new_keys, bind, bind_aliases,
  admit_object, saturating_add,
}
use glass_lint.Projector.Tables.Consistent.{IsConsistent}

abbrev Keys : Type 0
Keys = List (FlowStateKey × Unit {0})

-- `after` has the keys of `before` and the new ones, each once.
record Joins (before after : States) (keys : Keys) : Type 0 where
  sorted : IsMap after
  keys_sorted : IsMap keys
  joined : (k : FlowStateKey) → has (get k after) ≡ (has (get k before) || has (get k keys))
  sized : length after ≡ length before + length keys

module _ (before after : States) (keys : Keys) (j : Joins before after keys)
    (state : FlowState) where
  abbrev k : FlowStateKey
  k = State.key state

  written : has (get k (put k state after)) ≡ true
  written = ap has (get-put_same k state after j.sorted)

  Joins-old : has (get k before) ≡ true → Joins before (put k state after) keys
  Joins-old old = record {
    sorted = put-IsMap k state after j.sorted;
    keys_sorted = j.keys_sorted;
    joined = λ i. elim (same_cases i k) [
      | inl same ↦
          ap (λ x. has (get x (put k state after))) same
          ∙ written
          ∙ sym (ap (λ b. b || has (get i keys)) (ap (λ x. has (get x before)) same ∙ old))
      | inr apart ↦ ap has (get-put_other i k state after apart j.sorted) ∙ j.joined i
    ];
    sized =
        let there : has (get k after) ≡ true = j.joined k ∙ ap (λ b. b || has (get k keys)) old in
        omega (arith, length-put k state after j.sorted, ap bit there, j.sized);
  }

  Joins-new : has (get k before) ≡ false → Joins before (put k state after) (put k tt keys)
  Joins-new new = record {
    sorted = put-IsMap k state after j.sorted;
    keys_sorted = put-IsMap k tt keys j.keys_sorted;
    joined = λ i. elim (same_cases i k) [
      | inl same ↦
          ap (λ x. has (get x (put k state after))) same
          ∙ written
          ∙ sym (ap has (get-put_same k tt keys j.keys_sorted))
          ∙ sym (ap (λ b. b || has (get k (put k tt keys))) new)
          ∙ ap (λ x. has (get x before) || has (get x (put k tt keys))) (sym same)
      | inr apart ↦
          ap has (get-put_other i k state after apart j.sorted)
          ∙ j.joined i
          ∙ ap (λ x. has (get i before) || has x)
              (sym (get-put_other i k tt keys apart j.keys_sorted))
    ];
    sized =
        let equal : has (get k after) ≡ has (get k keys) =
          j.joined k ∙ ap (λ b. b || has (get k keys)) new in
        omega (
          arith,
          length-put k state after j.sorted,
          length-put k tt keys j.keys_sorted,
          ap bit equal,
          j.sized,
        );
  }

-- The keys that one state leaves.
abbrev after_state : FlowState → Keys → FlowStateTable → Keys
after_state state keys t = elim (get (State.key state) t.live.states) [
  | none ↦ put (State.key state) tt keys
  | some _ ↦ keys
]

insert_states-Joins :
    (states : List FlowState) (keys : Keys) (t u : FlowStateTable)
    → Joins t.live.states u.live.states keys
    → Joins t.live.states (insert_states states u).live.states (new_keys states keys t)
unfolding insert_states new_keys
insert_states-Joins [] keys t u j = j
insert_states-Joins (state ∷ states) keys t u j =
    insert_states-Joins states (after_state state keys t) t (insert_state_unchecked state u) (
      unfold insert_state_unchecked logged in
      elim (Option-cases (get (State.key state) t.live.states)) [
        | inl new ↦
            rw (new, after_state) (Joins-new t.live.states u.live.states keys j state (ap has new))
        | inr (old, at) ↦
            rw (at, after_state) (Joins-old t.live.states u.live.states keys j state (ap has at))
      ])

bind_aliases-states :
    (values : List ValueId) (object : FlowObjectId) (t : FlowStateTable)
    → (bind_aliases values object t).live.states ≡ t.live.states
unfolding bind_aliases
bind_aliases-states [] object t = refl
bind_aliases-states (value ∷ values) object t =
    bind_aliases-states values object (bind value object t) ∙ (unfold bind logged in refl)

or_none : (b : Bool) → b ≡ (b || false)
or_none true = refl
or_none false = refl

-- The decision on an object and its states.
pub data Admitted (aliases : List ValueId) (object : FlowObjectId) (states : List FlowState)
    (t : FlowStateTable) : FlowStateTable → Type 0 where
  rejects :
      t.state_limit < length t.live.states + length (new_keys states [] t)
      → Admitted aliases object states t (record t { state_limit_rejected = true })
  admits :
      (u : FlowStateTable)
      → u ≡ insert_states states (bind_aliases aliases object t)
      → length u.live.states ≡ length t.live.states + length (new_keys states [] t)
      → length u.live.states ≤ t.state_limit
      → ((k : FlowStateKey)
          → has (get k u.live.states)
            ≡ (has (get k t.live.states) || has (get k (new_keys states [] t))))
      → Admitted aliases object states t u

-- For a limit below the largest `usize` and a consistent table, `admit_object` only reports the
-- limit, with the tables and the log as they were, if the states that stand and the distinct new
-- ones exceed the limit; else exactly these states stand afterwards, at most as many as the limit.
pub admit_object-Admitted :
    (aliases : List ValueId) (object : FlowObjectId) (states : List FlowState) (t : FlowStateTable)
    → t.state_limit < usize_max
    → IsConsistent t
    → Admitted aliases object states t (admit_object aliases object states t)
unfolding admit_object
admit_object-Admitted aliases object states t small c =
    elim (Bool-cases
      (ltb t.state_limit (saturating_add (length t.live.states) (length (new_keys states [] t))))) [
        | inl over ↦ rw over (rejects (ground arith))
        | inr fits ↦
            let bound = bind_aliases aliases object t in
            let same = bind_aliases-states aliases object t in
            let start : Joins t.live.states bound.live.states [] =
              unfold get binary_search_by_key in
              record {
                sorted = subst (λ m. IsMap m) (sym same) c.valid.sorted;
                keys_sorted = tt;
                joined = λ k. ap (λ m. has (get k m)) same ∙ or_none (has (get k t.live.states));
                sized = omega (arith, ap length same);
              } in
            let joins = insert_states-Joins states [] t bound start in
            rw fits (
              admits (insert_states states bound) refl joins.sized (ground (arith, joins.sized))
                joins.joined)
      ]
