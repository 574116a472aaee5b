-- ===== src/PathTrie/Store/Concat.antt =====
-- Paths put together: `concat`.
use glass_lint.Prelude.{
  ℕ, ◌+◌, ◌≤◌, ◌<◌, ◌≡◌, ◌⊎◌, inl, inr, refl, ap, subst, ◌∙◌, some, none, Option,
}
use glass_lint.Prelude.{List, [], ◌∷◌, ◌++◌, reverse, length, arith, u32_max}
use mathlib.Core.List.{reverse_aux, reverse_aux-eq, reverse-reverse}
use glass_lint.PathTrie.{PathId, PathSegment}
use glass_lint.PathTrie.Store.{PathStore, append_all, and_append, concat_parts, concat}
use glass_lint.PathTrie.Store.Valid.{IsValid, Spells}
use glass_lint.PathTrie.Store.Append.{known, added, full, append-Appended, Spells-local_id}
use glass_lint.PathTrie.Store.Walks.{collect_segments_lem}

abbrev IsFull : PathStore → ℕ → Type 0
IsFull st len = (st.max_nodes ≤ length st.nodes) ⊎ (u32_max < length st.nodes) ⊎ (u32_max ≤ len)

-- What appending segments one after the other does. Where it stops, the nodes it added stay.
pub data AppendedAll (st : PathStore) (whole : List PathSegment) (r : PathStore × Option PathId)
    : Type 0 where
  done :
      (su : PathStore) (id : PathId)
      → r ≡ (su, some id)
      → IsValid su
      → Spells su id whole
      → ((jd : PathId) (ts : List PathSegment) → Spells st jd ts → Spells su jd ts)
      → AppendedAll st whole r
  stopped :
      (su : PathStore)
      → r ≡ (su, none)
      → IsValid su
      → IsFull su (length whole)
      → ((jd : PathId) (ts : List PathSegment) → Spells st jd ts → Spells su jd ts)
      → AppendedAll st whole r

length-reverse_aux : (xs ss : List PathSegment) → length (reverse_aux xs ss) ≡ length xs + length ss
length-reverse_aux [] ss = omega arith
length-reverse_aux (x ∷ xs) ss = omega (arith, length-reverse_aux xs (x ∷ ss))

AppendedAll-after :
    (st su : PathStore) (whole : List PathSegment) (r s : PathStore × Option PathId)
    → s ≡ r
    → ((jd : PathId) (ts : List PathSegment) → Spells st jd ts → Spells su jd ts)
    → AppendedAll su whole r
    → AppendedAll st whole s
AppendedAll-after st su whole r s same keeps (done sv id returns valid path keeps') =
    done sv id (same ∙ returns) valid path (λ jd ts h. keeps' jd ts (keeps jd ts h))
AppendedAll-after st su whole r s same keeps (stopped sv returns valid bound keeps') =
    stopped sv (same ∙ returns) valid bound (λ jd ts h. keeps' jd ts (keeps jd ts h))

append_all-AppendedAll :
    (xs ss : List PathSegment) (st : PathStore) (id : PathId)
    → IsValid st
    → Spells st id ss
    → AppendedAll st (reverse_aux xs ss) (append_all xs id st)
unfolding append_all
append_all-AppendedAll [] ss st id valid path = done st id refl valid path (λ jd ts h. h)
append_all-AppendedAll (x ∷ xs) ss st id valid path = elim (append-Appended st valid id x ss path) [
  | known jd returns longer ↦
      AppendedAll-after st st (reverse_aux xs (x ∷ ss)) (append_all xs jd st)
        (append_all (x ∷ xs) id st) (ap (λ r. and_append r (append_all xs)) returns) (λ kd ts h. h)
        (append_all-AppendedAll xs (x ∷ ss) st jd valid longer)
  | added su jd returns valid' longer grown new keeps ↦
      AppendedAll-after st su (reverse_aux xs (x ∷ ss)) (append_all xs jd su)
        (append_all (x ∷ xs) id st) (ap (λ r. and_append r (append_all xs)) returns) keeps
        (append_all-AppendedAll xs (x ∷ ss) su jd valid' longer)
  | full returns new bound ↦
      let size = length-reverse_aux xs (x ∷ ss) in
      stopped st (ap (λ r. and_append r (append_all xs)) returns) valid
        (elim bound [
          | inl nodes ↦ inl nodes
          | inr (inl wide) ↦ inr (inl wide)
          | inr (inr deep) ↦ inr (inr (omega arith))
        ])
        (λ kd ts h. h)
]

-- On a valid store `concat` returns a handle of the first path followed by the second, in a valid
-- store that spells all that it spelled; it returns nothing only where a bound on nodes, on 32-bit
-- indices or on depth is reached, and the store stays valid then too.
pub concat-AppendedAll :
    (st : PathStore) (prefix suffix : PathId) (ss ts : List PathSegment)
    → IsValid st
    → Spells st prefix ss
    → Spells st suffix ts
    → AppendedAll st (ts ++ ss) (concat prefix suffix st)
unfolding concat concat_parts
concat-AppendedAll st prefix suffix ss ts valid hs ht =
    let parts : concat_parts prefix suffix st ≡ some (reverse ts, prefix) =
      rw (collect_segments_lem st valid suffix ts ht, Spells-local_id st prefix ss valid hs) refl in
    let whole : reverse_aux (reverse ts) ss ≡ ts ++ ss =
      reverse_aux-eq (reverse ts) ss ∙ ap (λ l. l ++ ss) (reverse-reverse ts) in
    let run : concat prefix suffix st ≡ append_all (reverse ts) prefix st =
      rw (parts, concat) refl in
    subst (λ l. AppendedAll st l (concat prefix suffix st)) whole
      (AppendedAll-after st st (reverse_aux (reverse ts) ss) (append_all (reverse ts) prefix st)
        (concat prefix suffix st) run (λ jd us h. h)
        (append_all-AppendedAll (reverse ts) ss st prefix valid hs))
