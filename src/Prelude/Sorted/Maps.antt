-- ===== src/Prelude/Sorted/Maps.antt =====
-- Laws of the maps that are sorted by their keys.
use Prim.Native.Nat.{◌+◌, ◌≤◌}
use mathlib.Core.Path.{◌≡◌, refl, sym, ap, ◌∙◌, subst}
use mathlib.Core.Option.{none, some}
use mathlib.Core.List.{List, ◌∷◌, ◌++◌}
use native.Mathlib.Omega.{arith}
use glass_lint.Prelude.Lists.{length, length-append}
use glass_lint.Prelude.Order.{Ord}
use glass_lint.Prelude.Sorted.{key_of, get, put, delete}
use glass_lint.Prelude.Sorted.Splits.{
  Split, hit, miss, split, IsSorted, IsBefore, IsAfter, IsSorted-insert, IsSorted-remove,
  search_hit, search_miss, insert_at-length, remove_at-length, set-length, get_elem?-length,
}

module _ {K V : Type 0} ⦃o : Ord K⦄ where
  abbrev pub IsMap : List (K × V) → Type 0
  IsMap m = IsSorted key_of m

  module _ (k : K) (v : V) (ls rs : List (K × V)) (before : IsBefore key_of k ls) where
    pub get_hit : (w : V) → get k (ls ++ (k, w) ∷ rs) ≡ some w
    unfolding get
    get_hit w =
        rw (search_hit key_of k ls rs (k, w) before refl, get) (rw (get_elem?-length ls rs (k, w)))

    pub put_hit : (w : V) → put k v (ls ++ (k, w) ∷ rs) ≡ ls ++ (k, v) ∷ rs
    unfolding put
    put_hit w =
        rw (search_hit key_of k ls rs (k, w) before refl, put) (set-length ls rs (k, w) (k, v))

    pub delete_hit : (w : V) → delete k (ls ++ (k, w) ∷ rs) ≡ ls ++ rs
    unfolding delete
    delete_hit w =
        rw (search_hit key_of k ls rs (k, w) before refl, delete) (remove_at-length ls rs (k, w))

    module _ (after : IsAfter key_of k rs) where
      pub get_miss : get k (ls ++ rs) ≡ none
      unfolding get
      get_miss = rw (search_miss key_of k ls rs before after, get)

      pub put_miss : put k v (ls ++ rs) ≡ ls ++ (k, v) ∷ rs
      unfolding put
      put_miss = rw (search_miss key_of k ls rs before after, put) (insert_at-length ls rs (k, v))

      pub delete_miss : delete k (ls ++ rs) ≡ ls ++ rs
      unfolding delete
      delete_miss = rw (search_miss key_of k ls rs before after, delete)

  -- A map, split at a key.
  pub data Keyed (k : K) (m : List (K × V)) : Type 0 where
    present :
        (ls rs : List (K × V)) (w : V)
        → m ≡ ls ++ (k, w) ∷ rs
        → IsBefore key_of k ls
        → IsAfter key_of k rs
        → get k m ≡ some w
        → Keyed k m
    absent :
        (ls rs : List (K × V))
        → m ≡ ls ++ rs
        → IsBefore key_of k ls
        → IsAfter key_of k rs
        → get k m ≡ none
        → Keyed k m

  keyed_of : (k : K) (v : V) (m : List (K × V)) → Split key_of k m → Keyed k m
  keyed_of k v m (hit ls rs a whole same before after) =
      let at : a ≡ (k, a.1) = λ i. (same i, a.1) in
      let whole' : m ≡ ls ++ (k, a.1) ∷ rs = whole ∙ ap (λ x. ls ++ x ∷ rs) at in
      present ls rs a.1 whole' before after (ap (get k) whole' ∙ get_hit k v ls rs before a.1)
  keyed_of k v m (miss ls rs whole before after) =
      absent ls rs whole before after (ap (get k) whole ∙ get_miss k v ls rs before after)

  pub keyed : (k : K) (v : V) (m : List (K × V)) → IsMap m → Keyed k m
  keyed k v m s = keyed_of k v m (split key_of k m s)

  module _ (k : K) (v : V) (m : List (K × V)) (map : IsMap m) where
    pub get-put_same : get k (put k v m) ≡ some v
    get-put_same = elim (keyed k v m map) [
      | present ls rs w whole before after at ↦
          ap (λ l. get k (put k v l)) whole
          ∙ ap (get k) (put_hit k v ls rs before w)
          ∙ get_hit k v ls rs before v
      | absent ls rs whole before after at ↦
          ap (λ l. get k (put k v l)) whole
          ∙ ap (get k) (put_miss k v ls rs before after)
          ∙ get_hit k v ls rs before v
    ]

    pub put-IsMap : IsMap (put k v m)
    put-IsMap = elim (keyed k v m map) [
      | present ls rs w whole before after at ↦
          subst (λ l. IsMap l) (sym (ap (put k v) whole ∙ put_hit k v ls rs before w))
            (IsSorted-insert key_of ls rs (k, v)
              (IsSorted-remove key_of ls rs (k, w) (subst (λ l. IsMap l) whole map)) before after)
      | absent ls rs whole before after at ↦
          subst (λ l. IsMap l) (sym (ap (put k v) whole ∙ put_miss k v ls rs before after))
            (IsSorted-insert key_of ls rs (k, v) (subst (λ l. IsMap l) whole map) before after)
    ]

    pub delete-IsMap : IsMap (delete k m)
    delete-IsMap = elim (keyed k v m map) [
      | present ls rs w whole before after at ↦
          subst (λ l. IsMap l) (sym (ap (delete k) whole ∙ delete_hit k v ls rs before w))
            (IsSorted-remove key_of ls rs (k, w) (subst (λ l. IsMap l) whole map))
      | absent ls rs whole before after at ↦
          subst (λ l. IsMap l) (sym (ap (delete k) whole ∙ delete_miss k v ls rs before after))
            (subst (λ l. IsMap l) whole map)
    ]

    pub get-delete_same : get k (delete k m) ≡ none
    get-delete_same = elim (keyed k v m map) [
      | present ls rs w whole before after at ↦
          ap (λ l. get k (delete k l)) whole
          ∙ ap (get k) (delete_hit k v ls rs before w)
          ∙ get_miss k v ls rs before after
      | absent ls rs whole before after at ↦
          ap (λ l. get k (delete k l)) whole
          ∙ ap (get k) (delete_miss k v ls rs before after)
          ∙ get_miss k v ls rs before after
    ]

    -- A new key is put and taken out again.
    pub delete-put : get k m ≡ none → delete k (put k v m) ≡ m
    delete-put none_at = elim (keyed k v m map) [
      | present ls rs w whole before after at ↦ cc
      | absent ls rs whole before after at ↦
          ap (λ l. delete k (put k v l)) whole
          ∙ ap (delete k) (put_miss k v ls rs before after)
          ∙ delete_hit k v ls rs before v
          ∙ sym whole
    ]

    -- The old value is put back over a new one.
    pub put-put : (new : V) → get k m ≡ some v → put k v (put k new m) ≡ m
    put-put new some_at = elim (keyed k v m map) [
      | present ls rs w whole before after at ↦
          let same : v ≡ w = cc in
          ap (λ l. put k v (put k new l)) whole
          ∙ ap (put k v) (put_hit k new ls rs before w)
          ∙ put_hit k v ls rs before new
          ∙ ap (λ x. ls ++ (k, x) ∷ rs) same
          ∙ sym whole
      | absent ls rs whole before after at ↦ cc
    ]

    pub put-delete : get k m ≡ some v → put k v (delete k m) ≡ m
    put-delete some_at = elim (keyed k v m map) [
      | present ls rs w whole before after at ↦
          let same : v ≡ w = cc in
          ap (λ l. put k v (delete k l)) whole
          ∙ ap (put k v) (delete_hit k v ls rs before w)
          ∙ put_miss k v ls rs before after
          ∙ ap (λ x. ls ++ (k, x) ∷ rs) same
          ∙ sym whole
      | absent ls rs whole before after at ↦ cc
    ]

    pub length-put_new : get k m ≡ none → length (put k v m) ≡ length m + 1
    length-put_new none_at = elim (keyed k v m map) [
      | present ls rs w whole before after at ↦ cc
      | absent ls rs whole before after at ↦ omega (
        arith,
        ap length whole,
        ap length (ap (put k v) whole ∙ put_miss k v ls rs before after),
        length-append ls rs,
        length-append ls ((k, v) ∷ rs),
      )
    ]

    pub length-put_old : (w : V) → get k m ≡ some w → length (put k v m) ≡ length m
    length-put_old w some_at = elim (keyed k v m map) [
      | present ls rs u whole before after at ↦ omega (
        arith,
        ap length whole,
        ap length (ap (put k v) whole ∙ put_hit k v ls rs before u),
        length-append ls ((k, u) ∷ rs),
        length-append ls ((k, v) ∷ rs),
      )
      | absent ls rs whole before after at ↦ cc
    ]

    pub length-delete : length (delete k m) ≤ length m
    length-delete = elim (keyed k v m map) [
      | present ls rs w whole before after at ↦ omega (
        arith,
        ap length whole,
        ap length (ap (delete k) whole ∙ delete_hit k v ls rs before w),
        length-append ls ((k, w) ∷ rs),
        length-append ls rs,
      )
      | absent ls rs whole before after at ↦
          omega (
            arith,
            ap length (ap (delete k) whole ∙ delete_miss k v ls rs before after ∙ sym whole),
          )
    ]
