-- ===== src/Prelude/Sorted/Extensional.antt =====
-- What the maps hold at other keys, and that a map is what it holds.
use Prim.Native.Nat.{ℕ}
use mathlib.Core.Path.{◌≡◌, refl, sym, ap, ◌∙◌, subst}
use mathlib.Core.Logic.{◌≢◌, inl, inr}
use mathlib.Core.Bool.{true}
use mathlib.Core.Option.{none, some}
use mathlib.Core.List.{List, [], ◌∷◌, ◌++◌}
use glass_lint.Prelude.Options.{◌>>=◌}
use glass_lint.Prelude.Results.{Result, ok, err}
use glass_lint.Prelude.Lists.{get_elem?}
use glass_lint.Prelude.Members.{◌∈◌}
use glass_lint.Prelude.Options.{some_injective}
use glass_lint.Prelude.Order.{Ord, lt, lt_asymm, lt_cases}
use glass_lint.Prelude.Sorted.{
  binary_search_by_key, next_position, remove_at, key_of, get, put, delete,
}
use glass_lint.Prelude.Sorted.Splits.{IsAfter, IsAfter-trans}
use glass_lint.Prelude.Sorted.Maps.{
  IsMap, present, absent, keyed, put_hit, put_miss, delete_hit, delete_miss,
}

module _ {K V : Type 0} ⦃o : Ord K⦄ where
  get_later :
      (x : K × V) (m : List (K × V)) (r : Result ℕ ℕ)
      → (elim (next_position r) [ ok i ↦ get_elem? (x ∷ m) i >>= λ e. some e.1 | err i ↦ none ])
        ≡ (elim r [ ok i ↦ get_elem? m i >>= λ e. some e.1 | err i ↦ none ])
  get_later x m (ok i) = refl
  get_later x m (err i) = refl

  get_before : (k j : K) (v : V) (m : List (K × V)) → lt j k ≡ true → get k ((j, v) ∷ m) ≡ get k m
  unfolding get binary_search_by_key
  get_before k j v m h = rw (h, get) (get_later (j, v) m (binary_search_by_key key_of k m))

  pub get_here : (k : K) (v : V) (m : List (K × V)) → get k ((k, v) ∷ m) ≡ some v
  unfolding get binary_search_by_key
  get_here k v m = rw (o.irrefl k, get)

  pub delete_here : (k : K) (v : V) (m : List (K × V)) → delete k ((k, v) ∷ m) ≡ m
  unfolding delete binary_search_by_key remove_at
  delete_here k v m = rw (o.irrefl k, delete)

  pub get_after : (k : K) (m : List (K × V)) → IsAfter key_of k m → get k m ≡ none
  unfolding get binary_search_by_key
  get_after k [] h = refl
  get_after k (x ∷ m) (h, hs) = rw (lt_asymm k x.0 h, h, get)

  -- Two maps with one front hold the same at a key that they hold the same at behind it.
  get_front :
      (k : K) (ls rs ts : List (K × V)) → get k rs ≡ get k ts → get k (ls ++ rs) ≡ get k (ls ++ ts)
  unfolding get binary_search_by_key
  get_front k [] rs ts same = same
  get_front k (x ∷ ls) rs ts same = elim (lt_cases x.0 k) [
    | inl less ↦
        get_before k x.0 x.1 (ls ++ rs) less
        ∙ get_front k ls rs ts same
        ∙ sym (get_before k x.0 x.1 (ls ++ ts) less)
    | inr other ↦ elim other [
      | inl equal ↦ rw (equal, o.irrefl k, get)
      | inr more ↦ rw (lt_asymm k x.0 more, more, get)
    ]
  ]

  -- The front item does not show at another key.
  pub get_past :
      (j k : K) (v : V) (rs : List (K × V))
      → j ≢ k
      → IsAfter key_of k rs
      → get j ((k, v) ∷ rs) ≡ get j rs
  get_past j k v rs apart after = elim (lt_cases j k) [
    | inl less ↦
        let later : IsAfter key_of j rs = IsAfter-trans key_of j k rs less after in
        get_after j ((k, v) ∷ rs) (less, later) ∙ sym (get_after j rs later)
    | inr other ↦ elim other [
      | inl equal ↦ absurd (apart equal)
      | inr more ↦ get_before j k v rs more
    ]
  ]

  module _ (j k : K) (v : V) (m : List (K × V)) (apart : j ≢ k) (map : IsMap m) where
    pub get-put_other : get j (put k v m) ≡ get j m
    get-put_other = elim (keyed k v m map) [
      | present ls rs w whole before after at ↦
          ap (λ l. get j (put k v l)) whole
          ∙ ap (get j) (put_hit k v ls rs before w)
          ∙ get_front j ls ((k, v) ∷ rs) ((k, w) ∷ rs)
              (get_past j k v rs apart after ∙ sym (get_past j k w rs apart after))
          ∙ sym (ap (get j) whole)
      | absent ls rs whole before after at ↦
          ap (λ l. get j (put k v l)) whole
          ∙ ap (get j) (put_miss k v ls rs before after)
          ∙ get_front j ls ((k, v) ∷ rs) rs (get_past j k v rs apart after)
          ∙ sym (ap (get j) whole)
    ]

    pub get-delete_other : get j (delete k m) ≡ get j m
    get-delete_other = elim (keyed k v m map) [
      | present ls rs w whole before after at ↦
          ap (λ l. get j (delete k l)) whole
          ∙ ap (get j) (delete_hit k v ls rs before w)
          ∙ get_front j ls rs ((k, w) ∷ rs) (sym (get_past j k w rs apart after))
          ∙ sym (ap (get j) whole)
      | absent ls rs whole before after at ↦
          ap (λ l. get j (delete k l)) whole
          ∙ ap (get j) (delete_miss k v ls rs before after)
          ∙ sym (ap (get j) whole)
    ]

  same_behind :
      (i : K) (v w : V) (m n : List (K × V))
      → IsAfter key_of i m
      → IsAfter key_of i n
      → ((k : K) → get k ((i, v) ∷ m) ≡ get k ((i, w) ∷ n))
      → (k : K) → get k m ≡ get k n
  same_behind i v w m n s t h k = elim (lt_cases i k) [
    | inl less ↦ sym (get_before k i v m less) ∙ h k ∙ get_before k i w n less
    | inr other ↦ elim other [
      | inl equal ↦
          get_after k m (subst (λ x. IsAfter key_of x m) equal s)
          ∙ sym (get_after k n (subst (λ x. IsAfter key_of x n) equal t))
      | inr more ↦
          get_after k m (IsAfter-trans key_of k i m more s)
          ∙ sym (get_after k n (IsAfter-trans key_of k i n more t))
    ]
  ]

  -- Maps that hold the same at every key are equal.
  pub map_ext : (m n : List (K × V)) → IsMap m → IsMap n → ((k : K) → get k m ≡ get k n) → m ≡ n
  map_ext [] [] s t h = refl
  map_ext [] ((k, v) ∷ n) s t h = cc (h k, get_here k v n, get_after k [] tt)
  map_ext ((k, v) ∷ m) [] s t h = cc (h k, get_here k v m, get_after k [] tt)
  map_ext ((i, v) ∷ m) ((j, w) ∷ n) (s, ss) (t, ts) h = elim (lt_cases i j) [
    | inl less ↦
        cc (h i, get_here i v m, get_after i ((j, w) ∷ n) (less, IsAfter-trans key_of i j n less t))
    | inr other ↦ elim other [
      | inr more ↦
          cc (
            h j,
            get_here j w n,
            get_after j ((i, v) ∷ m) (more, IsAfter-trans key_of j i m more s),
          )
      | inl equal ↦
          let t' : IsAfter key_of i n = subst (λ x. IsAfter key_of x n) (sym equal) t in
          let h' : (k : K) → get k ((i, v) ∷ m) ≡ get k ((i, w) ∷ n) =
            λ k. h k ∙ ap (λ x. get k ((x, w) ∷ n)) (sym equal) in
          let values : v ≡ w = cc (h' i, get_here i v m, get_here i w n) in
          let tails : m ≡ n = map_ext m n ss ts (λ k. same_behind i v w m n s t' h' k) in
          λ z. (equal z, values z) ∷ tails z
    ]
  ]

  mem-IsAfter :
      (j k : K) (v : V) (m : List (K × V)) → IsAfter key_of j m → (k, v) ∈ m → lt j k ≡ true
  mem-IsAfter j k v [] after m = absurd m
  mem-IsAfter j k v (x ∷ xs) (first, rest) (inl e) =
      subst (λ (y : K × V). lt j y.0 ≡ true) (sym e) first
  mem-IsAfter j k v (x ∷ xs) (first, rest) (inr m) = mem-IsAfter j k v xs rest m

  -- A map holds its items.
  pub get_of_mem : (k : K) (v : V) (m : List (K × V)) → IsMap m → (k, v) ∈ m → get k m ≡ some v
  get_of_mem k v [] s m = absurd m
  get_of_mem k v ((j, w) ∷ xs) s (inl e) =
      ap (λ (y : K × V). get k (y ∷ xs)) (sym e) ∙ get_here k v xs
  get_of_mem k v ((j, w) ∷ xs) (first, rest) (inr m) =
      get_before k j w xs (mem-IsAfter j k v xs first m) ∙ get_of_mem k v xs rest m

  pub mem_of_get : (k : K) (v : V) (m : List (K × V)) → IsMap m → get k m ≡ some v → (k, v) ∈ m
  mem_of_get k v [] s h = cc (h, get_after k [] tt)
  mem_of_get k v ((j, w) ∷ xs) (first, rest) h = elim (lt_cases j k) [
    | inl less ↦ inr (mem_of_get k v xs rest (sym (get_before k j w xs less) ∙ h))
    | inr other ↦ elim other [
      | inl equal ↦
          let at : some w ≡ some v =
            sym (get_here j w xs) ∙ ap (λ x. get x ((j, w) ∷ xs)) equal ∙ h in
          inl (λ z. (sym equal z, sym (some_injective at) z))
      | inr more ↦ cc (h, get_after k ((j, w) ∷ xs) (more, IsAfter-trans key_of k j xs more first))
    ]
  ]
