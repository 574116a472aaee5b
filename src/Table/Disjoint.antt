-- ===== src/Table/Disjoint.antt =====
-- The two slots that `get_disjoint` lends, through the halves of the split vector.
use glass_lint.Prelude.{
  ℕ, zero, suc, ◌≡◌, ◌≢◌, ◌≤◌, ◌<◌, ◌⊎◌, refl, sym, ap, ◌∙◌, inl, inr, arith, Option, none, some,
  List, [], ◌∷◌, ◌++◌, length, length-set, get_elem?, get_elem?-within, set, take, drop,
  take-append-drop, leb, ltb, nat_beq, max, if◌then◌else◌, Bool-cases,
}
use glass_lint.Table.{
  IdIndex, IndexTable, Borrowed, slot, get, split_at_write, split_at_read, get_disjoint,
}
use glass_lint.Table.Slots.{slot-set}

module _ {A : Type 0} where
  get_elem?-take : (n i : ℕ) (xs : List A) → i < n → get_elem? (take n xs) i ≡ get_elem? xs i
  get_elem?-take zero i xs h = absurd (omega arith)
  get_elem?-take (suc n) i [] h = refl
  get_elem?-take (suc n) zero (x ∷ xs) h = refl
  get_elem?-take (suc n) (suc i) (x ∷ xs) h = get_elem?-take n i xs (omega arith)

  get_elem?-drop : (n : ℕ) (xs : List A) → get_elem? (drop n xs) 0 ≡ get_elem? xs n
  get_elem?-drop zero xs = refl
  get_elem?-drop (suc n) [] = refl
  get_elem?-drop (suc n) (x ∷ xs) = get_elem?-drop n xs

  set-right : (n : ℕ) (xs : List A) (a : A) → take n xs ++ set (drop n xs) 0 a ≡ set xs n a
  set-right zero xs a = refl
  set-right (suc n) [] a = refl
  set-right (suc n) (x ∷ xs) a = ap (λ l. x ∷ l) (set-right n xs a)

  set-left : (n i : ℕ) (xs : List A) (a : A) → i < n → set (take n xs) i a ++ drop n xs ≡ set xs i a
  set-left zero i xs a h = absurd (omega arith)
  set-left (suc n) i [] a h = refl
  set-left (suc n) zero (x ∷ xs) a h = ap (λ l. a ∷ l) (take-append-drop n xs)
  set-left (suc n) (suc i) (x ∷ xs) a h = ap (λ l. x ∷ l) (set-left n i xs a (omega arith))

module _ {T I : Type 0} ⦃ids : IdIndex I⦄ (read write : I) (t : IndexTable T) where
  -- What the two identifiers borrow.
  pub data Lent : Option (Option (Borrowed T)) → Type 0 where
    aliases : ids.into read ≡ ids.into write → Lent (some none)
    beyond :
        (b : Borrowed T)
        → ids.into read ≢ ids.into write
        → (length t.values ≤ ids.into read) ⊎ (length t.values ≤ ids.into write)
        → b.read ≡ none
        → b.write ≡ none
        → Lent (some (some b))
    lent :
        (b : Borrowed T)
        → ids.into read ≢ ids.into write
        → ids.into read < length t.values
        → ids.into write < length t.values
        → b.read ≡ get read t
        → b.write ≡ get write t
        → ((v : T) → length (b.written v) ≡ length t.values)
        → ((v : T) (id : I)
            → get id (record t { values = b.written v })
              ≡ (if nat_beq (ids.into write) (ids.into id) then some v else get id t))
        → Lent (some (some b))

  slot_of : (i : ℕ) {x : Option T} → get_elem? t.values i ≡ some x → x ≡ slot t.values i
  slot_of i {x} h = ap (λ o. elim o [ none ↦ none | some y ↦ y ]) (sym h)

  -- Two slots that are read rightly, and a write that sets the one.
  lent_by :
      (b : Borrowed T) {r w : Option T}
      → ids.into read ≢ ids.into write
      → get_elem? t.values (ids.into read) ≡ some r
      → get_elem? t.values (ids.into write) ≡ some w
      → b.read ≡ r
      → b.write ≡ w
      → ids.into read < length t.values
      → ids.into write < length t.values
      → ((v : T) → b.written v ≡ set t.values (ids.into write) (some v))
      → Lent (some (some b))
  unfolding get
  lent_by b apart at_r at_w reads writes small_r small_w sets =
      lent b apart small_r small_w (reads ∙ slot_of (ids.into read) at_r)
        (writes ∙ slot_of (ids.into write) at_w)
        (λ v. ap length (sets v) ∙ length-set t.values (ids.into write) (some v))
        (λ v id.
          ap (λ l. slot l (ids.into id)) (sets v)
          ∙ slot-set t.values (ids.into write) (ids.into id) v small_w)

  split_at_write-Lent :
      ids.into read < ids.into write
      → ids.into write < length t.values
      → Lent (
          split_at_write
            (take (ids.into write) t.values)
            (drop (ids.into write) t.values)
            (ids.into read))
  unfolding split_at_write
  split_at_write-Lent order small =
      let (r, at_r) = get_elem?-within t.values (ids.into read) (omega arith) in
      let (w, at_w) = get_elem?-within t.values (ids.into write) small in
      rw (get_elem?-take (ids.into write) (ids.into read) t.values order ∙ at_r) (
        rw (get_elem?-drop (ids.into write) t.values ∙ at_w) (
          lent_by _ (λ same. omega arith) at_r at_w refl refl (omega arith) small
            (λ v. set-right (ids.into write) t.values (some v))))

  split_at_read-Lent :
      ids.into write < ids.into read
      → ids.into read < length t.values
      → Lent (
          split_at_read
            (take (ids.into read) t.values)
            (drop (ids.into read) t.values)
            (ids.into write))
  unfolding split_at_read
  split_at_read-Lent order small =
      let (r, at_r) = get_elem?-within t.values (ids.into read) small in
      let (w, at_w) = get_elem?-within t.values (ids.into write) (omega arith) in
      rw (get_elem?-take (ids.into read) (ids.into write) t.values order ∙ at_w) (
        rw (get_elem?-drop (ids.into read) t.values ∙ at_r) (
          lent_by _ (λ same. omega arith) at_r at_w refl refl small (omega arith)
            (λ v. set-left (ids.into read) (ids.into write) t.values (some v) order)))

  -- `get_disjoint` never panics. It refuses two equal identifiers; where either lies past the stored
  -- vector it lends neither slot; else it lends both as `get` reads them, and a write through the
  -- second is what `get` reads there afterwards, with every other identifier and the length of the
  -- vector as before.
  pub get_disjoint-Lent : Lent (get_disjoint read write t)
  unfolding get_disjoint
  get_disjoint-Lent = elim (Bool-cases (nat_beq (ids.into read) (ids.into write))) [
    | inl same ↦ rw same (aliases (ground arith))
    | inr other ↦ elim (Bool-cases (leb (length t.values) (max (ids.into read) (ids.into write)))) [
      | inl far ↦ rw (other, far) (beyond _ (ground arith) (ground arith) refl refl)
      | inr near ↦ elim (Bool-cases (ltb (ids.into read) (ids.into write))) [
        | inl first ↦
            rw (other, near) (rw first (split_at_write-Lent (ground arith) (ground arith)))
        | inr second ↦
            rw (other, near) (rw second (split_at_read-Lent (ground arith) (ground arith)))
      ]
    ]
  ]
