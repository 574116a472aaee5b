-- ===== src/Table/Lookup.antt =====
-- Each operation of the table as an operation on the function from identifiers to values.
use glass_lint.Prelude.{ℕ, ◌+◌, ◌≤◌, ◌<◌, ◌≡◌, sym, subst, ap, ◌∙◌, true, max}
use glass_lint.Prelude.{Option, some, List, length, length-set, arith}
use glass_lint.Prelude.{
  leb, nat_beq, if◌then◌else◌, u32_max, Bool-cases, leb→gt, leb→le, inl, inr, map,
}
use glass_lint.Prelude.{mem-map, mem_of_map, length-map, ◌∈◌, ◌↔◌}
use glass_lint.Table.{IdIndex, IndexTable, inserted, replaced, out_of_range}
use glass_lint.Table.{new, slot, present, len, clear, present_len, shrink_to_fit, enumerate}
use glass_lint.Table.{get, contains, grow, label, insert, iter}
use glass_lint.Table.Slots.{slot-resize, length-resize, slot-set, present-resize}
use glass_lint.Table.Slots.{
  length-present-set, trim, slot-trim, present-trim, length-trim, present_len-le,
}
use glass_lint.Table.Slots.{mem-enumerate, enumerate-mem, length-enumerate, lt_of_slot}

module _ {T : Type 0} where
  -- The count is that of the present values, and no slot lies beyond the capacity.
  pub record IsValid (t : IndexTable T) : Type 0 where
    pub counted : t.occupied ≡ length (present t.values)
    pub bounded : length t.values ≤ t.capacity

  pub new-IsValid : (capacity : ℕ) → IsValid (new {T = T} capacity)
  unfolding new
  new-IsValid capacity = omega arith

  pub clear-IsValid : (t : IndexTable T) → IsValid (clear t)
  unfolding clear
  clear-IsValid t = omega arith

  module _ {I : Type 0} ⦃ids : IdIndex I⦄ where
    slot-grow : (id : I) (vs : List (Option T)) (j : ℕ) → slot (grow id vs) j ≡ slot vs j
    unfolding grow
    slot-grow id vs j = elim (Bool-cases (leb (length vs) (ids.into id))) [
      | inl short ↦ rw short (slot-resize vs (ids.into id + 1) j)
      | inr long ↦ rw long
    ]

    length-grow :
        (id : I) (vs : List (Option T)) → length (grow id vs) ≡ max (length vs) (ids.into id + 1)
    unfolding grow
    length-grow id vs = elim (Bool-cases (leb (length vs) (ids.into id))) [
      | inl short ↦
          let le = leb→le _ _ short in rw short (omega (arith, length-resize vs (ids.into id + 1)))
      | inr long ↦ let lt = leb→gt _ _ long in rw long (omega arith)
    ]

    present-grow : (id : I) (vs : List (Option T)) → present (grow id vs) ≡ present vs
    unfolding grow
    present-grow id vs = elim (Bool-cases (leb (length vs) (ids.into id))) [
      | inl short ↦ rw short (present-resize vs (ids.into id + 1))
      | inr long ↦ rw long
    ]

    -- `insert` reports `out_of_range` exactly for an identifier at or past the capacity, else
    -- whether the slot was taken; it changes what is read at that identifier alone, and nothing
    -- where it reports `out_of_range`.
    pub get-insert :
        (id j : I) (v : T) (t : IndexTable T)
        → (get j (insert id v t).0 ≡ (
            if leb t.capacity (ids.into id)
            then get j t
            else if nat_beq (ids.into id) (ids.into j)
            then some v
            else get j t))
          × ((insert id v t).1 ≡ (
              if leb t.capacity (ids.into id)
              then out_of_range
              else if contains id t
              then replaced
              else inserted))
    unfolding insert get contains
    get-insert id j v t =
        let i = ids.into id in
        let room : i < length (grow id t.values) = omega (arith, length-grow id t.values) in
        let wrote = slot-set (grow id t.values) i (ids.into j) v room in
        let old = slot-grow id t.values (ids.into j) in
        let here = slot-grow id t.values i in
        (ground (arith, wrote, old, here), ground (arith, here))

    -- `insert` keeps the count of occupied slots right and the vector within the capacity.
    insert-IsValid : (id : I) (v : T) (t : IndexTable T) → IsValid t → IsValid (insert id v t).0
    unfolding insert
    insert-IsValid id v t valid =
        let i = ids.into id in
        let room : i < length (grow id t.values) = omega (arith, length-grow id t.values) in
        let more = length-present-set (grow id t.values) i v room in
        let same = ap length (present-grow id t.values) in
        let size = length-set (grow id t.values) i (some v) in
        let grown = length-grow id t.values in
        record { counted = ground (arith, more, same); bounded = ground (arith, size, grown) }

    -- `shrink_to_fit` changes nothing that is read, cuts the vector behind its last value, and
    -- keeps a valid table valid.
    get-shrink_to_fit :
        (j : I) (t : IndexTable T)
        → IsValid t
        → (get j (shrink_to_fit t) ≡ get j t)
          × (length (shrink_to_fit t).values ≡ present_len t.values)
          × IsValid (shrink_to_fit t)
    unfolding get shrink_to_fit trim
    get-shrink_to_fit j t valid = (
      slot-trim t.values (ids.into j),
      length-trim t.values,
      record {
        counted = valid.counted ∙ ap length (sym (present-trim t.values));
        bounded = omega (arith, length-trim t.values, present_len-le t.values, valid.bounded);
      },
    )

    iter-pairs :
        (t : IndexTable T)
        → IsValid t
        → length t.values ≤ u32_max + 1
        → ((p : I × T) → p ∈ iter t → (ids.from_raw (ids.into p.0) ≡ p.0) × (get p.0 t ≡ some p.1))
          × ((raw : ℕ) (v : T)
              → raw ≤ u32_max
              → get (ids.from_raw raw) t ≡ some v
              → (ids.from_raw raw, v) ∈ iter t)
          × (length (iter {I = I} t) ≡ len t)
    unfolding iter get len label
    iter-pairs t valid small = (sound, complete, count)
      where
        sound :
            (p : I × T) → p ∈ iter t → (ids.from_raw (ids.into p.0) ≡ p.0) × (get p.0 t ≡ some p.1)
        sound p m =
            let ((raw, v), inside, same) = mem_of_map (label {I = I}) p (enumerate 0 t.values) m in
            let (j, at, found) = mem-enumerate 0 t.values raw v inside in
            let at' : j ≡ raw = omega arith in
            let found' : slot t.values raw ≡ some v = rw at' at found in
            let near = lt_of_slot t.values raw found' in
            let fits : leb raw u32_max ≡ true = ground arith in
            let id : p.0 ≡ ids.from_raw raw = ap (λ (q : I × T). q.0) same ∙ (rw fits) in
            let value : p.1 ≡ v = ap (λ (q : I × T). q.1) same in
            let back = ids.into-from_raw raw (leb→le _ _ fits) in
            (
              ap (λ i. ids.from_raw (ids.into i)) id ∙ ap ids.from_raw back ∙ sym id,
              ap (λ i. slot t.values (ids.into i)) id
                  ∙ ap (slot t.values) back
                  ∙ found'
                  ∙ ap some (sym value),
            )

        complete :
            (raw : ℕ) (v : T)
            → raw ≤ u32_max
            → get (ids.from_raw raw) t ≡ some v
            → (ids.from_raw raw, v) ∈ iter t
        complete raw v r h =
            let found : slot t.values raw ≡ some v =
              ap (slot t.values) (sym (ids.into-from_raw raw r)) ∙ h in
            let inside = enumerate-mem 0 t.values raw v found in
            let named = mem-map (label {I = I}) (0 + raw, v) (enumerate 0 t.values) inside in
            subst (λ p. p ∈ map (label {I = I}) (enumerate 0 t.values)) (ground arith) named

        count : length (iter {I = I} t) ≡ len t
        count =
            length-map (label {I = I}) (enumerate 0 t.values)
            ∙ length-enumerate 0 t.values
            ∙ sym valid.counted

    -- On a valid table of at most 2^32 slots `iter` yields an identifier with a value exactly if
    -- `from_raw` makes the identifier and `get` reads that value there; and it yields as many pairs
    -- as `len` says.
    pub iter_iff :
        (t : IndexTable T) (id : I) (v : T)
        → IsValid t
        → length t.values ≤ u32_max + 1
        → (((id, v) ∈ iter t) ↔ ((ids.from_raw (ids.into id) ≡ id) × (get id t ≡ some v)))
          × (length (iter {I = I} t) ≡ len t)
    iter_iff t id v valid small =
        let (sound, complete, count) = iter-pairs t valid small in
        (
          (
            sound (id, v),
            λ (made, read).
                subst (λ i. (i, v) ∈ iter t) made
                  (complete (ids.into id) v (ids.into-le id) (ap (λ i. get i t) made ∙ read)),
          ),
          count,
        )
