-- ===== src/Fifo/Delivery.antt =====
-- Over any run of calls each distinct pushed item is handed out at most once, in the order of the
-- first pushes, and no more than the bound are ever kept.
use glass_lint.Prelude.{ℕ, ◌≤◌, ◌≡◌, refl, sym, ap, ◌∙◌, inl, inr, Bool, true, ◌||◌}
use mathlib.Core.Path.{ap₂, subst}
use glass_lint.Prelude.{List, [], ◌∷◌, ◌++◌, append_assoc, append-nil, arith}
use glass_lint.Prelude.{Eq, contains, contains-false, length, length-append, leb, if◌then◌else◌}
use glass_lint.Prelude.{Bool-cases, leb→gt, IsNodup, IsNodup-append_end}
use glass_lint.Fifo.{BoundedFifo}
use glass_lint.Fifo.{Call, push_call, pop_call, drain_call, new, push}
use glass_lint.Fifo.{step, run}

module _ {T : Type 0} ⦃e : Eq T⦄ where
  -- What holds of the queue and of the items handed out so far.
  pub record IsValid (s : BoundedFifo T × List T) : Type 0 where
    pub delivered : s.1 ++ s.0.queue ≡ s.0.seen
    pub distinct : IsNodup s.0.seen
    pub bounded : length s.0.seen ≤ s.0.max_retained
    pub latched : s.0.exhausted ≡ true → length s.0.seen ≡ s.0.max_retained

  pub new-IsValid : (n : ℕ) → IsValid (new n, [])
  unfolding new
  new-IsValid n = record {
    delivered = refl;
    distinct = tt;
    bounded = omega arith;
    latched = λ h. cc;
  }

  push-IsValid :
      (x : T) (f : BoundedFifo T) (out : List T) → IsValid (f, out) → IsValid ((push x f).0, out)
  unfolding push
  push-IsValid x f out v = elim (Bool-cases (contains f.seen x)) [
    | inl old ↦ rw old v
    | inr new_item ↦ elim (Bool-cases (leb f.max_retained (length f.seen))) [
      | inl over ↦
          rw (new_item, over)
            (record {
              delivered = v.delivered;
              distinct = v.distinct;
              bounded = v.bounded;
              latched = λ h. ground (arith, v.bounded);
            })
      | inr room ↦
          rw (new_item, room)
            (record {
              delivered =
                  sym (append_assoc out f.queue (x ∷ [])) ∙ ap (λ l. l ++ x ∷ []) v.delivered;
              distinct = IsNodup-append_end f.seen x v.distinct (contains-false f.seen x new_item);
              bounded = omega (arith, length-append f.seen (x ∷ []), leb→gt _ _ room);
              latched = λ h. absurd (omega (arith, v.latched h, leb→gt _ _ room));
            })
    ]
  ]

  pop-IsValid :
      (q seen out : List T) (n : ℕ) (b : Bool)
      → IsValid (record { queue = q; seen = seen; max_retained = n; exhausted = b }, out)
      → IsValid
          (step pop_call (record { queue = q; seen = seen; max_retained = n; exhausted = b }, out))
  unfolding step
  pop-IsValid [] seen out n b v = v
  pop-IsValid (x ∷ q) seen out n b v = record {
    delivered = append_assoc out (x ∷ []) q ∙ v.delivered;
    distinct = v.distinct;
    bounded = v.bounded;
    latched = v.latched;
  }

  -- Every call keeps the invariant.
  pub step-IsValid : (c : Call T) (s : BoundedFifo T × List T) → IsValid s → IsValid (step c s)
  unfolding step
  step-IsValid (push_call x) (f, out) v = push-IsValid x f out v
  step-IsValid pop_call (f, out) v = pop-IsValid f.queue f.seen out f.max_retained f.exhausted v
  step-IsValid drain_call (f, out) v = record {
    delivered = append-nil (out ++ f.queue) ∙ v.delivered;
    distinct = v.distinct;
    bounded = v.bounded;
    latched = v.latched;
  }

  -- From a valid queue every run of calls ends in a valid queue.
  pub run-IsValid :
      (cs : List (Call T)) (s : BoundedFifo T × List T) → IsValid s → IsValid (run cs s)
  unfolding run
  run-IsValid [] s v = v
  run-IsValid (c ∷ cs) s v = run-IsValid cs (step c s) (step-IsValid c s v)

  -- The items that the queue keeps, described without it: the first pushes of distinct items, as
  -- long as there is room.
  pub admit : ℕ → List T → List (Call T) → List T
  admit n kept [] = kept
  admit n kept (push_call x ∷ cs) =
      admit n (if contains kept x || leb n (length kept) then kept else kept ++ x ∷ []) cs
  admit n kept (pop_call ∷ cs) = admit n kept cs
  admit n kept (drain_call ∷ cs) = admit n kept cs

  step_bound :
      (c : Call T) (s : BoundedFifo T × List T) → (step c s).0.max_retained ≡ s.0.max_retained
  unfolding step
  step_bound (push_call x) (f, out) = ground arith
  step_bound pop_call (f, out) = ground arith
  step_bound drain_call (f, out) = refl

  run_bound :
      (cs : List (Call T)) (s : BoundedFifo T × List T)
      → (run cs s).0.max_retained ≡ s.0.max_retained
  unfolding run
  run_bound [] s = refl
  run_bound (c ∷ cs) s = run_bound cs (step c s) ∙ step_bound c s

  push_seen :
      (x : T) (f : BoundedFifo T)
      → (push x f).0.seen ≡ (
          if contains f.seen x || leb f.max_retained (length f.seen)
          then f.seen
          else f.seen ++ x ∷ [])
  unfolding push
  push_seen x f = ground arith

  pop_seen : (s : BoundedFifo T × List T) → (step pop_call s).0.seen ≡ s.0.seen
  unfolding step
  pop_seen (f, out) = ground arith

  run_seen :
      (cs : List (Call T)) (s : BoundedFifo T × List T)
      → (run cs s).0.seen ≡ admit s.0.max_retained s.0.seen cs
  unfolding run admit
  run_seen [] s = refl
  run_seen (push_call x ∷ cs) s =
      run_seen cs (step (push_call x) s)
      ∙ ap₂ (λ n kept. admit n kept cs) (step_bound (push_call x) s)
          (unfold step in push_seen x s.0)
  run_seen (pop_call ∷ cs) s =
      run_seen cs (step pop_call s)
      ∙ ap₂ (λ n kept. admit n kept cs) (step_bound pop_call s) (pop_seen s)
  run_seen (drain_call ∷ cs) s =
      run_seen cs (step drain_call s)
      ∙ ap₂ (λ n kept. admit n kept cs) (step_bound drain_call s) (unfold step in refl)

-- Over any calls on a new queue of bound `n`: what was handed out, followed by what is pending, is
-- the list of the first pushes of distinct items that found room, in their order; no item stands
-- in it twice, and it has at most `n` items.
pub run-new :
    {T : Type 0} ⦃e : Eq T⦄ (n : ℕ) (cs : List (Call T))
    → ((run cs (new n, [])).1 ++ (run cs (new n, [])).0.queue ≡ admit n [] cs)
      × IsNodup (admit n [] cs)
      × (length (admit n [] cs) ≤ n)
run-new n cs =
    let v = run-IsValid cs (new n, []) (new-IsValid n) in
    let seen = run_seen cs (new n, []) in
    let bound = run_bound cs (new n, []) in
    unfold new in
    (
      v.delivered ∙ seen,
      subst IsNodup seen v.distinct,
      omega (arith, ap length seen, v.bounded, bound),
    )
