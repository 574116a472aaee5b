-- ===== src/Projector/Control/Routing.antt =====
-- Where an abrupt exit arrives, and what popping a region asks for.
use glass_lint.Prelude.{
  ◌≡◌, refl, sym, ap, ◌∙◌, true, false, some, none, Option, [], ◌∷◌, ◌++◌, inl, inr, ◌↔◌,
  nat_beq_iff, Result, ok, err, Bool-cases, some_injective,
}
use glass_lint.Projector.Tables.{FlowEnvironment}
use glass_lint.Projector.Control.{
  AbruptExit, break_exit, continue_exit, return_exit, ControlFrame, branch, loop, switch, try_frame,
  function, ControlStack, ControlStackError, ControlRegionId, wrong_region, no_target, region,
  is_region, last_matching, pop_region, route_break, route_continue, route_abrupt, under,
}

-- The constructs that an exit arrives at, and what it leaves there.
abbrev pub Accepts : AbruptExit → ControlFrame → Type 0
Accepts break_exit (loop f) = Unit
Accepts break_exit (switch f) = Unit
Accepts continue_exit (loop f) = Unit
Accepts _ _ = ⊥

abbrev pub accept : AbruptExit → FlowEnvironment → ControlFrame → ControlFrame
accept break_exit e (loop f) = loop (record f { breaks = f.breaks ++ e ∷ [] })
accept break_exit e (switch f) = switch (record f { breaks = f.breaks ++ e ∷ [] })
accept continue_exit e (loop f) = loop (record f { continues = f.continues ++ e ∷ [] })
accept _ e frame = frame

abbrev pub NoneAccepts : AbruptExit → ControlStack → Type 0
NoneAccepts kind [] = Unit
NoneAccepts kind (frame ∷ stack) = (¬ Accepts kind frame) × NoneAccepts kind stack

pub data Routed (kind : AbruptExit) (e : FlowEnvironment) (stack : ControlStack)
    (r : ControlStack × Result (Unit {0}) ControlStackError) : Type 0 where
  to_caller : kind ≡ return_exit → r ≡ (stack, ok tt) → Routed kind e stack r
  nowhere :
      ¬ (kind ≡ return_exit)
      → NoneAccepts kind stack
      → r ≡ (stack, err no_target)
      → Routed kind e stack r
  arrives :
      (inner outer : ControlStack) (frame : ControlFrame)
      → stack ≡ inner ++ frame ∷ outer
      → NoneAccepts kind inner
      → Accepts kind frame
      → r ≡ (inner ++ accept kind e frame ∷ outer, ok tt)
      → Routed kind e stack r

not_return_break : ¬ (break_exit ≡ return_exit)
not_return_break h = cc

not_return_continue : ¬ (continue_exit ≡ return_exit)
not_return_continue h = cc

-- A frame that does not accept the exit is passed.
pass :
    (kind : AbruptExit) (e : FlowEnvironment) (frame : ControlFrame) (stack : ControlStack)
    (r : ControlStack × Result (Unit {0}) ControlStackError)
    → ¬ (kind ≡ return_exit)
    → ¬ Accepts kind frame
    → Routed kind e stack r
    → Routed kind e (frame ∷ stack) (under frame r)
pass kind e frame stack r other no_accept (to_caller same h) = absurd (other same)
pass kind e frame stack r other no_accept (nowhere not_return none_accepts h) =
    nowhere not_return (no_accept, none_accepts) (ap (under frame) h)
pass kind e frame stack r other no_accept
      (arrives inner outer target whole none_accepts accepts h) =
    arrives (frame ∷ inner) outer target (ap (λ l. frame ∷ l) whole) (no_accept, none_accepts)
      accepts (ap (under frame) h)

route_break-Routed :
    (e : FlowEnvironment) (stack : ControlStack) → Routed break_exit e stack (route_break e stack)
unfolding route_break
route_break-Routed e [] = nowhere not_return_break tt refl
route_break-Routed e (loop f ∷ stack) = arrives [] stack (loop f) refl tt tt refl
route_break-Routed e (switch f ∷ stack) = arrives [] stack (switch f) refl tt tt refl
route_break-Routed e (branch f ∷ stack) =
    pass break_exit e (branch f) stack _ not_return_break (λ h. h) (route_break-Routed e stack)
route_break-Routed e (try_frame f ∷ stack) =
    pass break_exit e (try_frame f) stack _ not_return_break (λ h. h) (route_break-Routed e stack)
route_break-Routed e (function f ∷ stack) =
    pass break_exit e (function f) stack _ not_return_break (λ h. h) (route_break-Routed e stack)

route_continue-Routed :
    (e : FlowEnvironment) (stack : ControlStack)
    → Routed continue_exit e stack (route_continue e stack)
unfolding route_continue
route_continue-Routed e [] = nowhere not_return_continue tt refl
route_continue-Routed e (loop f ∷ stack) = arrives [] stack (loop f) refl tt tt refl
route_continue-Routed e (switch f ∷ stack) =
    pass continue_exit e (switch f) stack _ not_return_continue (λ h. h)
      (route_continue-Routed e stack)
route_continue-Routed e (branch f ∷ stack) =
    pass continue_exit e (branch f) stack _ not_return_continue (λ h. h)
      (route_continue-Routed e stack)
route_continue-Routed e (try_frame f ∷ stack) =
    pass continue_exit e (try_frame f) stack _ not_return_continue (λ h. h)
      (route_continue-Routed e stack)
route_continue-Routed e (function f ∷ stack) =
    pass continue_exit e (function f) stack _ not_return_continue (λ h. h)
      (route_continue-Routed e stack)

-- A break arrives at the innermost loop or switch and a continue at the innermost loop, and is
-- added at the end of what stands there, with all other frames as they were; where there is no such
-- frame it is an error and nothing changes. A return changes nothing.
pub route_abrupt-Routed :
    (kind : AbruptExit) (e : FlowEnvironment) (stack : ControlStack)
    → Routed kind e stack (route_abrupt kind e stack)
unfolding route_abrupt
route_abrupt-Routed break_exit e stack = route_break-Routed e stack
route_abrupt-Routed continue_exit e stack = route_continue-Routed e stack
route_abrupt-Routed return_exit e stack = to_caller refl refl

is_region_iff :
    (r : ControlRegionId) (o : Option ControlRegionId) → (is_region r o ≡ true) ↔ (o ≡ some r)
is_region_iff r none = (λ h. cc, λ h. cc)
is_region_iff r (some s) =
    (λ h. ap some ((nat_beq_iff s r).0 h), λ h. (nat_beq_iff s r).1 (some_injective h))

module _ (r : ControlRegionId) (f : ControlFrame) (stack : ControlStack) where
  pops : is_region r (region f) ≡ true → pop_region r (f ∷ stack) ≡ (stack, ok f)
  unfolding pop_region last_matching
  pops h = rw (h, pop_region, last_matching)

  stays : is_region r (region f) ≡ false → pop_region r (f ∷ stack) ≡ (f ∷ stack, err wrong_region)
  unfolding pop_region last_matching
  stays h = rw (h, pop_region, last_matching)

-- `pop_region` pops a frame exactly if it is the last one and has the region asked for.
pop_region_iff :
    (r : ControlRegionId) (stack stack' : ControlStack) (frame : ControlFrame)
    → (pop_region r stack ≡ (stack', ok frame))
      ↔ ((stack ≡ frame ∷ stack') × (region frame ≡ some r))
unfolding pop_region
pop_region_iff r [] stack' frame = (λ h. cc (ap (λ x. x.1) h), λ h. cc (h.0))
pop_region_iff r (f ∷ stack) stack' frame = elim (Bool-cases (is_region r (region f))) [
  | inl here ↦ (
    λ h.
        let e = sym (pops r f stack here) ∙ h in
        let same : f ≡ frame = ok_injective (ap (λ x. x.1) e) in
        (
          ap (λ x. x ∷ stack) same ∙ ap (λ x. frame ∷ x) (ap (λ x. x.0) e),
          ap region (sym same) ∙ (is_region_iff r (region f)).0 here,
        ),
    λ h.
        let head : f ≡ frame = cc (h.0) in
        let tail : stack ≡ stack' = cc (h.0) in pops r f stack here ∙ (λ z. (tail z, ok (head z))),
  )
  | inr other ↦ (
    λ h. absurd (err_ok (ap (λ x. x.1) (sym (stays r f stack other) ∙ h))),
    λ h.
        let head : f ≡ frame = cc (h.0) in
        absurd (true_false (sym ((is_region_iff r (region f)).1 (ap region head ∙ h.1)) ∙ other)),
  )
]
  where
    ok_injective :
        {a b : ControlFrame} → ◌≡◌ {A = Result ControlFrame ControlStackError} (ok a) (ok b) → a ≡ b
    ok_injective h = cc

    err_ok : {a : ControlStackError} {b : ControlFrame} → err a ≡ ok b → ⊥
    err_ok h = cc

    true_false : true ≡ false → ⊥
    true_false h = cc
