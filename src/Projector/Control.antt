-- ===== src/Projector/Control.antt =====
-- glass-lint-core/src/analysis/flow/projector/state.rs: the stack of the control constructs that are
-- open, with the environments saved for their joins. The last frame is the first of the list.
pub mod Routing
use glass_lint.Prelude.{
  ℕ, Bool, true, false, Option, none, some, List, [], ◌∷◌, ◌++◌, length, drop, leb, nat_beq,
  if◌then◌else◌, Result, ok, err,
}
use glass_lint.Flow.State.{FactId}
use glass_lint.Projector.Tables.{FlowEnvironment}

abbrev pub ControlRegionId : Type 0
ControlRegionId = ℕ

pub data AbruptExit : Type 0 where
  break_exit continue_exit return_exit : AbruptExit

pub record BranchFrame : Type 0 where
  pub region : ControlRegionId
  pub base : List FlowEnvironment
  pub then_exit : Option (List FlowEnvironment)

pub record LoopFrame : Type 0 where
  pub region : ControlRegionId
  pub body_start : FactId
  pub baseline : List FlowEnvironment
  pub guaranteed : Bool
  pub breaks : List FlowEnvironment
  pub continues : List FlowEnvironment

pub record SwitchFrame : Type 0 where
  pub region : ControlRegionId
  pub baseline : List FlowEnvironment
  pub breaks : List FlowEnvironment
  pub has_default : Bool

pub record TryFrame : Type 0 where
  pub region : ControlRegionId
  pub baseline : List FlowEnvironment
  pub try_exit : Option (List FlowEnvironment)
  pub catch_exit : Option (List FlowEnvironment)
  pub abrupt_exits : List (AbruptExit × FlowEnvironment)
  pub has_finally : Bool
  pub normal_count : ℕ

pub data ControlFrame : Type 0 where
  branch : BranchFrame → ControlFrame
  loop : LoopFrame → ControlFrame
  switch : SwitchFrame → ControlFrame
  try_frame : TryFrame → ControlFrame
  function : List FlowEnvironment → ControlFrame

abbrev pub ControlStack : Type 0
ControlStack = List ControlFrame

pub record LoopSeed : Type 0 where
  pub body_start : FactId
  pub baseline : List FlowEnvironment
  pub guaranteed : Bool
  pub breaks : List FlowEnvironment
  pub continues : List FlowEnvironment

pub data ControlStackError : Type 0 where
  empty_stack wrong_region wrong_kind no_target : ControlStackError

-- `ControlFrame::region`.
abbrev pub region : ControlFrame → Option ControlRegionId
region (branch f) = some f.region
region (loop f) = some f.region
region (switch f) = some f.region
region (try_frame f) = some f.region
region (function caller) = none

abbrev pub push : ControlFrame → ControlStack → ControlStack
push frame stack = frame ∷ stack

abbrev pub is_region : ControlRegionId → Option ControlRegionId → Bool
is_region r none = false
is_region r (some s) = nat_beq s r

-- The frame that `last_matching_mut` lends.
pub last_matching : ControlRegionId → ControlStack → Result ControlFrame ControlStackError
last_matching r [] = err empty_stack
last_matching r (frame ∷ stack) = if is_region r (region frame) then ok frame else err wrong_region

pub pop_region :
    ControlRegionId → ControlStack → ControlStack × Result ControlFrame ControlStackError
pop_region r [] = ([], err empty_stack)
pop_region r (frame ∷ stack) = elim (last_matching r (frame ∷ stack)) [
  | err e ↦ (frame ∷ stack, err e)
  | ok _ ↦ (stack, ok frame)
]

abbrev pub seed_of : LoopFrame → LoopSeed
seed_of f = record {
  body_start = f.body_start;
  baseline = f.baseline;
  guaranteed = f.guaranteed;
  breaks = f.breaks;
  continues = f.continues;
}

pub take_seed : ControlFrame → ControlStack → ControlStack × Result LoopSeed ControlStackError
take_seed (loop f) stack = (loop (record f { baseline = []; breaks = [] }) ∷ stack, ok (seed_of f))
take_seed frame stack = (frame ∷ stack, err wrong_kind)

pub take_loop_seed :
    ControlRegionId → ControlStack → ControlStack × Result LoopSeed ControlStackError
unfolding take_seed
take_loop_seed r [] = ([], err empty_stack)
take_loop_seed r (frame ∷ stack) =
    if is_region r (region frame) then take_seed frame stack else (frame ∷ stack, err wrong_region)

pub pop_loop : ControlStack → ControlStack × Result (Unit {0}) ControlStackError
pop_loop [] = ([], err empty_stack)
pop_loop (frame ∷ stack) = (stack, ok tt)

pub loop_break_count : ControlStack → Result ℕ ControlStackError
loop_break_count [] = err no_target
loop_break_count (loop f ∷ stack) = ok (length f.breaks)
loop_break_count (frame ∷ stack) = loop_break_count stack

pub take_loop_continues :
    ControlStack → ControlStack × Result (List FlowEnvironment) ControlStackError
take_loop_continues [] = ([], err empty_stack)
take_loop_continues (loop f ∷ stack) = (loop (record f { continues = [] }) ∷ stack, ok f.continues)
take_loop_continues (frame ∷ stack) = (frame ∷ stack, err wrong_kind)

-- `breaks.get(count..).unwrap_or_default()`
pub new_loop_breaks_since : ℕ → ControlStack → Result (List FlowEnvironment) ControlStackError
new_loop_breaks_since count [] = err empty_stack
new_loop_breaks_since count (loop f ∷ stack) =
    ok (if leb count (length f.breaks) then drop count f.breaks else [])
new_loop_breaks_since count (frame ∷ stack) = err wrong_kind

pub record_abrupt_exit : AbruptExit → FlowEnvironment → ControlStack → ControlStack
record_abrupt_exit kind environment [] = []
record_abrupt_exit kind environment (try_frame f ∷ stack) =
    try_frame (record f { abrupt_exits = f.abrupt_exits ++ (kind, environment) ∷ [] })
    ∷ record_abrupt_exit kind environment stack
record_abrupt_exit kind environment (frame ∷ stack) =
    frame ∷ record_abrupt_exit kind environment stack

abbrev pub under :
    ControlFrame
    → ControlStack × Result (Unit {0}) ControlStackError
    → ControlStack × Result (Unit {0}) ControlStackError
under frame (stack, result) = (frame ∷ stack, result)

pub route_break :
    FlowEnvironment → ControlStack → ControlStack × Result (Unit {0}) ControlStackError
route_break environment [] = ([], err no_target)
route_break environment (loop f ∷ stack) =
    (loop (record f { breaks = f.breaks ++ environment ∷ [] }) ∷ stack, ok tt)
route_break environment (switch f ∷ stack) =
    (switch (record f { breaks = f.breaks ++ environment ∷ [] }) ∷ stack, ok tt)
route_break environment (frame ∷ stack) = under frame (route_break environment stack)

pub route_continue :
    FlowEnvironment → ControlStack → ControlStack × Result (Unit {0}) ControlStackError
route_continue environment [] = ([], err no_target)
route_continue environment (loop f ∷ stack) =
    (loop (record f { continues = f.continues ++ environment ∷ [] }) ∷ stack, ok tt)
route_continue environment (frame ∷ stack) = under frame (route_continue environment stack)

pub route_abrupt :
    AbruptExit → FlowEnvironment → ControlStack → ControlStack × Result (Unit {0}) ControlStackError
route_abrupt break_exit environment stack = route_break environment stack
route_abrupt continue_exit environment stack = route_continue environment stack
route_abrupt return_exit environment stack = (stack, ok tt)

pub pop_function : ControlStack → ControlStack × Result (List FlowEnvironment) ControlStackError
pop_function [] = ([], err empty_stack)
pop_function (function caller ∷ stack) = (stack, ok caller)
pop_function (frame ∷ stack) = (frame ∷ stack, err wrong_kind)
