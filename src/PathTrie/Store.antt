-- ===== src/PathTrie/Store.antt =====
-- glass-lint-datastructures/src/path_trie/store.rs: the store of path nodes.
-- `nodes` are the pushed nodes, a handle is the index of one with the owner of its store. Loops
-- that follow parents take fuel, and are `none` also where it runs out.
mod Valid
mod Tests
mod Push
pub mod Append
pub mod Walks
pub mod Concat
pub mod Suffix
pub mod Linked
use glass_lint.Prelude.{ℕ, zero, suc, ◌+◌, ◌-◌, ◌%◌, ◌^◌, Bool, true, false, Option, none, some}
use glass_lint.Prelude.{
  List, [], ◌∷◌, ◌++◌, reverse, length, get_elem?, leb, ltb, nat_beq, if◌then◌else◌,
}
use glass_lint.Prelude.{◌>>=◌, u32_try_from, checked_add_u32, ◌==◌, pair_eq}
use glass_lint.Prelude.Assoc.{lookup, insert}
use glass_lint.PathTrie.{PathId, empty, for_store, PathSegment, property, index, PathLink}
use glass_lint.PathTrie.{ParentRef, local, linked, PathNode, default_max_path_nodes}
use glass_lint.PathTrie.{id_eq, segment_eq, parent_eq, id_beq}

pub record PathStore : Type 0 where
  pub nodes : List PathNode
  pub by_edge : List ((ParentRef × PathSegment) × PathId)
  pub max_nodes : ℕ
  pub owner : ℕ

abbrev pub root_node : PathNode
root_node = record { parent = local empty; depth = 0; segment = none }

-- `NEXT_STORE_ID` is passed in and out; `fetch_add` wraps.
abbrev pub with_max_nodes : ℕ → ℕ → PathStore × ℕ
with_max_nodes max_nodes next_store_id = (
  record { nodes = root_node ∷ []; by_edge = []; max_nodes = max_nodes; owner = next_store_id },
  (next_store_id + 1) % 2 ^ 64,
)

abbrev pub new : ℕ → PathStore × ℕ
new next_store_id = with_max_nodes default_max_path_nodes next_store_id

abbrev pub is_empty : PathId → Bool
is_empty id = id == empty

pub local_id : PathId → PathStore → Option PathId
local_id id st =
    if id == empty then some empty else if nat_beq id.owner st.owner then some id else none

pub node : PathId → PathStore → Option PathNode
node id st = do id' ← local_id id st; get_elem? st.nodes id'.index

abbrev pub is_valid : PathId → PathStore → Bool
is_valid id st = elim (node id st) [ none ↦ false | some _ ↦ true ]

pub parent_depth : List PathNode → ParentRef → Option ℕ
parent_depth nodes (local id) = do n ← get_elem? nodes id.index; checked_add_u32 n.depth 1
parent_depth nodes (linked link) = checked_add_u32 link.depth 1

pub push_node : ParentRef → PathSegment → ℕ → ℕ → PathStore → PathStore × Option PathId
push_node parent segment id depth st =
    let child = for_store id st.owner in
    let pushed : PathNode = record { parent = parent; depth = depth; segment = some segment } in
    (
      record st {
        nodes = st.nodes ++ pushed ∷ [];
        by_edge = insert (parent, segment) child st.by_edge;
      },
      some child,
    )

-- The index and the depth of a node that is still to be pushed, if it may be.
pub next_node : ParentRef → PathStore → Option (ℕ × ℕ)
next_node parent st = if leb st.max_nodes (length st.nodes) then none else do
  id ← u32_try_from (length st.nodes)
  depth ← parent_depth st.nodes parent
  some (id, depth)

pub append_node : ParentRef → PathSegment → PathStore → PathStore × Option PathId
append_node parent segment st = elim (next_node parent st) [
  | none ↦ (st, none)
  | some (id, depth) ↦ push_node parent segment id depth st
]

pub append_under : ParentRef → PathSegment → PathStore → PathStore × Option PathId
append_under parent segment st = elim (lookup (parent, segment) st.by_edge) [
  | some path ↦ (st, some path)
  | none ↦ append_node parent segment st
]

pub append : PathId → PathSegment → PathStore → PathStore × Option PathId
append parent segment st = elim (local_id parent st) [
  | none ↦ (st, none)
  | some p ↦ append_under (local p) segment st
]

abbrev pub link : PathId → PathStore → Option PathLink
link parent st = do
  p ← local_id parent st
  n ← node p st
  some (record { path = p; depth = n.depth })

pub append_linked : PathLink → PathSegment → PathStore → PathStore × Option PathId
append_linked parent segment st = append_under (linked parent) segment st

pub depth : PathId → PathStore → Option ℕ
depth id st = do n ← node id st; some n.depth

pub parent_ref : PathId → PathStore → Option ParentRef
parent_ref id st = do n ← node id st; some n.parent

abbrev pub parent_id : ParentRef → PathId
parent_id (local id) = id
parent_id (linked link) = link.path

abbrev pub parent : PathId → PathStore → Option PathId
parent id st = do p ← parent_ref id st; some (parent_id p)

pub segment : PathId → PathStore → Option PathSegment
segment id st = do
  id' ← local_id id st
  if is_empty id' then none else get_elem? st.nodes id'.index >>= λ n. n.segment

-- `for _ in 0..count`: the ancestor that many local links up.
pub ancestor : ℕ → PathId → PathStore → Option PathId
ancestor zero current st = some current
ancestor (suc count) current st = elim (parent_ref current st) [
  | some (local next) ↦ ancestor count next st
  | _ ↦ none
]

pub starts_with : PathId → PathId → PathStore → Bool
starts_with path prefix st = elim (depth path st) [
  | none ↦ false
  | some path_depth ↦ elim (depth prefix st) [
    | none ↦ false
    | some prefix_depth ↦
        if ltb path_depth prefix_depth
        then false
        else elim (ancestor (path_depth - prefix_depth) path st) [
          | none ↦ false
          | some current ↦ current == elim (local_id prefix st) [ none ↦ empty | some id ↦ id ]
        ]
  ]
]

-- The next link of a loop that stops with `None` at a linked parent.
abbrev pub local_parent : ParentRef → Option PathId
local_parent (local id) = some id
local_parent (linked link) = none

pub first_loop : ℕ → Option PathSegment → PathId → PathStore → Option PathSegment
first_loop zero last current st = none
first_loop (suc fuel) last current st =
    let rest = node current st >>= λ n. segment current st >>= λ s.
    local_parent n.parent >>= λ next. first_loop fuel (some s) next st in
    if is_empty current then last else rest

pub first_segment_of : PathId → PathStore → Option PathSegment
first_segment_of id st = do
  current ← local_id id st
  first_loop (suc (length st.nodes)) none current st

pub find_edge : PathId → PathSegment → PathStore → Option PathId
find_edge parent segment st = do p ← local_id parent st; lookup (local p, segment) st.by_edge

pub find_linked_edge : PathLink → PathSegment → PathStore → Option PathId
find_linked_edge parent segment st = lookup (linked parent, segment) st.by_edge

-- The segments on the way to the root, the last first.
pub collect_loop : ℕ → PathId → PathStore → Option (List PathSegment)
collect_loop zero current st = none
collect_loop (suc fuel) current st =
    let rest = node current st >>= λ n. segment current st >>= λ s.
    local_parent n.parent >>= λ next. collect_loop fuel next st >>= λ ss. some (s ∷ ss) in
    if is_empty current then some [] else rest

pub collect_segments : PathId → PathStore → Option (List PathSegment)
collect_segments id st = do
  current ← local_id id st
  segments ← collect_loop (suc (length st.nodes)) current st
  some (reverse segments)

abbrev pub first_index : PathId → PathStore → Option ℕ
first_index id st = do s ← first_segment_of id st; elim s [ index i ↦ some i | property _ ↦ none ]

-- The segments on the way up to the child of the root, that of the child not among them.
pub rest_loop : ℕ → PathId → PathStore → Option (List PathSegment)
rest_loop zero current st = none
rest_loop (suc fuel) current st = node current st >>= λ n.
    let rest = segment current st >>= λ s.
    local_parent n.parent >>= λ next. rest_loop fuel next st >>= λ ss. some (s ∷ ss) in
    if is_empty (parent_id n.parent) then some [] else rest

pub find_all : List PathSegment → PathId → PathStore → Option PathId
find_all [] result st = some result
find_all (s ∷ ss) result st = do next ← find_edge result s st; find_all ss next st

pub rebuild_without_first : PathId → PathStore → Option PathId
rebuild_without_first id st = do
  current ← local_id id st
  segments ← rest_loop (suc (length st.nodes)) current st
  find_all (reverse segments) empty st

pub without_first : PathId → PathStore → Option PathId
without_first id st = do s ← segment id st; rebuild_without_first id st

abbrev pub and_append :
    PathStore × Option PathId
    → (PathId → PathStore → PathStore × Option PathId)
    → PathStore × Option PathId
and_append (st, none) next = (st, none)
and_append (st, some id) next = next id st

pub append_all : List PathSegment → PathId → PathStore → PathStore × Option PathId
append_all [] result st = (st, some result)
append_all (s ∷ ss) result st = and_append (append result s st) (append_all ss)

-- What `concat` appends, and to what.
pub concat_parts : PathId → PathId → PathStore → Option (List PathSegment × PathId)
concat_parts prefix suffix st = do
  segments ← collect_segments suffix st
  result ← local_id prefix st
  some (segments, result)

pub concat : PathId → PathId → PathStore → PathStore × Option PathId
concat prefix suffix st = elim (concat_parts prefix suffix st) [
  | none ↦ (st, none)
  | some (segments, result) ↦ append_all segments result st
]
