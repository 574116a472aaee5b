-- ===== src/History.antt =====
-- glass-lint-datastructures/src/history.rs: the parent-linked history.
-- A cursor is the number of an entry, counted from one; zero is the root. An index out of range
-- panics in the code and is `none` here, and so is a loop that outruns its fuel.
mod Tests
mod Lineage
mod Loops
pub mod Record
pub mod Transition
use glass_lint.Prelude.{
  ℕ, zero, suc, ◌+◌, Bool, true, false, Option, none, some, List, [], ◌∷◌, ◌++◌,
}
use glass_lint.Prelude.{◌>>=◌, reverse, length, get_elem?, ltb, nat_beq, if◌then◌else◌}

abbrev pub HistoryCursor : Type 0
HistoryCursor = ℕ

pub data HistoryTransition : Type 0 where
  undo redo : HistoryTransition

pub record HistoryEntry (D : Type 0) : Type 0 where
  pub parent : HistoryCursor
  pub depth : ℕ
  pub delta : D

pub record ParentLinkedHistory (D : Type 0) : Type 0 where
  pub entries : List (HistoryEntry D)
  pub cursor : HistoryCursor

module _ {D : Type 0} where
  unfoldable pub new : ParentLinkedHistory D
  new = record { entries = []; cursor = 0 }

  abbrev pub checkpoint : ParentLinkedHistory D → HistoryCursor
  checkpoint h = h.cursor

  abbrev pub len : ParentLinkedHistory D → ℕ
  len h = length h.entries

  -- `self.depth(cursor)` and `self.parent(cursor)`.
  pub depth : List (HistoryEntry D) → HistoryCursor → Option ℕ
  depth entries zero = some 0
  depth entries (suc i) = get_elem? entries i >>= λ e. some e.depth

  pub parent : List (HistoryEntry D) → HistoryCursor → Option HistoryCursor
  parent entries zero = some 0
  parent entries (suc i) = get_elem? entries i >>= λ e. some e.parent

  pub record_delta : D → ParentLinkedHistory D → Option (ParentLinkedHistory D)
  unfolding depth
  record_delta delta h = do
    d ← depth h.entries h.cursor
    let entries = h.entries ++ record { parent = h.cursor; depth = d + 1; delta = delta } ∷ []
    some (record { entries = entries; cursor = length entries })

  -- `while depth(cursor) > goal { cursor = parent(cursor) }`
  pub climb : ℕ → List (HistoryEntry D) → ℕ → HistoryCursor → Option HistoryCursor
  climb zero entries goal c = none
  climb (suc fuel) entries goal c =
      let rest = parent entries c >>= climb fuel entries goal in
      depth entries c >>= λ d. if ltb goal d then rest else some c

  -- `while source != destination { … }`
  pub meet : ℕ → List (HistoryEntry D) → HistoryCursor → HistoryCursor → Option HistoryCursor
  meet zero entries source destination = none
  meet (suc fuel) entries source destination =
      let rest =
        parent entries source >>= λ s. parent entries destination >>= λ t. meet fuel entries s t in
      if nat_beq source destination then some source else rest

  -- The three loops that find where the walks of the cursor and of the target join. Entries link
  -- backwards, so no walk is longer than the number of entries.
  pub common_ancestor : HistoryCursor → ParentLinkedHistory D → Option HistoryCursor
  common_ancestor target h = do
    let fuel = suc (length h.entries)
    target_depth ← depth h.entries target
    source ← climb fuel h.entries target_depth h.cursor
    source_depth ← depth h.entries source
    destination ← climb fuel h.entries source_depth target
    meet fuel h.entries source destination

  -- The second `while current != lca`: the entries from `current` up to `lca`.
  pub forward : ℕ → List (HistoryEntry D) → HistoryCursor → HistoryCursor → Option (List ℕ)
  forward zero entries lca current = none
  forward (suc fuel) entries lca zero = if nat_beq zero lca then some [] else none
  forward (suc fuel) entries lca (suc i) =
      let rest = get_elem? entries i >>= λ e.
      forward fuel entries lca e.parent >>= λ tail. some (i ∷ tail) in
      if nat_beq (suc i) lca then some [] else rest

  module _ {S : Type 0} (apply : HistoryTransition → D → S → S) where
    -- The first `while current != lca`: undo the delta of each entry on the way up.
    pub undo_loop : ℕ → List (HistoryEntry D) → HistoryCursor → HistoryCursor → S → Option S
    undo_loop zero entries lca current s = none
    undo_loop (suc fuel) entries lca zero s = if nat_beq zero lca then some s else none
    undo_loop (suc fuel) entries lca (suc i) s =
        let rest =
          get_elem? entries i >>= λ e. undo_loop fuel entries lca e.parent (apply undo e.delta s) in
        if nat_beq (suc i) lca then some s else rest

    pub redo_all : List (HistoryEntry D) → List ℕ → S → Option S
    redo_all entries [] s = some s
    redo_all entries (i ∷ is) s =
        get_elem? entries i >>= λ e. redo_all entries is (apply redo e.delta s)

    -- The body of `transition` behind its range check.
    pub move_to :
        HistoryCursor → ParentLinkedHistory D → S → Option (Bool × ParentLinkedHistory D × S)
    move_to target h s = do
      let fuel = suc (length h.entries)
      lca ← common_ancestor target h
      undone ← undo_loop fuel h.entries lca h.cursor s
      indexes ← forward fuel h.entries lca target
      redone ← redo_all h.entries (reverse indexes) undone
      some (true, record h { cursor = target }, redone)

    pub transition :
        HistoryCursor → ParentLinkedHistory D → S → Option (Bool × ParentLinkedHistory D × S)
    transition target h s =
        if ltb (length h.entries) target then some (false, h, s) else move_to target h s
