-- ===== src/Lib.antt =====
-- glass-lint: data structures, rule configuration and the state of the flow analysis, with their
-- correctness.
--
-- The program lints JavaScript and TypeScript by rules over a semantic model. This library models
-- the parts that the analysis and its configuration stand on, and the state that the projector of
-- object flows keeps while it walks the facts of a file:
--
-- * Budget (glass-lint-datastructures/src/budget.rs): the counters that bound every phase. A sequence
--   of requests is `try_all`.
-- * Fifo (glass-lint-datastructures/src/fifo.rs): the bounded queue of work items. `run` is a client's
--   sequence of calls; `seen` is the `BTreeSet`, as the list of its items.
-- * History (glass-lint-datastructures/src/history.rs): deltas with links to their parents. The
--   callback `apply` of `transition` is a parameter, with the law that `undo` inverts `redo`.
-- * Table (glass-lint-datastructures/src/table.rs): the sparse table by dense identifiers. The trait
--   `IdIndex` is an interface with its documented laws, which clients fill by an instance. A mutable
--   borrow of `get_disjoint` is the slots that a write through it leaves.
-- * Path, Path/View and Path/Symbol (glass-lint-datastructures/src/path): paths of segments, their
--   views, and their dotted text.
-- * Name (glass-lint-datastructures/src/name.rs): the interner of names. It uses the paths: a path of
--   names is looked up as a path of identifiers. `intern_all` interns a sequence of names.
-- * PathTrie and PathTrie/Store (glass-lint-datastructures/src/path_trie): interned paths as a trie
--   with parent links; `by_edge` is an association list, the latest insertion first.
-- * Diagnostic (glass-lint-datastructures/src/diagnostic.rs): byte ranges, positions, source ranges.
-- * Limits (glass-lint-core/src/limits.rs): validated limits, their builders and deserialization.
-- * RuleId (glass-lint-core/src/rule_id.rs): identifiers of rules.
-- * Selection and Selection/Pattern (glass-lint-core/src/lint/selection.rs,
--   glass-lint-core/src/api/rule/taxonomy.rs): selectors with wildcards, overrides, and the resolution
--   of a selection against a catalog. It uses RuleId for selectors without a wildcard.
-- * Catalog (glass-lint-core/src/lint/catalog.rs): the combination of catalogs of rules.
-- * Evidence (glass-lint-core/src/api/classification.rs): evidence of matches and its table by rule.
-- * Flow (glass-lint-core/src/analysis/model/flow.rs): the evidence of the requirements and sinks of a
--   flow, under a bit mask of its indices; Flow/State (model/flow/state.rs): the state of one flow for
--   one object; Flow/Limits (model/flow/limits.rs): the limits of a flow scope.
-- * Value (glass-lint-core/src/analysis/model): static properties (static_properties.rs), binding keys
--   (scope.rs) and abstract values; Value/Arena (value.rs): their arena, which is bounded. Values are
--   compared by a code of their constructor and fields (Value/Equal), as the derived equality does.
-- * Projector (glass-lint-core/src/analysis/flow/projector): the state of the projector. Its
--   modules are Aliases (state/tables/aliases.rs), the aliases with their reference counts; Log
--   (history.rs, and `InverseDelta::apply` of state.rs), the bounded log of mutations, over
--   History; Tables (state/tables.rs), the live tables, each mutation of which goes into the log;
--   Control (state.rs), the stack of open control constructs, with environments captured from the
--   tables; and Emission (state.rs), the bounded sink of evidence over Evidence. Tables/Runs has
--   any sequence of operations on the tables as a relation, and Aliases/Runs those on the aliases;
--   Tables/Snapshot is the canonical shape of the tables, by which the fixed points of loops are
--   compared.
--
-- A `BTreeMap` or `BTreeSet` is a sorted list (Prelude/Sorted) over an interface of strict orders
-- (Prelude/Order), whose instances are the derived orders of the keys. `binary_search` is a linear
-- scan with the answer that the documentation of the library promises for a sorted slice. A `u64`
-- used as a mask is the function to its bits (Prelude/Words). The two wrappers of `BoundedIndex`
-- are their number, which the constructors keep below 64. `record` of the log drops a delta where
-- `History.record_delta` would panic, which a valid history never does.
--
-- State is passed explicitly: a method on `&mut self` is a function that returns the new state with its
-- result. `Option` and `Result` are values; a panic is `none`. Numbers are natural numbers, and the
-- bounds of `u32` and of a `usize` of 64 bits are written out where the code can meet them. Text is the
-- list of its code points; positions in rule ids count characters, which are bytes there because valid
-- selectors and ids are ASCII.
--
-- Loops are recursion on their list, or recursion on fuel where they follow links. The loops of History
-- and PathTrie have one more step of fuel than there are nodes; links lead to earlier nodes in a valid
-- state, so that no walk is longer.
--
-- Not modelled: the messages of errors and the glue of serde; iterators that lend slots mutably;
-- the driver of the projector, which reads facts; the rest of the semantic analysis (facts, scopes,
-- resolution, summaries, matching, linking), the rule compiler, the project loader, the command
-- line, the harness, and the declarations of the rules.
pub mod Prelude
pub mod Budget
pub mod Fifo
pub mod Flow
pub mod History
pub mod Table
pub mod Path
pub mod Name
pub mod PathTrie
pub mod Limits
pub mod Diagnostic
pub mod Projector
pub mod RuleId
pub mod Selection
pub mod Catalog
pub mod Evidence
pub mod Value
