-- ===== src/PathTrie.antt =====
-- glass-lint-datastructures/src/path_trie: interned property paths as a trie with parent links.
-- `types.rs` here, `store.rs` in `Store`.
pub mod Store
use glass_lint.Prelude.{ℕ, ◌^◌, Bool, true, false, ◌≡◌, ◌↔◌, ◌&&◌, arith, Option, nat_beq, Eq}

abbrev pub default_max_path_nodes : ℕ
default_max_path_nodes = 2 ^ 20

pub record PathId : Type 0 where
  pub index : ℕ
  pub owner : ℕ

abbrev pub empty : PathId
empty = record { index = 0; owner = 0 }

pub for_store : ℕ → ℕ → PathId
for_store index owner = record { index = index; owner = owner }

pub data PathSegment : Type 0 where
  property : ℕ → PathSegment
  index : ℕ → PathSegment

pub record PathLink : Type 0 where
  pub path : PathId
  pub depth : ℕ

pub data ParentRef : Type 0 where
  local : PathId → ParentRef
  linked : PathLink → ParentRef

pub record PathNode : Type 0 where
  pub parent : ParentRef
  pub depth : ℕ
  pub segment : Option PathSegment

-- The derived `PartialEq` of each type.
abbrev pub id_beq : PathId → PathId → Bool
id_beq a b = nat_beq a.index b.index && nat_beq a.owner b.owner

abbrev pub segment_beq : PathSegment → PathSegment → Bool
segment_beq (property a) (property b) = nat_beq a b
segment_beq (property a) (index b) = false
segment_beq (index a) (property b) = false
segment_beq (index a) (index b) = nat_beq a b

abbrev pub link_beq : PathLink → PathLink → Bool
link_beq a b = id_beq a.path b.path && nat_beq a.depth b.depth

abbrev pub parent_beq : ParentRef → ParentRef → Bool
parent_beq (local a) (local b) = id_beq a b
parent_beq (local a) (linked b) = false
parent_beq (linked a) (local b) = false
parent_beq (linked a) (linked b) = link_beq a b

pub id_beq_iff : (a b : PathId) → (id_beq a b ≡ true) ↔ (a ≡ b)
id_beq_iff a b = ground arith

pub segment_beq_iff : (a b : PathSegment) → (segment_beq a b ≡ true) ↔ (a ≡ b)
segment_beq_iff (property a) (property b) = ground arith
segment_beq_iff (property a) (index b) = ground arith
segment_beq_iff (index a) (property b) = ground arith
segment_beq_iff (index a) (index b) = ground arith

pub link_beq_iff : (a b : PathLink) → (link_beq a b ≡ true) ↔ (a ≡ b)
link_beq_iff a b = ground arith

pub parent_beq_iff : (a b : ParentRef) → (parent_beq a b ≡ true) ↔ (a ≡ b)
parent_beq_iff (local a) (local b) = ground arith
parent_beq_iff (local a) (linked b) = ground arith
parent_beq_iff (linked a) (local b) = ground arith
parent_beq_iff (linked a) (linked b) = ground arith

instance abbrev pub id_eq : Eq PathId
id_eq = record { eq = id_beq; eq_iff = id_beq_iff }

instance abbrev pub segment_eq : Eq PathSegment
segment_eq = record { eq = segment_beq; eq_iff = segment_beq_iff }

instance abbrev pub parent_eq : Eq ParentRef
parent_eq = record { eq = parent_beq; eq_iff = parent_beq_iff }
