-- ===== src/Path/Symbol/RoundTrip.antt =====
-- Dotted text and paths of names determine one another.
use glass_lint.Prelude.{
  ◌≡◌, ◌≢◌, ◌↔◌, refl, sym, ap, subst, ◌∙◌, true, false, List, [], ◌∷◌, ◌++◌, map,
}
use glass_lint.Prelude.{Text, split, join, trim, filter_nonempty, is_empty, All, arith}
use glass_lint.Prelude.{trim_start, list_eq, nat_eq, list_beq_iff, Bool-cases, inl, inr}
use glass_lint.Path.Symbol.{SymbolPath, dot, from_chain, display, eq_chain, append_chain, strip_dot}
use glass_lint.Path.Symbol.Split.{IsFree, split-join, join-split, split-ne-nil, split-All}
use glass_lint.Path.Symbol.Trim.{trim-trim, All-trim}

-- A segment as `from_chain` makes it: not empty, without a dot, without white space at its ends.
pub record IsClean (segment : Text) : Type 0 where
  pub filled : is_empty segment ≡ false
  pub undotted : IsFree dot segment
  pub trimmed : trim segment ≡ segment

filter_map-trim :
    (parts : List Text) → All (IsFree dot) parts → All IsClean (filter_nonempty (map trim parts))
unfolding filter_nonempty
filter_map-trim [] a = tt
filter_map-trim (part ∷ parts) (free, a) = elim (Bool-cases (is_empty (trim part))) [
  | inl blank ↦ rw blank (filter_map-trim parts a)
  | inr kept ↦ rw kept (
    record {
      filled = kept;
      undotted = All-trim (λ c. c ≢ dot) part free;
      trimmed = trim-trim part;
    },
    filter_map-trim parts a,
  )
]

-- Every segment that `from_chain` makes is clean.
pub from_chain-IsClean : (chain : Text) → All IsClean (from_chain chain)
unfolding from_chain
from_chain-IsClean chain = filter_map-trim (split dot chain) (split-All dot chain)

clean_kept : (path : SymbolPath) → All IsClean path → filter_nonempty (map trim path) ≡ path
unfolding filter_nonempty
clean_kept [] a = refl
clean_kept (part ∷ parts) (clean, a) = rw clean.trimmed (rw clean.filled (rw (clean_kept parts a)))

clean_kept_untrimmed : (path : SymbolPath) → All IsClean path → filter_nonempty path ≡ path
unfolding filter_nonempty
clean_kept_untrimmed [] a = refl
clean_kept_untrimmed (part ∷ parts) (clean, a) = rw clean.filled (rw (clean_kept_untrimmed parts a))

clean-IsFree : (path : SymbolPath) → All IsClean path → All (IsFree dot) path
clean-IsFree [] a = tt
clean-IsFree (part ∷ parts) (clean, a) = (clean.undotted, clean-IsFree parts a)

-- A path of clean segments is read back from its dotted text.
pub from_chain-display : (path : SymbolPath) → All IsClean path → from_chain (display path) ≡ path
unfolding from_chain display
from_chain-display [] a = unfold join split filter_nonempty trim trim_start in refl
from_chain-display (part ∷ parts) a =
    ap (λ l. filter_nonempty (map trim l))
      (split-join dot part parts (clean-IsFree (part ∷ parts) a))
    ∙ clean_kept (part ∷ parts) a

-- Reading a text, printing and reading again gives what the first reading gave.
from_chain-display-from_chain :
    (chain : Text) → from_chain (display (from_chain chain)) ≡ from_chain chain
from_chain-display-from_chain chain =
    from_chain-display (from_chain chain) (from_chain-IsClean chain)

-- `eq_chain` holds exactly when the path has a segment, no segment has a dot, and the chain is the
-- dotted text of the path.
eq_chain_iff :
    (chain : Text) (path : SymbolPath)
    → (eq_chain chain path ≡ true) ↔ ((path ≢ []) × All (IsFree dot) path × (display path ≡ chain))
unfolding eq_chain display
eq_chain_iff chain path = (
  λ h.
      let same = (list_beq_iff path (split dot chain)).0 h in
      (
        λ nil. split-ne-nil dot chain (sym same ∙ nil),
        subst (All (IsFree dot)) (sym same) (split-All dot chain),
        ap (join dot) same ∙ join-split dot chain,
      ),
  λ (filled, free, shown).
      (list_beq_iff path (split dot chain)).1 (sym (again path filled free) ∙ ap (split dot) shown),
)
  where
    again :
        (path : SymbolPath) → path ≢ [] → All (IsFree dot) path → split dot (join dot path) ≡ path
    again [] h a = absurd (h refl)
    again (part ∷ parts) h a = split-join dot part parts a

strip_dot-display : (path : SymbolPath) → All IsClean path → strip_dot (display path) ≡ display path
unfolding strip_dot display join
strip_dot-display [] a = refl
strip_dot-display ([] ∷ parts) (clean, a) = cc clean.filled
strip_dot-display ((c ∷ cs) ∷ []) (clean, a) = let other = clean.undotted.0 in ground arith
strip_dot-display ((c ∷ cs) ∷ next ∷ parts) (clean, a) =
    let other = clean.undotted.0 in ground arith

strip_dot-dot : (cs : Text) → strip_dot (dot ∷ cs) ≡ cs
unfolding strip_dot
strip_dot-dot cs = refl

split-display :
    (path : SymbolPath) → All IsClean path → filter_nonempty (split dot (display path)) ≡ path
unfolding display
split-display [] a = unfold join split filter_nonempty in refl
split-display (part ∷ parts) a =
    ap filter_nonempty (split-join dot part parts (clean-IsFree (part ∷ parts) a))
    ∙ clean_kept_untrimmed (part ∷ parts) a

-- Appending the dotted text of a path of clean segments, with or without a dot before it, appends
-- the segments.
append_chain-display :
    (path suffix : SymbolPath)
    → All IsClean suffix
    → (append_chain (display suffix) path ≡ path ++ suffix)
      × (append_chain (dot ∷ display suffix) path ≡ path ++ suffix)
unfolding append_chain
append_chain-display path suffix a = (
  ap (λ l. path ++ filter_nonempty (split dot l)) (strip_dot-display suffix a)
      ∙ ap (λ l. path ++ l) (split-display suffix a),
  ap (λ l. path ++ filter_nonempty (split dot l)) (strip_dot-dot (display suffix))
      ∙ ap (λ l. path ++ l) (split-display suffix a),
)
