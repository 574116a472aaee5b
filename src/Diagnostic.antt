-- ===== src/Diagnostic.antt =====
-- glass-lint-datastructures/src/diagnostic.rs: ranges of bytes and of positions in a source.
mod Ranges
use glass_lint.Prelude.{
  ℕ, ◌-◌, Bool, ◌&&◌, ◌||◌, ltb, leb, nat_beq, if◌then◌else◌, Result, ok, err, and_then,
}

pub record ByteRange : Type 0 where
  pub start : ℕ
  pub end : ℕ

pub data ReversedByteRange : Type 0 where
  reversed_byte_range : ReversedByteRange

-- `ByteRange::new`, also what its deserialization ends with.
pub new_bytes : ℕ → ℕ → Result ByteRange ReversedByteRange
new_bytes start end =
    if leb start end then ok (record { start = start; end = end }) else err reversed_byte_range

abbrev pub empty : ByteRange
empty = record { start = 0; end = 0 }

-- The difference does not underflow where the range is not reversed.
abbrev pub len : ByteRange → ℕ
len r = r.end - r.start

abbrev pub is_empty : ByteRange → Bool
is_empty r = nat_beq r.start r.end

pub data InvalidPosition : Type 0 where
  zero_line : InvalidPosition
  zero_column : InvalidPosition

pub record Position : Type 0 where
  pub line : ℕ
  pub column : ℕ

abbrev pub new_position : ℕ → ℕ → Result Position InvalidPosition
new_position line column =
    if nat_beq line 0
    then err zero_line
    else if nat_beq column 0
    then err zero_column
    else ok (record { line = line; column = column })

-- The derived `PartialOrd`: by line, then by column.
abbrev pub position_leb : Position → Position → Bool
position_leb a b = ltb a.line b.line || nat_beq a.line b.line && leb a.column b.column

pub record SourceRange : Type 0 where
  pub start : Position
  pub end : Position

pub data ReversedSourcePositionRange : Type 0 where
  reversed_source_position_range : ReversedSourcePositionRange

abbrev pub new_range : Position → Position → Result SourceRange ReversedSourcePositionRange
new_range start end =
    if position_leb start end
    then ok (record { start = start; end = end })
    else err reversed_source_position_range

pub contains : SourceRange → SourceRange → Bool
contains self inner = position_leb self.start inner.start && position_leb inner.end self.end
