-- ===== src/Utils/ColonFile/Lines.antt =====
-- The chunks that `ReadLine` gives, against the lines of a text.
use host_scanner.Prelude.{
  ℕ, zero, suc, ◌<◌, ◌≤◌, ◌≡◌, ◌≢◌, refl, sym, ap, subst, ◌∙◌, Bool, true, false, some, List, [],
  ◌∷◌, map, length, All, arith, ◌==◌, if◌then◌else◌,
}
use host_scanner.Prelude.Bytes.{Bytes}
use host_scanner.Utils.ColonFile.{
  Chunk, SliceEnd, line_feed, ended, slice, strip_cr, line_of, read_line, chunks,
}

-- A line without its line feed, and whether a line feed ends it.
abbrev pub RawLine : Type 0
RawLine = Bytes × Bool

abbrev extend : ℕ → List RawLine → List RawLine
extend c [] = (c ∷ [], false) ∷ []
extend c ((l, t) ∷ rest) = (c ∷ l, t) ∷ rest

-- The lines of a text, with no bound on their lengths.
unfoldable pub raw_lines : Bytes → List RawLine
raw_lines [] = []
raw_lines (c ∷ s) =
    let rest = raw_lines s in if c == b'\n' then ([], true) ∷ rest else extend c rest

-- A line feed takes a carriage return before it along.
unfoldable pub line_text : RawLine → Bytes
unfolding strip_cr
line_text (l, t) = if t then strip_cr l else l

unfoldable pub lines : Bytes → List Bytes
unfolding raw_lines line_text
lines s = map line_text (raw_lines s)

abbrev pub IsShort : ℕ → RawLine → Type 0
IsShort size (l, t) = length l < size

abbrev end_of : Bool → SliceEnd
end_of true = line_feed
end_of false = ended

-- The first line, the bytes behind it, and whether a line feed ends it.
first : Bytes → Bytes × Bytes × Bool
first [] = ([], [], false)
first (c ∷ s) = let (l, r, t) = first s in if c == b'\n' then ([], s, true) else (c ∷ l, r, t)

raw_lines-first :
    (c : ℕ) (s : Bytes)
    → raw_lines (c ∷ s) ≡ ((first (c ∷ s)).0, (first (c ∷ s)).2) ∷ raw_lines (first (c ∷ s)).1
unfolding raw_lines first
raw_lines-first c [] = ground arith
raw_lines-first c (d ∷ s) = ground (arith, raw_lines-first d s)

-- With room for the line, the slice is the line.
slice-first :
    (size : ℕ) (s : Bytes)
    → length (first s).0 < size
    → slice size s ≡ ((first s).0, (first s).1, end_of (first s).2)
unfolding slice first
slice-first zero s h = absurd (omega arith)
slice-first (suc size) [] h = refl
slice-first (suc size) (c ∷ s) h = ground (arith, slice-first size s)

first_shorter : (c : ℕ) (s : Bytes) → length (first (c ∷ s)).1 ≤ length s
unfolding first
first_shorter c [] = ground arith
first_shorter c (d ∷ s) = ground (arith, first_shorter d s)

-- A line that no line feed ends is not empty.
first_unended : (c : ℕ) (s : Bytes) → (first (c ∷ s)).2 ≡ false → (first (c ∷ s)).0 ≢ []
unfolding first
first_unended c s h = ground arith

line_of_short :
    (l r : Bytes) (t : Bool)
    → (t ≡ false → l ≢ [])
    → line_of l r (end_of t) ≡ some ((line_text (l, t), false), r)
unfolding line_of line_text
line_of_short l r true h = refl
line_of_short [] r false h = absurd (h refl refl)
line_of_short (c ∷ l) r false h = refl

read_line_short :
    (size c : ℕ) (s : Bytes)
    → length (first (c ∷ s)).0 < size
    → read_line size (c ∷ s)
      ≡ some ((line_text ((first (c ∷ s)).0, (first (c ∷ s)).2), false), (first (c ∷ s)).1)
unfolding read_line
read_line_short size c s h =
    rw (slice-first size (c ∷ s) h) (line_of_short _ _ _ (first_unended c s))

abbrev pub whole_chunk : RawLine → Chunk
whole_chunk l = (line_text l, false)

chunks-nil : (size fuel : ℕ) → 0 < size → chunks size fuel [] ≡ []
unfolding chunks read_line line_of slice
chunks-nil size zero p = refl
chunks-nil zero (suc fuel) p = elim p [ ]
chunks-nil (suc size) (suc fuel) p = refl

chunks-some :
    (size fuel : ℕ) (s r : Bytes) (c : Chunk)
    → read_line size s ≡ some (c, r)
    → chunks size (suc fuel) s ≡ c ∷ chunks size fuel r
unfolding chunks
chunks-some size fuel s r c e = rw (e, chunks)

-- Enough fuel gives all lines, if the buffer has room for each.
pub chunks_fuel :
    (size fuel : ℕ) (s : Bytes)
    → 0 < size
    → length s < fuel
    → All (IsShort size) (raw_lines s)
    → chunks size fuel s ≡ map whole_chunk (raw_lines s)
unfolding raw_lines
chunks_fuel size zero s p h a = absurd (omega arith)
chunks_fuel size (suc fuel) [] p h a = chunks-nil size (suc fuel) p
chunks_fuel size (suc fuel) (c ∷ s) p h a =
    let a' = subst (All (IsShort size)) (raw_lines-first c s) a in
    chunks-some size fuel (c ∷ s) _ _ (read_line_short size c s a'.0)
    ∙ ap (λ cs. whole_chunk ((first (c ∷ s)).0, (first (c ∷ s)).2) ∷ cs)
        (chunks_fuel size fuel (first (c ∷ s)).1 p (omega (arith, first_shorter c s)) a'.1)
    ∙ ap (map whole_chunk) (sym (raw_lines-first c s))
