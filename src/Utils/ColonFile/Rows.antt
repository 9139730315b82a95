-- ===== src/Utils/ColonFile/Rows.antt =====
-- `readColonFile` against a reading of the file line by line.
use host_scanner.Prelude.{
  ℕ, suc, ◌≡◌, refl, ap, ◌∙◌, Bool, false, Option, none, some, List, [], ◌∷◌, ◌++◌, map, length,
  All, arith, if◌then◌else◌,
}
use host_scanner.Prelude.Bytes.{Bytes}
use host_scanner.Prelude.Bytes.Space.{trim_space}
use host_scanner.GoError.{GoError, Result, ok, err}
use host_scanner.Utils.ColonFile.{
  Chunk, LineFunc, Mode, gather, skip, Step, return_, go, is_passed_over, at_end, after_row, row,
  step, resume, read_chunks, chunks, buffer_size, read_colon_file,
}
use host_scanner.Utils.ColonFile.Lines.{
  RawLine, raw_lines, line_text, lines, IsShort, whole_chunk, chunks_fuel,
}

-- The rows of a file: its lines trimmed, without the blank ones and the comments.
unfoldable pub rows : List Bytes → List Bytes
rows [] = []
rows (l ∷ ls) = if is_passed_over (trim_space l) then rows ls else trim_space l ∷ rows ls

module _ {A : Type 0} (fn : LineFunc A) where
  -- The first row on which `fn` returns a value or an error decides.
  unfoldable pub first_answer : GoError → List Bytes → Result (Option A)
  first_answer end [] = at_end end
  first_answer end (w ∷ ws) = elim (fn w) [
    | err e ↦ err e
    | ok (some v) ↦ ok (some v)
    | ok none ↦ first_answer end ws
  ]

  read_chunks_short :
      (n : ℕ) (end : GoError) (ls : List RawLine)
      → read_chunks fn n end (map whole_chunk ls) (gather [])
        ≡ first_answer end (rows (map line_text ls))
  unfolding read_chunks step row after_row first_answer rows
  read_chunks_short n end [] = refl
  read_chunks_short n end (l ∷ ls) = ground (arith, read_chunks_short n end ls)

  -- If every line of the file is shorter than the buffer, `readColonFile` gives the answer of the
  -- first trimmed row, blank lines and comments passed over, on which the function returns a value
  -- or an error, and at the end nothing, or the error of the read.
  pub read_colon_file-rows :
      (content : Bytes) (end : GoError) (n : ℕ)
      → All (IsShort buffer_size) (raw_lines content)
      → read_colon_file content end fn n ≡ first_answer end (rows (lines content))
  unfolding lines
  read_colon_file-rows content end n short =
      unfold read_colon_file in
      (ap (λ cs. read_chunks fn n end cs (gather []))
          (chunks_fuel buffer_size (suc (length content)) content (omega arith) (omega arith) short)
        ∙ read_chunks_short n end (raw_lines content))

  -- `w` is a row that `fn` turns into `v`.
  abbrev pub IsHit : A → Bytes → Type 0
  IsHit v w = (fn w ≡ ok (some v)) × (is_passed_over w ≡ false) × ((l : Bytes) × (w ≡ trim_space l))

  row-IsHit :
      (whole : Bytes) (p : Bool) (v : A)
      → row fn (trim_space whole) p ≡ return_ (ok (some v))
      → IsHit v (trim_space whole)
  unfolding row after_row
  row-IsHit whole p v h = (ground arith, ground arith, (whole, refl))

  step-IsHit :
      (n : ℕ) (c : Chunk) (m : Mode) (v : A)
      → step fn n c m ≡ return_ (ok (some v))
      → (w : Bytes) × IsHit v w
  unfolding step
  step-IsHit n (l, p) skip v h = absurd (cc)
  step-IsHit n (l, p) (gather whole) v h =
      (trim_space (whole ++ l), row-IsHit (whole ++ l) p v (ground arith))

  read_chunks-IsHit :
      (n : ℕ) (end : GoError) (cs : List Chunk) (m : Mode) (v : A)
      → read_chunks fn n end cs m ≡ ok (some v)
      → (w : Bytes) × IsHit v w
  unfolding read_chunks at_end
  read_chunks-IsHit n end [] m v h = absurd (ground arith)
  read_chunks-IsHit n end (c ∷ cs) m v h =
      split (step fn n c m) refl h (λ m'. read_chunks-IsHit n end cs m' v)
    where
      split :
          (s : Step A)
          → step fn n c m ≡ s
          → resume s (λ m'. read_chunks fn n end cs m') ≡ ok (some v)
          → ((m' : Mode) → read_chunks fn n end cs m' ≡ ok (some v) → (w : Bytes) × IsHit v w)
          → (w : Bytes) × IsHit v w
      split (return_ r) e h rec = step-IsHit n c m v (e ∙ ap return_ h)
      split (go m') e h rec = rec m' h

  -- Whatever the lengths of the lines, a value that is returned is the answer of the function on
  -- some trimmed text that is neither blank nor a comment.
  pub read_colon_file-IsHit :
      (content : Bytes) (end : GoError) (n : ℕ) (v : A)
      → read_colon_file content end fn n ≡ ok (some v)
      → (w : Bytes) × IsHit v w
  read_colon_file-IsHit content end n v h =
      read_chunks-IsHit n end (chunks buffer_size (suc (length content)) content) (gather []) v
        (unfold read_colon_file in h)
