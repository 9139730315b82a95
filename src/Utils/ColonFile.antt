-- ===== src/Utils/ColonFile.antt =====
-- `readColonFile` of sensor/internal/utils/osuserswrapper.go, over the chunks of lines that
-- `bufio.Reader.ReadLine` gives.
mod Tests
pub mod Lines
pub mod Rows
pub mod Fuel
pub mod Comments
use host_scanner.Prelude.{
  ℕ, zero, suc, Bool, true, false, not, ◌&&◌, ◌||◌, Option, none, some, List, [], ◌∷◌, ◌++◌, length,
  ◌==◌, leb, if◌then◌else◌,
}
use host_scanner.Prelude.Bytes.{Bytes, codes, count}
use host_scanner.Prelude.Bytes.Space.{trim_space}
use host_scanner.GoError.{GoError, is_eof, Result, ok, err}

abbrev pub colon : ℕ
colon = b':'

-- What `ReadLine` returns with no error: `line` and `isPrefix`.
abbrev pub Chunk : Type 0
Chunk = Bytes × Bool

-- How a slice of the buffer ends: at a line feed, with the buffer full, or at the end of the file.
pub data SliceEnd : Type 0 where
  line_feed full ended : SliceEnd

-- `ReadSlice('\n')` with room for that many bytes: the line without its line feed, the bytes
-- behind it, and how it ended.
slice : ℕ → Bytes → Bytes × Bytes × SliceEnd
slice zero s = ([], s, full)
slice (suc room) [] = ([], [], ended)
slice (suc room) (c ∷ s) =
    let (l, r, e) = slice room s in if c == b'\n' then ([], s, line_feed) else (c ∷ l, r, e)

-- Whether a line ends in a carriage return, and the line without it.
pub ends_in_cr : Bytes → Bool
ends_in_cr [] = false
ends_in_cr (c ∷ []) = c == b'\r'
ends_in_cr (c ∷ d ∷ s) = ends_in_cr (d ∷ s)

init : Bytes → Bytes
init [] = []
init (c ∷ []) = []
init (c ∷ d ∷ s) = c ∷ init (d ∷ s)

strip_cr : Bytes → Bytes
unfolding ends_in_cr init
strip_cr l = if ends_in_cr l then init l else l

-- The outcome of `ReadLine` from that of `ReadSlice`. A carriage return at the end of a full
-- buffer is put back.
line_of : Bytes → Bytes → SliceEnd → Option (Chunk × Bytes)
line_of l r line_feed = some ((strip_cr l, false), r)
line_of l r full = if ends_in_cr l then some ((init l, true), b'\r' ∷ r) else some ((l, true), r)
line_of [] r ended = none
line_of (c ∷ l) r ended = some ((c ∷ l, false), r)

-- One `ReadLine` with a buffer of `size` bytes: the chunk and the bytes behind it, `none` at the
-- end of the file.
read_line : ℕ → Bytes → Option (Chunk × Bytes)
read_line size s = let (l, r, e) = slice size s in line_of l r e

-- All that `ReadLine` gives, call by call. A call takes a byte at least.
pub chunks : ℕ → ℕ → Bytes → List Chunk
chunks size zero s = []
chunks size (suc fuel) s = elim (read_line size s) [
  | none ↦ []
  | some (chunk, r) ↦ chunk ∷ chunks size fuel r
]

-- `lineFunc`: nil without an error is `ok none`.
abbrev pub LineFunc : Type 0 → Type 0
LineFunc A = Bytes → Result (Option A)

-- A blank line or a comment.
unfoldable pub is_passed_over : Bytes → Bool
is_passed_over [] = true
is_passed_over (c ∷ s) = c == b'#'

-- Where the loops of `readColonFile` stand: gathering `wholeLine`, or skipping the rest of a line.
pub data Mode : Type 0 where
  gather : Bytes → Mode
  skip : Mode

pub data Step (A : Type 0) : Type 0 where
  return_ : Result (Option A) → Step A
  go : Mode → Step A

-- The error of the last `ReadLine`: the end of the file is no error.
unfoldable pub at_end : {A : Type 0} → GoError → Result (Option A)
at_end e = if is_eof e then ok none else err e

-- What follows the call of `fn` on a row.
after_row : {A : Type 0} → Result (Option A) → Bool → Step A
after_row (err e) is_prefix = return_ (err e)
after_row (ok (some v)) is_prefix = return_ (ok (some v))
after_row (ok none) is_prefix = go (if is_prefix then skip else gather [])

-- A trimmed row: a blank line or a comment is passed over.
row : {A : Type 0} → LineFunc A → Bytes → Bool → Step A
row fn whole is_prefix =
    if is_passed_over whole then go (gather []) else after_row (fn whole) is_prefix

-- The outcome of a step: the function returns, or goes on in another mode.
abbrev resume : {A : Type 0} → Step A → (Mode → Result (Option A)) → Result (Option A)
resume (return_ r) k = r
resume (go mode) k = k mode

module _ {A : Type 0} (fn : LineFunc A) (read_cols : ℕ) where
  -- What the loops do with one chunk.
  step : Chunk → Mode → Step A
  step (line, is_prefix) skip = go (if is_prefix then skip else gather [])
  step (line, is_prefix) (gather whole) =
      if not is_prefix || leb read_cols (count colon (whole ++ line))
      then row fn (trim_space (whole ++ line)) is_prefix
      else go (gather (whole ++ line))

  pub read_chunks : GoError → List Chunk → Mode → Result (Option A)
  read_chunks end [] mode = at_end end
  read_chunks end (c ∷ cs) mode = resume (step c mode) (λ mode'. read_chunks end cs mode')

-- The size of the buffer of `bufio.NewReader`.
abbrev pub buffer_size : ℕ
buffer_size = 4096

-- `readColonFile` on a file with that content, and that error behind it.
unfoldable pub read_colon_file : {A : Type 0} → Bytes → GoError → LineFunc A → ℕ → Result (Option A)
unfolding read_chunks step row after_row chunks read_line line_of slice strip_cr ends_in_cr init
read_colon_file content end fn read_cols =
    read_chunks fn read_cols end (chunks buffer_size (suc (length content)) content) (gather [])
