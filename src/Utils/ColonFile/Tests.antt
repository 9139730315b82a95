-- ===== src/Utils/ColonFile/Tests.antt =====
-- The theorems on `readColonFile` at concrete data.
use host_scanner.Prelude.{
  ◌≡◌, refl, none, some, [], ◌∷◌, ◌++◌, arith, replicate, ◌==◌, if◌then◌else◌,
}
use host_scanner.Prelude.Bytes.{Bytes, codes, count}
use host_scanner.Prelude.Bytes.Space.{trim_space}
use host_scanner.GoError.{eof, ok}
use host_scanner.Utils.ColonFile.{LineFunc, is_passed_over, read_colon_file, ends_in_cr, at_end}
use host_scanner.Utils.ColonFile.Lines.{raw_lines, lines}
use host_scanner.Utils.ColonFile.Rows.{rows, first_answer, read_colon_file-rows}
use host_scanner.Utils.ColonFile.Comments.{read_colon_file_long_comment}

abbrev starts_a : LineFunc Bytes
starts_a [] = ok none
starts_a (c ∷ s) = ok (if c == b'a' then some s else none)

abbrev text : Bytes
text = codes "#c\n\n  abc:\r\nx\n"

read_colon_file-rows_example :
    read_colon_file text eof starts_a 1 ≡ first_answer starts_a eof (rows (lines text))
unfolding raw_lines
read_colon_file-rows_example = read_colon_file-rows starts_a text eof 1 (omega arith)

finds_abc : read_colon_file text eof starts_a 1 ≡ ok (some (codes "bc:"))
unfolding read_colon_file trim_space count is_passed_over at_end
finds_abc = refl

-- A comment with a colon that fills the buffer, and a row behind it on the same line.
abbrev comment : Bytes
comment = b'#' ∷ b':' ∷ replicate 4094 b'-'

read_colon_file_long_comment_example :
    read_colon_file (comment ++ codes "ab:") eof starts_a 1
    ≡ read_colon_file (codes "ab:") eof starts_a 1
unfolding count ends_in_cr is_passed_over trim_space
read_colon_file_long_comment_example =
    read_colon_file_long_comment starts_a 1 eof comment (codes "ab:") refl refl refl refl
      (omega arith)
