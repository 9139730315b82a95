-- ===== src/Utils/ColonFile/Comments.antt =====
-- A comment that is longer than the buffer.
use host_scanner.Prelude.{
  ℕ, ◌≡◌, ◌≤◌, true, false, List, ◌∷◌, [], ◌++◌, arith, le→leb, suc, length, length-append, ap, ◌∙◌,
}
use host_scanner.Prelude.Bytes.{Bytes, count}
use host_scanner.Prelude.Bytes.Space.{trim_space}
use host_scanner.Utils.ColonFile.Fuel.{chunks_enough, chunks_full}
use host_scanner.GoError.{GoError}
use host_scanner.Utils.ColonFile.{
  Chunk, LineFunc, gather, is_passed_over, row, step, read_chunks, colon, buffer_size, ends_in_cr,
  read_colon_file,
}

read_chunks_long_comment :
    {A : Type 0} (fn : LineFunc A) (n : ℕ) (end : GoError) (l : Bytes) (cs : List Chunk)
    → is_passed_over (trim_space l) ≡ true
    → n ≤ count colon l
    → read_chunks fn n end ((l, true) ∷ cs) (gather []) ≡ read_chunks fn n end cs (gather [])
unfolding read_chunks step row
read_chunks_long_comment fn n end l cs p h = rw (le→leb _ _ h, p)

-- If the first buffer of the file holds no line feed, does not end in a carriage return, is a
-- comment when trimmed and holds `readCols` colons, the rest of that line is not skipped: the
-- outcome is that for a file that begins with the rest.
pub read_colon_file_long_comment :
    {A : Type 0} (fn : LineFunc A) (n : ℕ) (end : GoError) (l rest : Bytes)
    → length l ≡ buffer_size
    → count b'\n' l ≡ 0
    → ends_in_cr l ≡ false
    → is_passed_over (trim_space l) ≡ true
    → n ≤ count colon l
    → read_colon_file (l ++ rest) end fn n ≡ read_colon_file rest end fn n
read_colon_file_long_comment fn n end l rest e h c p q =
    unfold read_colon_file in
    (ap (λ cs. read_chunks fn n end cs (gather []))
        (chunks_full buffer_size (length (l ++ rest)) l rest e h c)
      ∙ read_chunks_long_comment fn n end l _ p q
      ∙ ap (λ cs. read_chunks fn n end cs (gather []))
          (chunks_enough buffer_size (length (l ++ rest)) (suc (length rest)) rest (omega arith)
            (omega (arith, length-append {0} l rest)) (omega arith)))
