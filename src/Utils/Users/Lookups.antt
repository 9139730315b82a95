-- ===== src/Utils/Users/Lookups.antt =====
-- `findUserId` and `findGroupId` against a search of the rows of a file.
use host_scanner.Prelude.{
  ℕ, ◌≡◌, refl, ap, ◌∙◌, Option, none, some, List, [], ◌∷◌, ◌++◌, All, find_map, arith, ltb,
  if◌then◌else◌,
}
use host_scanner.Prelude.Bytes.{Bytes, codes, count, split_cuts}
use host_scanner.Prelude.Int.{ℤ, atoi, format_int}
use host_scanner.GoError.{eof, failure, ok, is_eof}
use host_scanner.Host.{File}
use host_scanner.Utils.ColonFile.{LineFunc, colon, at_end, buffer_size, read_colon_file}
use host_scanner.Utils.ColonFile.Lines.{raw_lines, lines, IsShort}
use host_scanner.Utils.ColonFile.Rows.{rows, first_answer, read_colon_file-rows}
use host_scanner.Utils.Users.{
  User, Group, user_of, group_of, match_user_index_value, match_group_index_value, found_or,
  find_user_id, find_group_id,
}
use host_scanner.Utils.Users.Matching.{
  match_user_index_value-user_of, match_group_index_value-group_of,
}

-- The user and the group that a row gives, by its parts alone.
unfoldable pub row_user : Bytes → Bytes → Option User
row_user uid w = if ltb (count colon w) 6 then none else user_of uid 2 (split_cuts colon 6 w)

unfoldable pub row_group : Bytes → Bytes → Option Group
row_group id w = if ltb (count colon w) 3 then none else group_of id 2 (split_cuts colon 3 w)

module _ {A : Type 0} (fn : LineFunc A) (g : Bytes → Option A)
    (pure : (w : Bytes) → fn w ≡ ok (g w)) where
  first_answer-find_map : (ws : List Bytes) → first_answer fn eof ws ≡ ok (find_map g ws)
  unfolding first_answer find_map at_end is_eof
  first_answer-find_map [] = refl
  first_answer-find_map (w ∷ ws) = ground (arith, pure w, first_answer-find_map ws)

  read_colon_file-find_map :
      (f : File) (n : ℕ)
      → All (IsShort buffer_size) (raw_lines f.content)
      → f.content_end ≡ eof
      → read_colon_file f.content f.content_end fn n ≡ ok (find_map g (rows (lines f.content)))
  read_colon_file-find_map f n short e = rw e (
      read_colon_file-rows fn f.content eof n short
      ∙ first_answer-find_map (rows (lines f.content)))

-- In a file that is read to its end, with lines that fit the buffer, the lookup of a numeric uid
-- gives the user of the first row that holds it by its parts alone, and the unknown-userid error if
-- no row does.
pub find_user_id-find_map :
    (uid : Bytes) (i : ℤ) (f : File)
    → atoi uid ≡ some i
    → All (IsShort buffer_size) (raw_lines f.content)
    → f.content_end ≡ eof
    → find_user_id uid f
      ≡ found_or
          (failure (codes "user: unknown userid " ++ format_int i))
          (ok (find_map (row_user uid) (rows (lines f.content))))
unfolding find_user_id
find_user_id-find_map uid i f a short e =
    rw (a, find_user_id)
      (ap (found_or (failure (codes "user: unknown userid " ++ format_int i))) (
        read_colon_file-find_map (match_user_index_value uid 2) (row_user uid)
          (unfold row_user in λ w. match_user_index_value-user_of uid 2 w (omega arith)) f 6 short
          e))

-- In a file that is read to its end, with lines that fit the buffer, the lookup gives the group of
-- the first row that holds the gid by its parts alone, and the unknown-groupid error if no row does.
pub find_group_id-find_map :
    (id : Bytes) (f : File)
    → All (IsShort buffer_size) (raw_lines f.content)
    → f.content_end ≡ eof
    → find_group_id id f
      ≡ found_or
          (failure (codes "group: unknown groupid " ++ id))
          (ok (find_map (row_group id) (rows (lines f.content))))
unfolding find_group_id
find_group_id-find_map id f short e =
    ap (found_or (failure (codes "group: unknown groupid " ++ id))) (
      read_colon_file-find_map (match_group_index_value id 2) (row_group id)
        (unfold row_group in λ w. match_group_index_value-group_of id 2 w (omega arith)) f 3 short
        e)
