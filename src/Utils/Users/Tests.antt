-- ===== src/Utils/Users/Tests.antt =====
-- Lookups in small files, and the theorems at concrete data.
use host_scanner.Prelude.Dict.{lookup, insert}
use host_scanner.Prelude.{ℕ, ◌≡◌, ◌≢◌, refl, some, [], ◌++◌, find_map, arith, if◌then◌else◌}
use host_scanner.Prelude.Bytes.{Bytes, codes, contains, count, split_cuts, bytes_eq}
use host_scanner.Prelude.Bytes.Space.{trim_space}
use host_scanner.Prelude.Int.{pos, atoi, format_int}
use host_scanner.GoError.{eof, not_exist, failure, ok, err, is_eof}
use host_scanner.Host.{Host, File}
use host_scanner.Utils.ColonFile.{read_colon_file, at_end, is_passed_over}
use host_scanner.Utils.ColonFile.Lines.{raw_lines, lines}
use host_scanner.Utils.ColonFile.Rows.{rows}
use host_scanner.Utils.Users.{
  find_user_id, lookup_user, found_or, match_user_index_value, lookup_username_by_uid,
  get_user_name, is_int, is_match, user_of, needle, before_comma, starts_with_sign,
}
use host_scanner.Utils.Users.Lines.{passwd_line, match_user_index_value-passwd_line}
use host_scanner.Utils.Users.Lookups.{row_user, find_user_id-find_map}
use host_scanner.Utils.Users.Concurrent.{
  Call, user_name, find_name, panicked, System, Reach, here, later, pick, fetch_none, found,
  no_item, make, fetch_map, store,
}
use host_scanner.Utils.Users.Concurrent.Laws.{AreRight, returned-find_name}
use host_scanner.Utils.Users.Caching.{IsRight, nil-IsRight, get_user_name-lookup_username_by_uid}

abbrev passwd : Bytes
passwd =
    codes
      "# users\n\nroot:x:0:0:root:/root:/bin/sh\n  kevin:x:1005:1006:Kevin,,:/home/kevin:/bin/zsh\n"

abbrev passwd_file : File
passwd_file = record {
  batches = [];
  batches_end = eof;
  content = passwd;
  content_end = eof;
  info = err eof;
}

abbrev host : Host
host = record {
  open_file = λ p. if bytes_eq p (codes "/r/etc/passwd") then ok passwd_file else err (not_exist p);
  stat = λ p. err (not_exist p);
  read_file = λ p. err (not_exist p);
  read_dir = λ p. err (not_exist p);
}

kevin :
    find_user_id (codes "1005") passwd_file
    ≡ ok (record {
      username = codes "kevin";
      uid = codes "1005";
      gid = codes "1006";
      name = codes "Kevin";
      home_dir = codes "/home/kevin";
    })
unfolding find_user_id read_colon_file trim_space match_user_index_value contains count split_cuts
    user_of is_match is_int atoi needle before_comma starts_with_sign bytes_eq at_end is_eof
    is_passed_over
kevin = refl

match_user_index_value-passwd_line_example :
    match_user_index_value (codes "7") 2 (
      passwd_line
        (codes "bob")
        (codes "x")
        (codes "7")
        (codes "8")
        (codes "B,,")
        (codes "/b")
        (codes "/sh"))
    ≡ ok (
        some (record {
          username = codes "bob";
          uid = codes "7";
          gid = codes "8";
          name = before_comma (codes "B,,");
          home_dir = codes "/b";
        }))
unfolding count starts_with_sign is_int atoi
match_user_index_value-passwd_line_example =
    match_user_index_value-passwd_line (codes "bob") (codes "x") (codes "7") (codes "8")
      (codes "B,,") (codes "/b") (codes "/sh") (refl, (λ e. cc e), refl) refl (refl, refl)
      (refl, refl) refl refl

find_user_id-find_map_example :
    find_user_id (codes "1005") passwd_file
    ≡ found_or
        (failure (codes "user: unknown userid " ++ format_int (pos 1005)))
        (ok (find_map (row_user (codes "1005")) (rows (lines passwd))))
unfolding atoi raw_lines
find_user_id-find_map_example =
    find_user_id-find_map (codes "1005") (pos 1005) passwd_file refl (omega arith) refl

get_user_name-lookup_username_by_uid_example :
    ((get_user_name host (pos 0) (codes "/r") []).0
      ≡ lookup_username_by_uid host (pos 0) (codes "/r"))
    × IsRight host (get_user_name host (pos 0) (codes "/r") []).1
get_user_name-lookup_username_by_uid_example =
    get_user_name-lookup_username_by_uid host (pos 0) (codes "/r") [] (nil-IsRight host)

abbrev both_kevin : ℕ → Call
both_kevin i = user_name (pos 1005) (codes "/r")

kevin_found : find_name host (user_name (pos 1005) (codes "/r")) ≡ ok (codes "kevin")
unfolding lookup_username_by_uid lookup_user find_user_id read_colon_file trim_space
    match_user_index_value contains count split_cuts user_of is_match is_int atoi format_int needle
    before_comma starts_with_sign bytes_eq at_end is_eof is_passed_over
kevin_found = refl

-- Both calls see no item for the root directory, and the item of the first is replaced before its
-- name is stored.
abbrev overlapping : (s : System) × Reach host both_kevin s
unfolding lookup insert bytes_eq
overlapping =
    let r₁ = later (later here (pick 0 (fetch_none refl))) (pick 1 (fetch_none refl)) in
    let r₂ = later (later r₁ (pick 0 (found kevin_found))) (pick 1 (found kevin_found)) in
    let r₃ = later (later r₂ (pick 0 (no_item refl))) (pick 1 (no_item refl)) in
    let r₄ = later (later r₃ (pick 0 make)) (pick 0 (fetch_map refl)) in
    (_, later (later r₄ (pick 1 make)) (pick 0 store))

returned-find_name_example :
    (ok (codes "kevin") ≡ find_name host (both_kevin 0))
    × AreRight host overlapping.0.memory.items
    × ((k : ℕ) → overlapping.0.place k ≢ panicked)
unfolding overlapping
returned-find_name_example =
    returned-find_name host both_kevin overlapping.0 overlapping.1 0 (ok (codes "kevin")) refl
