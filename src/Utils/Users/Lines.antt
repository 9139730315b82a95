-- ===== src/Utils/Users/Lines.antt =====
-- The lines of /etc/passwd and /etc/group, which the matchers read back.
use host_scanner.Prelude.{
  ◌≤◌, ◌≡◌, ◌≢◌, refl, ap, ◌∙◌, true, false, some, [], ◌∷◌, ◌++◌, arith, ltb,
}
use host_scanner.Prelude.Bytes.{Bytes, count, split_cuts, bytes_eq}
use host_scanner.Prelude.Bytes.Laws.{bytes_eq_self}
use host_scanner.Prelude.Bytes.Cuts.{split_cuts-append, count-field}
use host_scanner.GoError.{ok}
use host_scanner.Utils.ColonFile.{colon}
use host_scanner.Utils.Users.{
  is_match, is_int, group_of, user_of, before_comma, match_user_index_value,
  match_group_index_value, starts_with_sign,
}
use host_scanner.Utils.Users.Matching.{
  match_user_index_value-user_of, match_group_index_value-group_of,
}

-- The fields of a line of /etc/passwd, and the line.
abbrev pub passwd_line : Bytes → Bytes → Bytes → Bytes → Bytes → Bytes → Bytes → Bytes
passwd_line name pw uid gid gecos home shell =
    name
    ++ (colon
        ∷ (pw
            ++ (colon
                ∷ (uid
                    ++ (colon
                        ∷ (gid ++ (colon ∷ (gecos ++ (colon ∷ (home ++ (colon ∷ shell)))))))))))

abbrev pub group_line : Bytes → Bytes → Bytes → Bytes → Bytes
group_line name pw gid members = name ++ (colon ∷ (pw ++ (colon ∷ (gid ++ (colon ∷ members)))))

-- A field holds no colon.
abbrev pub IsField : Bytes → Type 0
IsField s = count colon s ≡ 0

-- A name that a lookup does not refuse.
abbrev pub IsName : Bytes → Type 0
IsName s = IsField s × (s ≢ []) × (starts_with_sign s ≡ false)

split_passwd :
    (name pw uid gid gecos home shell : Bytes)
    → IsField name
    → IsField pw
    → IsField uid
    → IsField gid
    → IsField gecos
    → IsField home
    → (split_cuts colon 6 (passwd_line name pw uid gid gecos home shell)
        ≡ name ∷ pw ∷ uid ∷ gid ∷ gecos ∷ home ∷ shell ∷ [])
      × (6 ≤ count colon (passwd_line name pw uid gid gecos home shell))
split_passwd name pw uid gid gecos home shell h₀ h₁ h₂ h₃ h₄ h₅ = (
  split_cuts-append colon 5 name _ h₀
      ∙ ap (λ l. name ∷ l) (split_cuts-append colon 4 pw _ h₁)
      ∙ ap (λ l. name ∷ pw ∷ l) (split_cuts-append colon 3 uid _ h₂)
      ∙ ap (λ l. name ∷ pw ∷ uid ∷ l) (split_cuts-append colon 2 gid _ h₃)
      ∙ ap (λ l. name ∷ pw ∷ uid ∷ gid ∷ l) (split_cuts-append colon 1 gecos _ h₄)
      ∙ ap (λ l. name ∷ pw ∷ uid ∷ gid ∷ gecos ∷ l)
          (split_cuts-append colon 0 home shell h₅
            ∙ ap (λ l. home ∷ l) (unfold split_cuts in refl)),
  omega (
    arith,
    count-field colon name _ h₀,
    count-field colon pw _ h₁,
    count-field colon uid _ h₂,
    count-field colon gid _ h₃,
    count-field colon gecos _ h₄,
    count-field colon home shell h₅,
  ),
)

split_group :
    (name pw gid members : Bytes)
    → IsField name
    → IsField pw
    → IsField gid
    → (split_cuts colon 3 (group_line name pw gid members) ≡ name ∷ pw ∷ gid ∷ members ∷ [])
      × (3 ≤ count colon (group_line name pw gid members))
split_group name pw gid members h₀ h₁ h₂ = (
  split_cuts-append colon 2 name _ h₀
      ∙ ap (λ l. name ∷ l) (split_cuts-append colon 1 pw _ h₁)
      ∙ ap (λ l. name ∷ pw ∷ l)
          (split_cuts-append colon 0 gid members h₂
            ∙ ap (λ l. gid ∷ l) (unfold split_cuts in refl)),
  omega (
    arith,
    count-field colon name _ h₀,
    count-field colon pw _ h₁,
    count-field colon gid members h₂,
  ),
)

user_of_fields :
    (name pw uid gid gecos home shell : Bytes)
    → IsName name
    → is_int uid ≡ true
    → is_int gid ≡ true
    → user_of uid 2 (name ∷ pw ∷ uid ∷ gid ∷ gecos ∷ home ∷ shell ∷ [])
      ≡ some (record {
        username = name;
        uid = uid;
        gid = gid;
        name = before_comma gecos;
        home_dir = home;
      })
unfolding user_of is_match
user_of_fields [] pw uid gid gecos home shell n i j = absurd (n.1 refl)
user_of_fields (c ∷ name) pw uid gid gecos home shell n i j =
    rw (bytes_eq_self uid, n.2, i, j) (unfold bytes_eq in refl)

group_of_fields :
    (name pw gid members : Bytes)
    → IsName name
    → is_int gid ≡ true
    → group_of gid 2 (name ∷ pw ∷ gid ∷ members ∷ []) ≡ some (record { name = name; gid = gid })
unfolding group_of is_match
group_of_fields [] pw gid members n i = absurd (n.1 refl)
group_of_fields (c ∷ name) pw gid members n i =
    rw (bytes_eq_self gid, n.2, i) (unfold bytes_eq in refl)

-- A line of seven fields with a name that is neither empty nor signed, numeric uid and gid, and no
-- colon within the first six fields is matched by its uid and read back field by field, the full
-- name up to its first comma.
pub match_user_index_value-passwd_line :
    (name pw uid gid gecos home shell : Bytes)
    → IsName name
    → IsField pw
    → IsField uid × (is_int uid ≡ true)
    → IsField gid × (is_int gid ≡ true)
    → IsField gecos
    → IsField home
    → match_user_index_value uid 2 (passwd_line name pw uid gid gecos home shell)
      ≡ ok (
          some (record {
            username = name;
            uid = uid;
            gid = gid;
            name = before_comma gecos;
            home_dir = home;
          }))
match_user_index_value-passwd_line name pw uid gid gecos home shell n hpw hu hg hgecos hhome =
    let line = passwd_line name pw uid gid gecos home shell in
    let (e, c) = split_passwd name pw uid gid gecos home shell n.0 hpw hu.0 hg.0 hgecos hhome in
    let t : ltb (count colon line) 6 ≡ false = ground arith in
    match_user_index_value-user_of uid 2 line (omega arith)
    ∙ rw (t, e) (ap ok (user_of_fields name pw uid gid gecos home shell n hu.1 hg.1))

-- A line of four fields with a name that is neither empty nor signed, a numeric gid, and no colon
-- within the first three fields is matched by its gid, and gives the name and the gid.
pub match_group_index_value-group_line :
    (name pw gid members : Bytes)
    → IsName name
    → IsField pw
    → IsField gid × (is_int gid ≡ true)
    → match_group_index_value gid 2 (group_line name pw gid members)
      ≡ ok (some (record { name = name; gid = gid }))
match_group_index_value-group_line name pw gid members n hpw hg =
    let line = group_line name pw gid members in
    let (e, c) = split_group name pw gid members n.0 hpw hg.0 in
    let t : ltb (count colon line) 3 ≡ false = ground arith in
    match_group_index_value-group_of gid 2 line (omega arith)
    ∙ rw (t, e) (ap ok (group_of_fields name pw gid members n hg.1))
