-- ===== src/Utils/Users.antt =====
-- The lookups of users and groups in {root}/etc/passwd and {root}/etc/group, and their cache:
-- sensor/internal/utils/osuserswrapper.go without `readColonFile`.
mod Tests
pub mod Matching
pub mod Lines
pub mod Lookups
pub mod Stored
pub mod Caching
pub mod Concurrent
use host_scanner.Prelude.{
  ℕ, zero, suc, Bool, true, false, not, ◌&&◌, ◌||◌, Option, none, some, List, [], ◌∷◌, ◌++◌, length,
  ◌==◌, leb, ltb, if◌then◌else◌,
}
use host_scanner.Prelude.Bytes.{Bytes, codes, bytes_eq, contains, count, cut, split_cuts}
use host_scanner.Prelude.Bytes.Cuts.{part}
use host_scanner.Prelude.Int.{ℤ, atoi, format_int}
use host_scanner.Prelude.Dict.{Dict, lookup, insert}
use host_scanner.GoError.{GoError, failure, Result, ok, err, ◌>>=◌}
use host_scanner.Host.{Host, File}
use host_scanner.Utils.ColonFile.{LineFunc, colon, read_colon_file}

-- `user.Group` and `user.User`.
pub record Group : Type 0 where
  pub name : Bytes
  pub gid : Bytes

pub record User : Type 0 where
  pub username : Bytes
  pub uid : Bytes
  pub gid : Bytes
  pub name : Bytes
  pub home_dir : Bytes

-- `leadColon + value + ":"`.
unfoldable pub needle : Bytes → ℕ → Bytes
needle value idx = (if ltb 0 idx then colon ∷ [] else []) ++ (value ++ (colon ∷ []))

-- `name[0] == '+' || name[0] == '-'`.
unfoldable pub starts_with_sign : Bytes → Bool
starts_with_sign [] = false
starts_with_sign (c ∷ s) = c == b'+' || c == b'-'

-- `strconv.Atoi` gives no error.
unfoldable pub is_int : Bytes → Bool
is_int s = elim (atoi s) [ some n ↦ true | none ↦ false ]

-- The part before the first comma, all of it without one.
unfoldable pub before_comma : Bytes → Bytes
before_comma s = elim (cut b',' s) [ some (b, a) ↦ b | none ↦ s ]

module _ (value : Bytes) (idx : ℕ) where
  -- The test on the parts of a row, with the number of parts that it wants at least.
  unfoldable pub is_match : ℕ → List Bytes → Bool
  is_match wanted parts = not (
      ltb (length parts) wanted
      || bytes_eq (part 0 parts) []
      || not (bytes_eq (part idx parts) value)
      || starts_with_sign (part 0 parts))

  -- What `matchGroupIndexValue` makes of the parts.
  unfoldable pub group_of : List Bytes → Option Group
  group_of parts =
      if not (is_match 4 parts)
      then none
      else if not (is_int (part 2 parts))
      then none
      else some (record { name = part 0 parts; gid = part 2 parts })

  unfoldable pub match_group_index_value : LineFunc Group
  match_group_index_value line =
      if not (contains line (needle value idx)) || ltb (count colon line) 3
      then ok none
      else ok (group_of (split_cuts colon 3 line))

  -- What `matchUserIndexValue` makes of the parts.
  unfoldable pub user_of : List Bytes → Option User
  user_of parts =
      if not (is_match 6 parts)
      then none
      else if not (is_int (part 2 parts))
      then none
      else if not (is_int (part 3 parts))
      then none
      else some (record {
        username = part 0 parts;
        uid = part 2 parts;
        gid = part 3 parts;
        name = before_comma (part 4 parts);
        home_dir = part 5 parts;
      })

  unfoldable pub match_user_index_value : LineFunc User
  match_user_index_value line =
      if not (contains line (needle value idx)) || ltb (count colon line) 6
      then ok none
      else ok (user_of (split_cuts colon 6 line))

-- A lookup that ends with no value gives the error for it.
abbrev pub found_or : {A : Type 0} → GoError → Result (Option A) → Result A
found_or e (err e') = err e'
found_or e (ok none) = err e
found_or e (ok (some v)) = ok v

unfoldable pub find_user_id : Bytes → File → Result User
find_user_id uid f = elim (atoi uid) [
  | none ↦ err (failure (codes "user: invalid userid " ++ uid))
  | some i ↦
      found_or (failure (codes "user: unknown userid " ++ format_int i))
        (read_colon_file f.content f.content_end (match_user_index_value uid 2) 6)
]

unfoldable pub find_group_id : Bytes → File → Result Group
find_group_id id f =
    found_or (failure (codes "group: unknown groupid " ++ id))
      (read_colon_file f.content f.content_end (match_group_index_value id 2) 3)

abbrev user_file : Bytes
user_file = codes "/etc/passwd"

abbrev group_file : Bytes
group_file = codes "/etc/group"

module _ (host : Host) where
  unfoldable pub lookup_user : Bytes → Bytes → Result User
  unfolding find_user_id
  lookup_user uid root = do f ← host.open_file (root ++ user_file); find_user_id uid f

  unfoldable pub lookup_group : Bytes → Bytes → Result Group
  unfolding find_group_id
  lookup_group gid root = do f ← host.open_file (root ++ group_file); find_group_id gid f

  unfoldable pub lookup_username_by_uid : ℤ → Bytes → Result Bytes
  unfolding lookup_user
  lookup_username_by_uid uid root = do u ← lookup_user (format_int uid) root; ok u.username

  unfoldable pub lookup_groupname_by_gid : ℤ → Bytes → Result Bytes
  unfolding lookup_group
  lookup_groupname_by_gid gid root = do g ← lookup_group (format_int gid) root; ok g.name

-- `userGroupCacheItem`, and the map of those by root directory.
pub record CacheItem : Type 0 where
  pub users : Dict Bytes
  pub groups : Dict Bytes

abbrev pub Cache : Type 0
Cache = Dict CacheItem

abbrev pub empty_item : CacheItem
empty_item = record { users = []; groups = [] }

-- `userGroupCache[root]`, made if it is missing.
abbrev item_or_empty : Option CacheItem → CacheItem
item_or_empty none = empty_item
item_or_empty (some i) = i

unfoldable pub cached_user : Cache → Bytes → Bytes → Option Bytes
cached_user cache root key = elim (lookup root cache) [ none ↦ none | some i ↦ lookup key i.users ]

unfoldable pub cached_group : Cache → Bytes → Bytes → Option Bytes
cached_group cache root key = elim (lookup root cache) [
  | none ↦ none
  | some i ↦ lookup key i.groups
]

unfoldable pub store_user : Bytes → Bytes → Bytes → Cache → Cache
store_user root key name cache =
    let i = item_or_empty (lookup root cache) in
    insert root (record i { users = insert key name i.users }) cache

unfoldable pub store_group : Bytes → Bytes → Bytes → Cache → Cache
store_group root key name cache =
    let i = item_or_empty (lookup root cache) in
    insert root (record i { groups = insert key name i.groups }) cache

-- Code that reads and writes the cache.
abbrev pub M : Type 0 → Type 0
M A = Cache → A × Cache

module _ (host : Host) where
  unfoldable pub get_user_name : ℤ → Bytes → M (Result Bytes)
  get_user_name uid root cache = elim (cached_user cache root (format_int uid)) [
    | some name ↦ (ok name, cache)
    | none ↦ elim (lookup_username_by_uid host uid root) [
      | err e ↦ (err e, cache)
      | ok name ↦ (ok name, store_user root (format_int uid) name cache)
    ]
  ]

  unfoldable pub get_group_name : ℤ → Bytes → M (Result Bytes)
  get_group_name gid root cache = elim (cached_group cache root (format_int gid)) [
    | some name ↦ (ok name, cache)
    | none ↦ elim (lookup_groupname_by_gid host gid root) [
      | err e ↦ (err e, cache)
      | ok name ↦ (ok name, store_group root (format_int gid) name cache)
    ]
  ]
