-- ===== src/Utils/Users/Concurrent.antt =====
-- `getUserName` and `getGroupName` (sensor/internal/utils/osuserswrapper.go), called by any number of
-- goroutines at once. The accesses to the cache take effect one after the other.
pub mod Items
pub mod Laws
use host_scanner.Prelude.Update.{update}
use host_scanner.Prelude.{ℕ, suc, ◌==◌, ◌≡◌, Option, none, some, [], if◌then◌else◌}
use host_scanner.Prelude.Bytes.{Bytes, bytes_eq}
use host_scanner.Prelude.Int.{ℤ, format_int}
use host_scanner.Prelude.Dict.{Dict, lookup, insert}
use host_scanner.GoError.{GoError, Result, ok, err}
use host_scanner.Host.{Host}
use host_scanner.Utils.Users.{
  Cache, CacheItem, empty_item, cached_user, cached_group, store_user, store_group,
  lookup_username_by_uid, lookup_groupname_by_gid,
}

-- A call of one of the two functions, with its arguments.
pub data Call : Type 0 where
  user_name group_name : ℤ → Bytes → Call

abbrev pub root_of : Call → Bytes
root_of (user_name uid root) = root
root_of (group_name gid root) = root

-- The read of the map of users or of groups of an item.
abbrev pub read_item : Call → CacheItem → Option Bytes
read_item (user_name uid root) i = lookup (format_int uid) i.users
read_item (group_name gid root) i = lookup (format_int gid) i.groups

-- The write of a name to one of the two maps.
abbrev pub put_name : Call → Bytes → CacheItem → CacheItem
put_name (user_name uid root) name i = record i { users = insert (format_int uid) name i.users }
put_name (group_name gid root) name i = record i { groups = insert (format_int gid) name i.groups }

-- The lookup in the file.
abbrev pub find_name : Host → Call → Result Bytes
find_name host (user_name uid root) = lookup_username_by_uid host uid root
find_name host (group_name gid root) = lookup_groupname_by_gid host gid root

-- The maps that were made for a root directory, by the number of the making: those of an item that
-- has been replaced can still be read and written.
abbrev pub Items : Type 0
Items = Bytes → ℕ → CacheItem

abbrev pub set_item : Bytes → ℕ → CacheItem → Items → Items
set_item root n i items root' n' =
    let old = items root' n' in if bytes_eq root root' then if n == n' then i else old else old

-- `userGroupCache` as the number of the item of each root directory, the items, and how many were
-- made.
pub record Memory : Type 0 where
  pub current : Dict ℕ
  pub items : Items
  pub made : ℕ

-- Where a call stands: at the read of the item of the root directory and at that of its map, at the
-- lookup, at the test for the item, at the write of a new item, at the read of the item that the
-- name goes to, or at the write of the name; or it has returned, or written to a nil map.
pub data Place : Type 0 where
  at_fetch : Place
  at_read : ℕ → Place
  at_lookup : Place
  at_test at_make at_fetch_map : Bytes → Place
  at_store : Bytes → ℕ → Place
  returned : Result Bytes → Place
  panicked : Place

-- One step of a call.
pub data Move (host : Host) (c : Call) (m : Memory) : Place → Memory → Place → Type 0 where
  fetch : {n : ℕ} → lookup (root_of c) m.current ≡ some n → Move host c m at_fetch m (at_read n)
  fetch_none : lookup (root_of c) m.current ≡ none → Move host c m at_fetch m at_lookup
  hit :
      {n : ℕ} {name : Bytes}
      → read_item c (m.items (root_of c) n) ≡ some name
      → Move host c m (at_read n) m (returned (ok name))
  miss :
      {n : ℕ} → read_item c (m.items (root_of c) n) ≡ none → Move host c m (at_read n) m at_lookup
  not_found :
      {e : GoError} → find_name host c ≡ err e → Move host c m at_lookup m (returned (err e))
  found : {name : Bytes} → find_name host c ≡ ok name → Move host c m at_lookup m (at_test name)
  has_item :
      {name : Bytes} {n : ℕ}
      → lookup (root_of c) m.current ≡ some n
      → Move host c m (at_test name) m (at_fetch_map name)
  no_item :
      {name : Bytes}
      → lookup (root_of c) m.current ≡ none
      → Move host c m (at_test name) m (at_make name)
  -- The item of another call may be replaced here.
  make :
      {name : Bytes}
      → Move host c m
          (at_make name)
          (record {
            current = insert (root_of c) m.made m.current;
            items = set_item (root_of c) m.made empty_item m.items;
            made = suc m.made;
          })
          (at_fetch_map name)
  fetch_map :
      {name : Bytes} {n : ℕ}
      → lookup (root_of c) m.current ≡ some n
      → Move host c m (at_fetch_map name) m (at_store name n)
  nil_map :
      {name : Bytes}
      → lookup (root_of c) m.current ≡ none
      → Move host c m (at_fetch_map name) m panicked
  -- The map may be that of an item which has been replaced since.
  store :
      {name : Bytes} {n : ℕ}
      → Move host c m
          (at_store name n)
          (record m {
            items = set_item (root_of c) n (put_name c name (m.items (root_of c) n)) m.items;
          })
          (returned (ok name))

-- The calls of the goroutines, which stay, are a parameter.
pub record System : Type 0 where
  pub memory : Memory
  pub place : ℕ → Place

abbrev pub start : System
start = record {
  memory = record { current = []; items = λ root n. empty_item; made = 0 };
  place = λ i. at_fetch;
}

module _ (host : Host) (calls : ℕ → Call) where
  pub data Step (s : System) : System → Type 0 where
    pick :
        (i : ℕ) {m : Memory} {p : Place}
        → Move host (calls i) s.memory (s.place i) m p
        → Step s (record { memory = m; place = update s.place i p })

  pub data Reach : System → Type 0 where
    here : Reach start
    later : {s t : System} → Reach s → Step s t → Reach t
