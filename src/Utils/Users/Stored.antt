-- ===== src/Utils/Users/Stored.antt =====
-- The names that are read behind the store of one.
use host_scanner.Prelude.{◌≡◌, some, arith, if◌then◌else◌}
use host_scanner.Prelude.Bytes.{Bytes, bytes_eq}
use host_scanner.Prelude.Bytes.Laws.{bytes_eq_iff}
use host_scanner.Prelude.Dict.{lookup, insert, lookup-insert}
use host_scanner.Utils.Users.{
  Cache, cached_user, cached_group, store_user, store_group, item_or_empty,
}

-- What a store of a user or a group does to the reads of either kind.
pub cached_user-store_user :
    (cache : Cache) (root key name root' key' : Bytes)
    → cached_user (store_user root key name cache) root' key' ≡ (
        if bytes_eq root root'
        then if bytes_eq key key' then some name else cached_user cache root' key'
        else cached_user cache root' key')
unfolding cached_user store_user lookup
cached_user-store_user cache root key name root' key' =
    let i = item_or_empty (lookup root cache) in
    ground (
      arith,
      lookup-insert root root' (record i { users = insert key name i.users }) cache,
      bytes_eq_iff root root',
      lookup-insert key key' name i.users,
    )

pub cached_group-store_user :
    (cache : Cache) (root key name root' key' : Bytes)
    → cached_group (store_user root key name cache) root' key' ≡ cached_group cache root' key'
unfolding cached_group store_user lookup
cached_group-store_user cache root key name root' key' =
    let i = item_or_empty (lookup root cache) in
    ground (
      arith,
      lookup-insert root root' (record i { users = insert key name i.users }) cache,
      bytes_eq_iff root root',
    )

pub cached_group-store_group :
    (cache : Cache) (root key name root' key' : Bytes)
    → cached_group (store_group root key name cache) root' key' ≡ (
        if bytes_eq root root'
        then if bytes_eq key key' then some name else cached_group cache root' key'
        else cached_group cache root' key')
unfolding cached_group store_group lookup
cached_group-store_group cache root key name root' key' =
    let i = item_or_empty (lookup root cache) in
    ground (
      arith,
      lookup-insert root root' (record i { groups = insert key name i.groups }) cache,
      bytes_eq_iff root root',
      lookup-insert key key' name i.groups,
    )

pub cached_user-store_group :
    (cache : Cache) (root key name root' key' : Bytes)
    → cached_user (store_group root key name cache) root' key' ≡ cached_user cache root' key'
unfolding cached_user store_group lookup
cached_user-store_group cache root key name root' key' =
    let i = item_or_empty (lookup root cache) in
    ground (
      arith,
      lookup-insert root root' (record i { groups = insert key name i.groups }) cache,
      bytes_eq_iff root root',
    )
