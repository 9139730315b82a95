-- ===== src/Utils/Users/Concurrent/Items.antt =====
-- The items of the cache, and the names that they hold.
use host_scanner.Prelude.{
  ℕ, ◌==◌, ◌≡◌, sym, ◌∙◌, subst, inl, inr, some, Bool-cases, if◌then◌else◌, arith,
}
use host_scanner.Prelude.Bytes.{Bytes, bytes_eq}
use host_scanner.Prelude.Bytes.Laws.{bytes_eq_iff, bytes_eq_sound}
use host_scanner.Prelude.Int.{ℤ, format_int}
use host_scanner.Prelude.Dict.{lookup, lookup-insert}
use host_scanner.GoError.{ok}
use host_scanner.Host.{Host}
use host_scanner.Utils.Users.{
  CacheItem, empty_item, lookup_username_by_uid, lookup_groupname_by_gid,
}
use host_scanner.Utils.Users.Caching.{lookup_username_text, lookup_groupname_text}
use host_scanner.Utils.Users.Concurrent.{
  Call, user_name, group_name, root_of, read_item, put_name, find_name, Items, set_item,
}

-- What holds of the new item and of all old ones holds of all.
pub set_item-each :
    (P : Bytes → CacheItem → Type 0) (root : Bytes) (n : ℕ) (i : CacheItem) (items : Items)
    → P root i
    → ((root : Bytes) (n : ℕ) → P root (items root n))
    → (root' : Bytes) (n' : ℕ) → P root' (set_item root n i items root' n')
set_item-each P root n i items new old root' n' = elim (Bool-cases (bytes_eq root root')) [
  | inl e ↦ elim (Bool-cases (n == n')) [
    | inl e' ↦ rw (e, e') (subst (λ r. P r i) (bytes_eq_sound root root' e) new)
    | inr e' ↦ rw (e, e') (old root' n')
  ]
  | inr e ↦ rw e (old root' n')
]

module _ (host : Host) where
  -- The names of an item are those that the files under its root directory give.
  pub record IsRightItem (root : Bytes) (i : CacheItem) : Type 0 where
    pub users :
        (uid : ℤ) (name : Bytes)
        → lookup (format_int uid) i.users ≡ some name
        → lookup_username_by_uid host uid root ≡ ok name
    pub groups :
        (gid : ℤ) (name : Bytes)
        → lookup (format_int gid) i.groups ≡ some name
        → lookup_groupname_by_gid host gid root ≡ ok name

  pub empty-IsRightItem : (root : Bytes) → IsRightItem root empty_item
  unfolding lookup
  empty-IsRightItem root = record {
    users = λ uid name h. absurd (cc h);
    groups = λ gid name h. absurd (cc h);
  }

  pub read_item-found :
      (c : Call) (i : CacheItem) (name : Bytes)
      → IsRightItem (root_of c) i
      → read_item c i ≡ some name
      → find_name host c ≡ ok name
  read_item-found (user_name uid root) i name r h = r.users uid name h
  read_item-found (group_name gid root) i name r h = r.groups gid name h

  pub put_name-IsRightItem :
      (c : Call) (name : Bytes) (i : CacheItem)
      → find_name host c ≡ ok name
      → IsRightItem (root_of c) i
      → IsRightItem (root_of c) (put_name c name i)
  put_name-IsRightItem (user_name uid root) name i f r = record {
    users = λ uid' name' h.
        stored uid' name' (sym (lookup-insert (format_int uid) (format_int uid') name i.users) ∙ h);
    groups = r.groups;
  }
    where
      stored :
          (uid' : ℤ) (name' : Bytes)
          → (if bytes_eq (format_int uid) (format_int uid')
              then some name
              else lookup (format_int uid') i.users)
            ≡ some name'
          → lookup_username_by_uid host uid' root ≡ ok name'
      stored uid' name' h = ground (
        arith,
        bytes_eq_iff (format_int uid) (format_int uid'),
        r.users uid' name',
        lookup_username_text host uid uid' root,
      )
  put_name-IsRightItem (group_name gid root) name i f r = record {
    users = r.users;
    groups = λ gid' name' h.
        stored gid' name'
          (sym (lookup-insert (format_int gid) (format_int gid') name i.groups) ∙ h);
  }
    where
      stored :
          (gid' : ℤ) (name' : Bytes)
          → (if bytes_eq (format_int gid) (format_int gid')
              then some name
              else lookup (format_int gid') i.groups)
            ≡ some name'
          → lookup_groupname_by_gid host gid' root ≡ ok name'
      stored gid' name' h = ground (
        arith,
        bytes_eq_iff (format_int gid) (format_int gid'),
        r.groups gid' name',
        lookup_groupname_text host gid gid' root,
      )
