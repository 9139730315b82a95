-- ===== src/Utils/Users/Caching.antt =====
-- The cache of names is transparent: it gives what the files give.
use host_scanner.Prelude.{
  ◌≡◌, refl, sym, ap, ◌∙◌, inl, inr, none, some, [], arith, if◌then◌else◌, Option-cases,
}
use host_scanner.Prelude.Bytes.{Bytes, bytes_eq}
use host_scanner.Prelude.Bytes.Laws.{bytes_eq_iff}
use host_scanner.Prelude.Int.{ℤ, format_int}
use host_scanner.Prelude.Dict.{lookup}
use host_scanner.GoError.{Result, ok, err, ◌>>=◌}
use host_scanner.Host.{Host}
use host_scanner.Utils.Users.{
  Cache, cached_user, cached_group, store_user, store_group, lookup_username_by_uid,
  lookup_groupname_by_gid, get_user_name, get_group_name, lookup_user, lookup_group,
}
use host_scanner.Utils.Users.Stored.{
  cached_user-store_user, cached_group-store_user, cached_group-store_group,
  cached_user-store_group,
}

module _ (host : Host) where
  -- What the cache holds is what the files of the host give.
  pub record IsRight (cache : Cache) : Type 0 where
    pub users :
        (uid : ℤ) (root name : Bytes)
        → cached_user cache root (format_int uid) ≡ some name
        → lookup_username_by_uid host uid root ≡ ok name
    pub groups :
        (gid : ℤ) (root name : Bytes)
        → cached_group cache root (format_int gid) ≡ some name
        → lookup_groupname_by_gid host gid root ≡ ok name

  pub nil-IsRight : IsRight []
  unfolding cached_user cached_group lookup
  nil-IsRight = record {
    users = λ uid root name h. absurd (cc);
    groups = λ gid root name h. absurd (cc);
  }

  -- The lookup of a user depends on the text of the uid only.
  pub lookup_username_text :
      (uid uid' : ℤ) (root : Bytes)
      → format_int uid ≡ format_int uid'
      → lookup_username_by_uid host uid root ≡ lookup_username_by_uid host uid' root
  lookup_username_text uid uid' root e =
      unfold lookup_username_by_uid in ap (λ t. lookup_user host t root >>= λ u. ok u.username) e

  pub lookup_groupname_text :
      (gid gid' : ℤ) (root : Bytes)
      → format_int gid ≡ format_int gid'
      → lookup_groupname_by_gid host gid root ≡ lookup_groupname_by_gid host gid' root
  lookup_groupname_text gid gid' root e =
      unfold lookup_groupname_by_gid in ap (λ t. lookup_group host t root >>= λ g. ok g.name) e

  pub store_user-IsRight :
      (cache : Cache) (uid : ℤ) (root name : Bytes)
      → IsRight cache
      → lookup_username_by_uid host uid root ≡ ok name
      → IsRight (store_user root (format_int uid) name cache)
  store_user-IsRight cache uid root name r h = record {
    users = λ uid' root' name' c.
        stored uid' root' name' (
          sym (cached_user-store_user cache root (format_int uid) name root' (format_int uid'))
          ∙ c);
    groups = λ gid root' name' c.
        r.groups gid root' name' (
          sym (cached_group-store_user cache root (format_int uid) name root' (format_int gid))
          ∙ c);
  }
    where
      stored :
          (uid' : ℤ) (root' name' : Bytes)
          → (if bytes_eq root root'
              then if bytes_eq (format_int uid) (format_int uid')
                then some name
                else cached_user cache root' (format_int uid')
              else cached_user cache root' (format_int uid'))
            ≡ some name'
          → lookup_username_by_uid host uid' root' ≡ ok name'
      stored uid' root' name' c = ground (
        arith,
        bytes_eq_iff root root',
        bytes_eq_iff (format_int uid) (format_int uid'),
        r.users uid' root' name',
        lookup_username_text uid uid' root,
      )

  pub store_group-IsRight :
      (cache : Cache) (gid : ℤ) (root name : Bytes)
      → IsRight cache
      → lookup_groupname_by_gid host gid root ≡ ok name
      → IsRight (store_group root (format_int gid) name cache)
  store_group-IsRight cache gid root name r h = record {
    groups = λ gid' root' name' c. stored gid' root' name' (
        sym (cached_group-store_group cache root (format_int gid) name root' (format_int gid'))
        ∙ c);
    users = λ uid root' name' c.
        r.users uid root' name' (
          sym (cached_user-store_group cache root (format_int gid) name root' (format_int uid))
          ∙ c);
  }
    where
      stored :
          (gid' : ℤ) (root' name' : Bytes)
          → (if bytes_eq root root'
              then if bytes_eq (format_int gid) (format_int gid')
                then some name
                else cached_group cache root' (format_int gid')
              else cached_group cache root' (format_int gid'))
            ≡ some name'
          → lookup_groupname_by_gid host gid' root' ≡ ok name'
      stored gid' root' name' c = ground (
        arith,
        bytes_eq_iff root root',
        bytes_eq_iff (format_int gid) (format_int gid'),
        r.groups gid' root' name',
        lookup_groupname_text gid gid' root,
      )

  -- With a cache that holds what the files of the host give, `getUserName` gives the same name or
  -- error as the lookup without a cache, and the cache it leaves still holds what the files give.
  pub get_user_name-lookup_username_by_uid :
      (uid : ℤ) (root : Bytes) (cache : Cache)
      → IsRight cache
      → ((get_user_name host uid root cache).0 ≡ lookup_username_by_uid host uid root)
        × IsRight (get_user_name host uid root cache).1
  unfolding get_user_name
  get_user_name-lookup_username_by_uid uid root cache r =
      elim (Option-cases (cached_user cache root (format_int uid))) [
        | inl e ↦ missed (lookup_username_by_uid host uid root) refl e
        | inr (name, e) ↦ rw (e, get_user_name) (sym (r.users uid root name e), r)
      ]
    where
      missed :
          (l : Result Bytes)
          → lookup_username_by_uid host uid root ≡ l
          → cached_user cache root (format_int uid) ≡ none
          → ((get_user_name host uid root cache).0 ≡ lookup_username_by_uid host uid root)
            × IsRight (get_user_name host uid root cache).1
      missed (err e') e c = rw (c, e, get_user_name) (refl, r)
      missed (ok name) e c =
          rw (c, e, get_user_name) (refl, store_user-IsRight cache uid root name r e)

  -- With a cache that holds what the files of the host give, `getGroupName` gives the same name or
  -- error as the lookup without a cache, and the cache it leaves still holds what the files give.
  pub get_group_name-lookup_groupname_by_gid :
      (gid : ℤ) (root : Bytes) (cache : Cache)
      → IsRight cache
      → ((get_group_name host gid root cache).0 ≡ lookup_groupname_by_gid host gid root)
        × IsRight (get_group_name host gid root cache).1
  unfolding get_group_name
  get_group_name-lookup_groupname_by_gid gid root cache r =
      elim (Option-cases (cached_group cache root (format_int gid))) [
        | inl e ↦ missed (lookup_groupname_by_gid host gid root) refl e
        | inr (name, e) ↦ rw (e, get_group_name) (sym (r.groups gid root name e), r)
      ]
    where
      missed :
          (l : Result Bytes)
          → lookup_groupname_by_gid host gid root ≡ l
          → cached_group cache root (format_int gid) ≡ none
          → ((get_group_name host gid root cache).0 ≡ lookup_groupname_by_gid host gid root)
            × IsRight (get_group_name host gid root cache).1
      missed (err e') e c = rw (c, e, get_group_name) (refl, r)
      missed (ok name) e c =
          rw (c, e, get_group_name) (refl, store_group-IsRight cache gid root name r e)

-- Two hosts whose lookups give the same names of users and groups, or the same errors.
pub record HaveSameNames (host host' : Host) : Type 0 where
  pub users :
      (uid : ℤ) (root : Bytes)
      → lookup_username_by_uid host uid root ≡ lookup_username_by_uid host' uid root
  pub groups :
      (gid : ℤ) (root : Bytes)
      → lookup_groupname_by_gid host gid root ≡ lookup_groupname_by_gid host' gid root

pub HaveSameNames-sym : {host host' : Host} → HaveSameNames host host' → HaveSameNames host' host
HaveSameNames-sym n = record {
  users = λ uid root. sym (n.users uid root);
  groups = λ gid root. sym (n.groups gid root);
}

-- A cache that is right on one of them is so on the other.
pub HaveSameNames-IsRight :
    {host host' : Host} {cache : Cache}
    → HaveSameNames host host'
    → IsRight host cache
    → IsRight host' cache
HaveSameNames-IsRight n r = record {
  users = λ uid root name h. sym (n.users uid root) ∙ r.users uid root name h;
  groups = λ gid root name h. sym (n.groups gid root) ∙ r.groups gid root name h;
}
