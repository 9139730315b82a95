-- ===== src/Utils/FileInfo/Laws.antt =====
-- File infos: where they point, what they hold, and that the cache of names changes nothing.
use host_scanner.Prelude.{
  ℕ, ◌≡◌, ◌≢◌, refl, ap₂, ◌∙◌, inl, inr, Bool, true, false, Option, none, some, List, [], ◌∷◌, ◌++◌,
  All, arith,
}
use host_scanner.Prelude.Bytes.{Bytes, codes, split, bytes_eq}
use host_scanner.Prelude.FilePath.{slash, dot_dot, path_join, clean, walk}
use host_scanner.Prelude.FilePath.Laws.{IsPlain, below, path_join_under, path_join_parent}
use host_scanner.Prelude.Int.{pos, negsuc}
use host_scanner.GoError.{Result, ok, err, Result-cases, error_text}
use host_scanner.Host.{Host, Stat}
use host_scanner.Utils.Users.{Cache, get_user_name, lookup_username_by_uid, lookup_groupname_by_gid}
use host_scanner.Utils.Users.Caching.{
  IsRight, get_user_name-lookup_username_by_uid, get_group_name-lookup_groupname_by_gid,
}
use host_scanner.Utils.Cached.Transparent.{IsTransparent, at_value-IsTransparent}
use host_scanner.Utils.FileInfo.{
  FileInfo, FileOwnership, host_file_system_default_location, err_not_unix_fs, host_path,
  get_file_permissions, get_file_unix_ownership, read_content, make_file_info, with_names,
  make_changed_root_file_info,
}

-- A path that has no component `..` stays under the mount of the host's file system: its place
-- there is the mount followed by plain components.
pub host_path-below :
    (file_path : Bytes)
    → All (λ c. c ≢ dot_dot) (split slash file_path)
    → (cs : List Bytes) × (host_path file_path ≡ host_file_system_default_location ++ below cs)
      × All IsPlain cs
unfolding host_path
host_path-below file_path h =
    let (cs, e, p) =
      path_join_under (codes "host_fs") file_path (unfold walk split bytes_eq in λ q. cc q) h in
    (cs, e ∙ unfold clean in refl, p)

-- A path that begins with `..` leaves the mount: it is read from the root of the scanner's own
-- file system.
pub host_path-dot_dot :
    (file_path : Bytes)
    → host_path (dot_dot ++ (slash ∷ file_path)) ≡ path_join ((slash ∷ []) ∷ file_path ∷ [])
unfolding host_path
host_path-dot_dot file_path =
    path_join_parent (codes "host_fs") (codes "host_fs") file_path
      (unfold walk split bytes_eq in refl) (unfold bytes_eq in refl)

-- What the owner of a file shows as: the ids, or -1 and the reason.
abbrev pub OwnerShown : FileOwnership → Option (ℕ × ℕ) → Type 0
OwnerShown o none =
    (o.uid ≡ negsuc 0) × (o.gid ≡ negsuc 0) × (o.err_text ≡ error_text err_not_unix_fs)
OwnerShown o (some (uid, gid)) = (o.uid ≡ pos uid) × (o.gid ≡ pos gid) × (o.err_text ≡ [])

module _ (host : Host) where
  -- The names that the files under the root directory give, in place of the cached ones.
  unfoldable pub named : Bytes → Bytes → Result FileInfo → Result FileInfo
  named root file_path (err e) = err e
  named root file_path (ok obj) = ok (
      with_names obj file_path (lookup_username_by_uid host obj.ownership.uid root)
        (lookup_groupname_by_gid host obj.ownership.gid root))

  -- With a right cache the info is that of the file at the joined path, under the given path and
  -- with the names that the files under the root give; an error of that file is passed on; and the
  -- cache stays right.
  pub make_changed_root_file_info-make_file_info :
      (root file_path : Bytes) (want_content : Bool) (cache : Cache)
      → IsRight host cache
      → ((make_changed_root_file_info host root file_path want_content cache).0
          ≡ named root file_path
              (make_file_info host (path_join (root ∷ file_path ∷ [])) want_content))
        × IsRight host (make_changed_root_file_info host root file_path want_content cache).1
  unfolding make_changed_root_file_info
  make_changed_root_file_info-make_file_info root file_path want_content cache r =
      elim (Result-cases (make_file_info host (path_join (root ∷ file_path ∷ [])) want_content)) [
        | inl (e, q) ↦ rw (q, make_changed_root_file_info) (unfold named in refl, r)
        | inr (obj, q) ↦
            let (u, r₁) =
              get_user_name-lookup_username_by_uid host obj.ownership.uid root cache r in
            let cache₁ = (get_user_name host obj.ownership.uid root cache).1 in
            let (g, r₂) =
              get_group_name-lookup_groupname_by_gid host obj.ownership.gid root cache₁ r₁ in
            rw (q, make_changed_root_file_info)
              (unfold named in ap₂ (λ a b. ok (with_names obj file_path a b)) u g, r₂)
      ]

  pub make_changed_root_file_info-IsTransparent :
      (root file_path : Bytes) (want_content : Bool)
      → IsTransparent host (make_changed_root_file_info host root file_path want_content)
  make_changed_root_file_info-IsTransparent root file_path want_content =
      at_value-IsTransparent host _ _
        (make_changed_root_file_info-make_file_info root file_path want_content)

  -- What the content is: nothing if it is not wanted, else what the file holds.
  abbrev pub ContentShown : Bytes → Bool → Option Bytes → Type 0
  ContentShown file_path false content = content ≡ none
  ContentShown file_path true content =
      (bytes : Bytes) × (host.read_file file_path ≡ ok bytes) × (content ≡ some bytes)

  owner_shown :
      (p : Bytes) (w : Bool) (info : Stat) (o : Option (ℕ × ℕ)) (obj : FileInfo)
      → host.stat p ≡ ok info
      → info.owner ≡ o
      → make_file_info host p w ≡ ok obj
      → OwnerShown obj.ownership o
  unfolding make_file_info get_file_permissions get_file_unix_ownership
  owner_shown p w info none obj s q h = (ground arith, ground arith, ground arith)
  owner_shown p w info (some (uid, gid)) obj s q h = (ground arith, ground arith, ground arith)

  content_shown :
      (p : Bytes) (w : Bool) (info : Stat) (obj : FileInfo)
      → host.stat p ≡ ok info
      → make_file_info host p w ≡ ok obj
      → ContentShown p w obj.content
  unfolding make_file_info get_file_permissions read_content
  content_shown p false info obj s h = ground arith
  content_shown p true info obj s h = elim (Result-cases (host.read_file p)) [
    | inl (e, q) ↦ absurd (ground arith)
    | inr (bytes, q) ↦ (bytes, q, ground arith)
  ]

  -- A file info that `MakeFileInfo` returns is that of a file that can be stat'ed: its path and its
  -- permissions are the file's, its owner is shown by both ids, or by -1 and the reason where the
  -- file system has no owners, and its content is what the file holds if it was asked for, and
  -- nothing otherwise.
  pub make_file_info_sound :
      (p : Bytes) (w : Bool) (obj : FileInfo)
      → make_file_info host p w ≡ ok obj
      → (info : Stat) × (host.stat p ≡ ok info)
        × (obj.path ≡ p)
        × (obj.permissions ≡ info.perm)
        × OwnerShown obj.ownership info.owner
        × ContentShown p w obj.content
  unfolding make_file_info get_file_permissions
  make_file_info_sound p w obj h = elim (Result-cases (host.stat p)) [
    | inl (e, s) ↦ absurd (ground arith)
    | inr (info, s) ↦ (
      info,
      s,
      ground arith,
      ground arith,
      owner_shown p w info info.owner obj s refl h,
      content_shown p w info obj s h,
    )
  ]
