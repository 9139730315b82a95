-- ===== src/Sensor/Verbose/Order.antt =====
-- The order in which the operating system names the files within a batch does not matter.
use mathlib.Core.List.{flatten, Perm}
use mathlib.Core.Path.{fun_ext}
use host_scanner.Prelude.{
  ℕ, zero, suc, ◌≡◌, refl, ap, ◌∙◌, inl, inr, ◌⊎◌, Option-cases, Bool, true, false, List, [], ◌∷◌,
  map,
}
use host_scanner.Prelude.Bytes.{Bytes}
use host_scanner.Prelude.Int.{ℤ, format_int}
use host_scanner.Prelude.FilePath.{path_join}
use host_scanner.Prelude.Sorting.{sort_strings}
use host_scanner.Prelude.Sorting.Unique.{sort_strings-Perm}
use host_scanner.GoError.{GoError, Result, ok, err, Result-cases, ◌>>=◌}
use host_scanner.Host.{Host, File}
use host_scanner.Utils.Users.{
  Cache, M, find_user_id, find_group_id, lookup_user, lookup_group, lookup_username_by_uid,
  lookup_groupname_by_gid, get_user_name, get_group_name, cached_user, cached_group,
}
use host_scanner.Utils.FileInfo.{
  FileInfo, host_path, make_file_info, make_changed_root_file_info, get_file_permissions,
  get_file_unix_ownership, read_content,
}
use host_scanner.Sensor.Verbose.{
  Listing, max_recursion_depth, make_changed_root_file_info_verbose, make_host_file_info_verbose,
  visit, visit_dir, visit_file, list_dir, make_host_dir_files_info_verbose, host_dir_files_info,
}

-- Batches of the same names, each in an order of its own.
pub data AreReordered : List (List Bytes) → List (List Bytes) → Type 0 where
  none_reordered : AreReordered [] []
  batch_reordered :
      {b c : List Bytes} {bs cs : List (List Bytes)}
      → Perm b c
      → AreReordered bs cs
      → AreReordered (b ∷ bs) (c ∷ cs)

-- The same file or error, but for the order of the names.
pub data IsReordered : Result File → Result File → Type 0 where
  same_error : {e : GoError} → IsReordered (err e) (err e)
  same_file :
      {f : File} {bs : List (List Bytes)}
      → AreReordered f.batches bs
      → IsReordered (ok f) (ok (record f { batches = bs }))

sorted_same :
    {bs cs : List (List Bytes)}
    → AreReordered bs cs
    → flatten (map sort_strings bs) ≡ flatten (map sort_strings cs)
unfolding flatten
sorted_same none_reordered = refl
sorted_same (batch_reordered {b} {c} p r) = rw (sort_strings-Perm b c p, sorted_same r) refl

-- What reads no names of a directory does not see their order.
content_same :
    {A : Type 0} (k : File → Result A) {r r' : Result File}
    → ((f : File) (bs : List (List Bytes)) → k f ≡ k (record f { batches = bs }))
    → IsReordered r r'
    → (r >>= k) ≡ (r' >>= k)
content_same k h same_error = refl
content_same k h (same_file {f} {bs} a) = h f bs

IsReordered-cases :
    {r r' : Result File}
    → IsReordered r r'
    → ((e : GoError) × (r ≡ err e) × (r' ≡ err e))
      ⊎ ((f : File) × (bs : List (List Bytes)) × AreReordered f.batches bs
          × (r ≡ ok f)
          × (r' ≡ ok (record f { batches = bs })))
IsReordered-cases (same_error {e}) = inl (e, refl, refl)
IsReordered-cases (same_file {f} {bs} a) = inr (f, bs, a, refl, refl)

module _ (host : Host) (open_file' : Bytes → Result File)
    (h : (p : Bytes) → IsReordered (host.open_file p) (open_file' p)) where
  -- The host with the other order.
  abbrev pub host' : Host
  host' = record host { open_file = open_file' }

  lookup_username_same :
      (uid : ℤ) (root : Bytes)
      → lookup_username_by_uid host uid root ≡ lookup_username_by_uid host' uid root
  unfolding lookup_username_by_uid lookup_user find_user_id
  lookup_username_same uid root =
      ap (λ r. r >>= λ u. ok u.username) (content_same (find_user_id _) (λ f bs. refl) (h _))

  lookup_groupname_same :
      (gid : ℤ) (root : Bytes)
      → lookup_groupname_by_gid host gid root ≡ lookup_groupname_by_gid host' gid root
  unfolding lookup_groupname_by_gid lookup_group find_group_id
  lookup_groupname_same gid root =
      ap (λ r. r >>= λ u. ok u.name) (content_same (find_group_id _) (λ f bs. refl) (h _))

  get_user_name_same :
      (uid : ℤ) (root : Bytes) (cache : Cache)
      → get_user_name host uid root cache ≡ get_user_name host' uid root cache
  unfolding get_user_name
  get_user_name_same uid root cache =
      elim (Option-cases (cached_user cache root (format_int uid))) [
        | inl n ↦ rw (n, lookup_username_same uid root, get_user_name) refl
        | inr (name, s) ↦ rw (s, get_user_name) refl
      ]

  get_group_name_same :
      (gid : ℤ) (root : Bytes) (cache : Cache)
      → get_group_name host gid root cache ≡ get_group_name host' gid root cache
  unfolding get_group_name
  get_group_name_same gid root cache =
      elim (Option-cases (cached_group cache root (format_int gid))) [
        | inl n ↦ rw (n, lookup_groupname_same gid root, get_group_name) refl
        | inr (name, s) ↦ rw (s, get_group_name) refl
      ]

  make_file_info_same :
      (path : Bytes) (w : Bool) → make_file_info host path w ≡ make_file_info host' path w
  unfolding make_file_info get_file_permissions get_file_unix_ownership read_content
  make_file_info_same path true = refl
  make_file_info_same path false = refl

  make_changed_root_file_info_same :
      (root path : Bytes) (w : Bool)
      → make_changed_root_file_info host root path w ≡ make_changed_root_file_info host' root path w
  unfolding make_changed_root_file_info
  make_changed_root_file_info_same root path w = fun_ext λ cache.
      elim (Result-cases (make_file_info host' (path_join (root ∷ path ∷ [])) w)) [
        | inl (e, m) ↦
            rw
              (make_file_info_same (path_join (root ∷ path ∷ [])) w, m, make_changed_root_file_info)
              refl
        | inr (obj, m) ↦
            let cache₁ = (get_user_name host' obj.ownership.uid root cache).1 in
            rw
              (
                make_file_info_same (path_join (root ∷ path ∷ [])) w,
                m,
                get_user_name_same obj.ownership.uid root cache,
                get_group_name_same obj.ownership.gid root cache₁,
                make_changed_root_file_info,
              )
              refl
      ]

  make_host_file_info_verbose_same :
      (path : Bytes) (w : Bool)
      → make_host_file_info_verbose host path w ≡ make_host_file_info_verbose host' path w
  unfolding make_host_file_info_verbose make_changed_root_file_info_verbose
  make_host_file_info_verbose_same path w = rw (make_changed_root_file_info_same _ path w) refl

  visit_dir_same :
      (walk : Bytes → List FileInfo → M Listing) (level : ℕ) (path : Bytes) (infos : List FileInfo)
      → visit_dir host walk level path infos ≡ visit_dir host' walk level path infos
  unfolding visit_dir
  visit_dir_same walk level path infos =
      rw (make_host_file_info_verbose_same path false, visit_dir) refl

  visit_file_same :
      (path : Bytes) (infos : List FileInfo)
      → visit_file host path infos ≡ visit_file host' path infos
  unfolding visit_file
  visit_file_same path infos = rw (make_host_file_info_verbose_same path false, visit_file) refl

  visit_same :
      (walk : Bytes → List FileInfo → M Listing) (level : ℕ) (dir name : Bytes)
      → visit host walk level dir name ≡ visit host' walk level dir name
  unfolding visit
  visit_same walk level dir name = fun_ext λ infos.
      let path = path_join (dir ∷ name ∷ []) in
      elim (Result-cases (host.stat (host_path path))) [
        | inl (e, s) ↦ rw (s, visit) refl
        | inr (stats, s) ↦
            rw (s, visit_dir_same walk level path infos, visit_file_same path infos, visit) refl
      ]

  list_dir_same :
      (visit_name : Bytes → List FileInfo → M (List FileInfo)) (dir : Bytes) (infos : List FileInfo)
      → list_dir host visit_name dir infos ≡ list_dir host' visit_name dir infos
  unfolding list_dir
  list_dir_same visit_name dir infos = elim (IsReordered-cases (h (host_path dir))) [
    | inl (e, l, r) ↦ rw (l, r, list_dir) refl
    | inr (f, bs, a, l, r) ↦ rw (l, r, sorted_same a, list_dir) refl
  ]

  walk_same :
      (fuel level : ℕ)
      → make_host_dir_files_info_verbose host fuel level
        ≡ make_host_dir_files_info_verbose host' fuel level
  unfolding make_host_dir_files_info_verbose
  walk_same zero level = refl
  walk_same (suc fuel) level = fun_ext λ dir. fun_ext λ infos.
      list_dir_same (visit host (make_host_dir_files_info_verbose host fuel (suc level)) level dir)
        dir infos
      ∙ ap (λ v. list_dir host' v dir infos)
          (fun_ext λ name.
            rw (walk_same fuel (suc level))
              (visit_same (make_host_dir_files_info_verbose host' fuel (suc level)) level dir name))

  -- The list of the files of a directory does not depend on the order in which the operating system
  -- gives the names within each batch of a directory.
  pub host_dir_files_info_same :
      (dir : Bytes) → host_dir_files_info host dir ≡ host_dir_files_info host' dir
  unfolding host_dir_files_info
  host_dir_files_info_same dir = rw (walk_same max_recursion_depth 0, host_dir_files_info) refl
