-- ===== src/Sensor/Verbose/Cached.antt =====
-- The infos do not depend on the cache of names.
use mathlib.Core.List.{flatten}
use host_scanner.Prelude.{
  ℕ, zero, suc, ◌+◌, ◌==◌, inl, inr, Bool, false, List, [], ◌∷◌, map, Bool-cases,
}
use host_scanner.Prelude.Bytes.{Bytes}
use host_scanner.Prelude.FilePath.{path_join}
use host_scanner.Prelude.Sorting.{sort_strings}
use host_scanner.GoError.{Result-cases, get_ok}
use host_scanner.Host.{Host}
use host_scanner.Utils.Users.{M}
use host_scanner.Utils.Process.{ProcessDetails, root_dir}
use host_scanner.Utils.FileInfo.{
  FileInfo, host_path, make_changed_root_file_info, host_file_system_default_location,
}
use host_scanner.Utils.FileInfo.Laws.{make_changed_root_file_info-IsTransparent}
use host_scanner.Utils.Cached.{◌>>◌, pure, fold}
use host_scanner.Utils.Cached.Transparent.{
  IsTransparent, pure-IsTransparent, >>=-IsTransparent, fold-IsTransparent,
  first_some-IsTransparent,
}
use host_scanner.Sensor.Verbose.{
  Listing, listing, max_recursion_depth, append_some, unless_eof,
  make_changed_root_file_info_verbose, make_host_file_info_verbose,
  make_containered_file_info_verbose, make_containered_file_info_from_list_verbose, visit,
  visit_dir, visit_file, list_dir, make_host_dir_files_info_verbose, host_dir_files_info,
}

module _ (host : Host) where
  pub make_changed_root_file_info_verbose-IsTransparent :
      (root path : Bytes) (w : Bool)
      → IsTransparent host (make_changed_root_file_info_verbose host root path w)
  unfolding make_changed_root_file_info_verbose
  make_changed_root_file_info_verbose-IsTransparent root path w =
      >>=-IsTransparent host (make_changed_root_file_info host root path w) (λ r. pure (get_ok r))
        (make_changed_root_file_info-IsTransparent host root path w)
        (λ r. pure-IsTransparent host (get_ok r))

  pub make_host_file_info_verbose-IsTransparent :
      (path : Bytes) (w : Bool) → IsTransparent host (make_host_file_info_verbose host path w)
  unfolding make_host_file_info_verbose
  make_host_file_info_verbose-IsTransparent =
      make_changed_root_file_info_verbose-IsTransparent host_file_system_default_location

  pub make_containered_file_info_verbose-IsTransparent :
      (p : ProcessDetails) (path : Bytes) (w : Bool)
      → IsTransparent host (make_containered_file_info_verbose host p path w)
  unfolding make_containered_file_info_verbose
  make_containered_file_info_verbose-IsTransparent p =
      make_changed_root_file_info_verbose-IsTransparent (root_dir p)

  pub make_containered_file_info_from_list_verbose-IsTransparent :
      (p : ProcessDetails) (paths : List Bytes) (w : Bool)
      → IsTransparent host (make_containered_file_info_from_list_verbose host p paths w)
  unfolding make_containered_file_info_from_list_verbose
  make_containered_file_info_from_list_verbose-IsTransparent p paths w =
      first_some-IsTransparent host
        (λ path. make_changed_root_file_info_verbose host (root_dir p) path w) paths
        (λ path. make_changed_root_file_info_verbose-IsTransparent (root_dir p) path w)

  visit_dir-IsTransparent :
      (walk : Bytes → List FileInfo → M Listing) (level : ℕ) (path : Bytes) (infos : List FileInfo)
      → ((path : Bytes) (infos : List FileInfo) → IsTransparent host (walk path infos))
      → IsTransparent host (visit_dir host walk level path infos)
  unfolding visit_dir
  visit_dir-IsTransparent walk level path infos h =
      elim (Bool-cases (level + 1 == max_recursion_depth)) [
        | inl e ↦ rw (e, visit_dir) (pure-IsTransparent host infos)
        | inr e ↦
            rw (e, visit_dir)
              (>>=-IsTransparent host (walk path infos)
                (λ l. make_host_file_info_verbose host path false >> pure l.file_infos)
                (h path infos)
                (λ l.
                  >>=-IsTransparent host (make_host_file_info_verbose host path false)
                    (λ _. pure l.file_infos) (make_host_file_info_verbose-IsTransparent path false)
                    (λ _. pure-IsTransparent host l.file_infos)))
      ]

  visit_file-IsTransparent :
      (path : Bytes) (infos : List FileInfo) → IsTransparent host (visit_file host path infos)
  unfolding visit_file
  visit_file-IsTransparent path infos =
      >>=-IsTransparent host (make_host_file_info_verbose host path false)
        (λ info. pure (append_some infos info))
        (make_host_file_info_verbose-IsTransparent path false)
        (λ info. pure-IsTransparent host (append_some infos info))

  visit-IsTransparent :
      (walk : Bytes → List FileInfo → M Listing) (level : ℕ) (dir name : Bytes)
      (infos : List FileInfo)
      → ((path : Bytes) (infos : List FileInfo) → IsTransparent host (walk path infos))
      → IsTransparent host (visit host walk level dir name infos)
  unfolding visit
  visit-IsTransparent walk level dir name infos h =
      let path = path_join (dir ∷ name ∷ []) in
      elim (Result-cases (host.stat (host_path path))) [
        | inl (e, s) ↦ rw (s, visit) (pure-IsTransparent host infos)
        | inr (stats, s) ↦ elim (Bool-cases stats.is_dir) [
          | inl d ↦ rw (s, d, visit) (visit_dir-IsTransparent walk level path infos h)
          | inr d ↦ rw (s, d, visit) (visit_file-IsTransparent path infos)
        ]
      ]

  list_dir-IsTransparent :
      (v : Bytes → List FileInfo → M (List FileInfo)) (dir : Bytes) (infos : List FileInfo)
      → ((name : Bytes) (infos : List FileInfo) → IsTransparent host (v name infos))
      → IsTransparent host (list_dir host v dir infos)
  unfolding list_dir
  list_dir-IsTransparent v dir infos h = elim (Result-cases (host.open_file (host_path dir))) [
    | inl (e, o) ↦ rw (o, list_dir) (pure-IsTransparent host _)
    | inr (f, o) ↦
        rw (o, list_dir)
          (>>=-IsTransparent host (fold v (flatten (map sort_strings f.batches)) infos)
            (λ infos'. pure (listing infos' (unless_eof f.batches_end)))
            (fold-IsTransparent host v (flatten (map sort_strings f.batches)) infos h)
            (λ infos'. pure-IsTransparent host _))
  ]

  pub make_host_dir_files_info_verbose-IsTransparent :
      (fuel level : ℕ) (dir : Bytes) (infos : List FileInfo)
      → IsTransparent host (make_host_dir_files_info_verbose host fuel level dir infos)
  unfolding make_host_dir_files_info_verbose
  make_host_dir_files_info_verbose-IsTransparent zero level dir infos = pure-IsTransparent host _
  make_host_dir_files_info_verbose-IsTransparent (suc fuel) level dir infos =
      list_dir-IsTransparent
        (visit host (make_host_dir_files_info_verbose host fuel (suc level)) level dir) dir infos
        (λ name infos'.
          visit-IsTransparent (make_host_dir_files_info_verbose host fuel (suc level)) level dir
            name infos' (make_host_dir_files_info_verbose-IsTransparent fuel (suc level)))

  pub host_dir_files_info-IsTransparent :
      (dir : Bytes) → IsTransparent host (host_dir_files_info host dir)
  unfolding host_dir_files_info
  host_dir_files_info-IsTransparent dir =
      >>=-IsTransparent host (make_host_dir_files_info_verbose host max_recursion_depth 0 dir [])
        (λ l. pure (l.returned, l.error))
        (make_host_dir_files_info_verbose-IsTransparent max_recursion_depth 0 dir [])
        (λ l. pure-IsTransparent host (l.returned, l.error))
