-- ===== src/Sensor/Verbose/Keeping.antt =====
-- The walk over the directories only adds to the list.
use mathlib.Core.List.{flatten}
use host_scanner.Prelude.{
  ℕ, zero, suc, ◌+◌, ◌==◌, inl, inr, Option, none, some, List, [], ◌∷◌, map, Any, Any-append_left,
  Bool-cases,
}
use host_scanner.Prelude.Bytes.{Bytes}
use host_scanner.Prelude.FilePath.{path_join}
use host_scanner.Prelude.Sorting.{sort_strings}
use host_scanner.GoError.{Result-cases}
use host_scanner.Host.{Host}
use host_scanner.Utils.Users.{Cache, M}
use host_scanner.Utils.FileInfo.{FileInfo, host_path}
use host_scanner.Sensor.Verbose.{
  Listing, max_recursion_depth, append_some, visit, visit_dir, visit_file, list_dir,
  make_host_dir_files_info_verbose,
}
use host_scanner.Sensor.Verbose.Listed.{fold-preserves}

append_some-Any :
    (Q : FileInfo → Type 0) (infos : List FileInfo) (o : Option FileInfo)
    → Any Q infos
    → Any Q (append_some infos o)
append_some-Any Q infos none a = a
append_some-Any Q infos (some info) a = Any-append_left Q (info ∷ []) a

module _ (host : Host) where
  module _ (Q : FileInfo → Type 0) where
    -- The walk only adds infos.
    visit_file-Any :
        (path : Bytes) (infos : List FileInfo) (cache : Cache)
        → Any Q infos
        → Any Q (visit_file host path infos cache).0
    unfolding visit_file
    visit_file-Any path infos cache a = append_some-Any Q infos _ a

    visit_dir-Any :
        (walk : Bytes → List FileInfo → M Listing) (level : ℕ) (path : Bytes)
        → ((infos : List FileInfo) (cache : Cache)
            → Any Q infos
            → Any Q (walk path infos cache).0.file_infos)
        → (infos : List FileInfo) (cache : Cache) → Any Q infos
        → Any Q (visit_dir host walk level path infos cache).0
    unfolding visit_dir
    visit_dir-Any walk level path hw infos cache a =
        elim (Bool-cases (level + 1 == max_recursion_depth)) [
          | inl e ↦ rw (e, visit_dir) a
          | inr e ↦ rw (e, visit_dir) (hw infos cache a)
        ]

    pub visit-Any :
        (walk : Bytes → List FileInfo → M Listing) (level : ℕ) (dir name : Bytes)
        → ((path : Bytes) (infos : List FileInfo) (cache : Cache)
            → Any Q infos
            → Any Q (walk path infos cache).0.file_infos)
        → (infos : List FileInfo) (cache : Cache) → Any Q infos
        → Any Q (visit host walk level dir name infos cache).0
    unfolding visit
    visit-Any walk level dir name hw infos cache a =
        let path = path_join (dir ∷ name ∷ []) in
        elim (Result-cases (host.stat (host_path path))) [
          | inl (e, s) ↦ rw (s, visit) a
          | inr (stats, s) ↦ elim (Bool-cases stats.is_dir) [
            | inl d ↦ rw (s, d, visit) (visit_dir-Any walk level path (hw path) infos cache a)
            | inr d ↦ rw (s, d, visit) (visit_file-Any path infos cache a)
          ]
        ]

    pub walk-Any :
        (fuel level : ℕ) (dir : Bytes) (infos : List FileInfo) (cache : Cache)
        → Any Q infos
        → Any Q (make_host_dir_files_info_verbose host fuel level dir infos cache).0.file_infos
    unfolding make_host_dir_files_info_verbose list_dir
    walk-Any zero level dir infos cache a = a
    walk-Any (suc fuel) level dir infos cache a =
        elim (Result-cases (host.open_file (host_path dir))) [
          | inl (e, o) ↦ rw (o, list_dir) a
          | inr (f, o) ↦
              rw (o, list_dir)
                (fold-preserves (Any Q)
                  (visit host (make_host_dir_files_info_verbose host fuel (suc level)) level dir)
                  (λ name.
                    visit-Any (make_host_dir_files_info_verbose host fuel (suc level)) level dir
                      name (walk-Any fuel (suc level)))
                  (flatten (map sort_strings f.batches)) infos cache a)
        ]
