-- ===== src/Sensor/Verbose.antt =====
-- sensor/verboseutils.go: file infos without errors, and those of the files of a directory.
pub mod Below
pub mod Listed
pub mod Depth
pub mod Keeping
pub mod Complete
pub mod Order
mod Tests
pub mod Cached
use mathlib.Core.List.{flatten}
use host_scanner.Prelude.{
  ℕ, zero, suc, ◌+◌, ◌==◌, Bool, true, false, Option, none, some, List, [], ◌∷◌, ◌++◌, map,
  if◌then◌else◌,
}
use host_scanner.Prelude.Bytes.{Bytes, codes}
use host_scanner.Prelude.FilePath.{path_join}
use host_scanner.Prelude.Sorting.{sort_strings}
use host_scanner.GoError.{GoError, wrap, is_eof, Result, ok, err, get_ok}
use host_scanner.Host.{Host}
use host_scanner.Utils.Users.{M}
use host_scanner.Utils.Process.{ProcessDetails, root_dir}
use host_scanner.Utils.FileInfo.{
  FileInfo, host_path, make_changed_root_file_info, host_file_system_default_location,
}
use host_scanner.Utils.Cached.{◌>>=◌, ◌>>◌, pure, fold, first_some}

abbrev pub max_recursion_depth : ℕ
max_recursion_depth = 10

-- `*fileInfos = append(*fileInfos, fileInfo)` unless the info is nil.
abbrev pub append_some : List FileInfo → Option FileInfo → List FileInfo
append_some infos none = infos
append_some infos (some info) = infos ++ (info ∷ [])

-- The error behind the loop: the end of the directory is none.
unfoldable pub unless_eof : GoError → Option GoError
unless_eof e = if is_eof e then none else some e

-- What `makeHostDirFilesInfoVerbose` leaves in `*fileInfos`, and its two results.
pub record Listing : Type 0 where
  pub file_infos : List FileInfo
  pub returned : List FileInfo
  pub error : Option GoError

-- The results when the directory could be opened.
abbrev pub listing : List FileInfo → Option GoError → Listing
listing infos e = record { file_infos = infos; returned = infos; error = e }

module _ (host : Host) where
  -- A nil info is `none`; the error is only logged.
  unfoldable pub make_changed_root_file_info_verbose : Bytes → Bytes → Bool → M (Option FileInfo)
  make_changed_root_file_info_verbose root path want_content =
      make_changed_root_file_info host root path want_content >>= λ r. pure (get_ok r)

  unfoldable pub make_host_file_info_verbose : Bytes → Bool → M (Option FileInfo)
  make_host_file_info_verbose =
      make_changed_root_file_info_verbose host_file_system_default_location

  unfoldable pub make_containered_file_info_verbose :
      ProcessDetails → Bytes → Bool → M (Option FileInfo)
  make_containered_file_info_verbose p = make_changed_root_file_info_verbose (root_dir p)

  unfoldable pub make_containered_file_info_from_list_verbose :
      ProcessDetails → List Bytes → Bool → M (Option FileInfo)
  make_containered_file_info_from_list_verbose p paths want_content =
      first_some (λ path. make_changed_root_file_info_verbose (root_dir p) path want_content) paths

  -- A directory in a directory: it is listed one level below, unless that is too deep, and its own
  -- info is made and dropped.
  unfoldable pub visit_dir :
      (Bytes → List FileInfo → M Listing) → ℕ → Bytes → List FileInfo → M (List FileInfo)
  visit_dir walk level file_path infos =
      if level + 1 == max_recursion_depth
      then pure infos
      else walk file_path infos >>= λ l.
          make_host_file_info_verbose file_path false >> pure l.file_infos

  unfoldable pub visit_file : Bytes → List FileInfo → M (List FileInfo)
  visit_file file_path infos =
      make_host_file_info_verbose file_path false >>= λ info. pure (append_some infos info)

  -- One name of a directory at a level; `walk` lists a directory one level below.
  unfoldable pub visit :
      (Bytes → List FileInfo → M Listing) → ℕ → Bytes → Bytes → List FileInfo → M (List FileInfo)
  visit walk level dir name infos =
      let file_path = path_join (dir ∷ name ∷ []) in
      elim (host.stat (host_path file_path)) [
        | err e ↦ pure infos
        | ok stats ↦
            if stats.is_dir
            then visit_dir walk level file_path infos
            else visit_file file_path infos
      ]

  -- The directory itself: its names batch by batch, each batch sorted.
  unfoldable pub list_dir :
      (Bytes → List FileInfo → M (List FileInfo)) → Bytes → List FileInfo → M Listing
  list_dir visit_name dir infos = elim (host.open_file (host_path dir)) [
    | err e ↦ pure (record {
      file_infos = infos;
      returned = [];
      error = some (wrap (codes "failed to open dir at " ++ (dir ++ codes ": ")) e);
    })
    | ok f ↦ fold visit_name (flatten (map sort_strings f.batches)) infos >>= λ infos'.
        pure (listing infos' (unless_eof f.batches_end))
  ]

  -- The flag `recursive` of the source changes nothing and is left out. A level takes one fuel.
  unfoldable pub make_host_dir_files_info_verbose : ℕ → ℕ → Bytes → List FileInfo → M Listing
  make_host_dir_files_info_verbose zero level dir infos = pure (listing infos none)
  make_host_dir_files_info_verbose (suc fuel) level dir infos =
      list_dir (visit (make_host_dir_files_info_verbose fuel (suc level)) level dir) dir infos

  -- The call from outside: an empty list at level 0, with fuel for all levels.
  unfoldable pub host_dir_files_info : Bytes → M (List FileInfo × Option GoError)
  host_dir_files_info dir = make_host_dir_files_info_verbose max_recursion_depth 0 dir [] >>= λ l.
      pure (l.returned, l.error)
