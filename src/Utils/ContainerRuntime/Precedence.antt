-- ===== src/Utils/ContainerRuntime/Precedence.antt =====
-- Which configuration file of a container runtime tells the CNI directory.
use host_scanner.Prelude.{
  ◌≡◌, refl, sym, ap, ◌∙◌, ◌++◌, append-nil, inl, inr, Option, none, some, List, [], ◌∷◌, map,
  Option-cases, find_map,
}
use mathlib.Core.List.{Perm}
use host_scanner.Prelude.Bytes.{Bytes}
use host_scanner.Prelude.FilePath.{path_join}
use host_scanner.Prelude.Sorting.{
  sort_descending, IsDescending, sort_descending-perm, sort_descending-IsDescending,
}
use host_scanner.GoError.{ok}
use host_scanner.Host.{Host}
use host_scanner.Utils.ContainerRuntime.{
  or_else, parsed_dir, get_config_path, get_config_dir_path, with_config_path,
  get_cni_config_dir_from_config_paths, drop_in_files, get_cni_config_dir_from_config,
  get_cni_config_dir_from_process, get_cni_config_dir,
}
use host_scanner.Utils.RuntimeNames.{ContainerRuntimeInfo}

abbrev pub or_nil : Option Bytes → Bytes
or_nil none = []
or_nil (some dir) = dir

-- A path as a list, which is empty if the path is.
abbrev pub given : Bytes → List Bytes
given [] = []
given (c ∷ path) = (c ∷ path) ∷ []

module _ (cr : ContainerRuntimeInfo) where
  -- The search along the paths gives the directory of the first file that tells one.
  pub from_config_paths-find_map :
      (ps : List Bytes)
      → get_cni_config_dir_from_config_paths cr ps ≡ or_nil (find_map (parsed_dir cr) ps)
  unfolding get_cni_config_dir_from_config_paths find_map
  from_config_paths-find_map [] = refl
  from_config_paths-find_map (p ∷ ps) = elim (Option-cases (parsed_dir cr p)) [
    | inl e ↦ rw (e, get_cni_config_dir_from_config_paths, find_map) (from_config_paths-find_map ps)
    | inr (dir, e) ↦ rw (e, get_cni_config_dir_from_config_paths, find_map) refl
  ]

  with_config_path-given :
      (files : List Bytes) (path : Bytes) → with_config_path cr files path ≡ files ++ given path
  with_config_path-given files [] = sym (append-nil files)
  with_config_path-given files (c ∷ path) = refl

  -- If the drop-in directory can be read, the directory is the value of the process's flag, or else
  -- that of the first file that tells one along a list: the drop-in files, each once, in descending
  -- order, then the configuration file.
  pub get_cni_config_dir_precedence :
      (host : Host) (names : List Bytes)
      → host.read_dir (get_config_dir_path cr) ≡ ok names
      → (files : List Bytes) × Perm files
          (map (λ name. path_join (get_config_dir_path cr ∷ name ∷ [])) names)
        × IsDescending files
        × (get_cni_config_dir cr host
            ≡ or_else
                (get_cni_config_dir_from_process cr)
                (or_nil (find_map (parsed_dir cr) (files ++ given (get_config_path cr)))))
  unfolding get_cni_config_dir get_cni_config_dir_from_config drop_in_files
  get_cni_config_dir_precedence host names h =
      let joined = map (λ name. path_join (get_config_dir_path cr ∷ name ∷ [])) names in
      let files = sort_descending joined in
      (
        files,
        sort_descending-perm joined,
        sort_descending-IsDescending joined,
        rw (h, drop_in_files)
            (ap (or_else (get_cni_config_dir_from_process cr)) (
              from_config_paths-find_map (with_config_path cr files (get_config_path cr))
              ∙ ap (λ ps. or_nil (find_map (parsed_dir cr) ps))
                  (with_config_path-given files (get_config_path cr)))),
      )
