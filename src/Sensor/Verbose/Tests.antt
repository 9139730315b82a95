-- ===== src/Sensor/Verbose/Tests.antt =====
-- The theorems on the list of a directory at the files of a control plane node.
use mathlib.Core.List.{reverse, reverse_perm}
use mathlib.Core.List.Perm
use host_scanner.Prelude.{
  ◌≡◌, refl, ◌≤◌, List, [], ◌∷◌, All, Any, at_head, behind, map, length, arith,
}
use host_scanner.Prelude.Bytes.{Bytes, codes, bytes_eq, split, has_prefix}
use host_scanner.Prelude.FilePath.{path_join}
use host_scanner.GoError.{Result, ok, err}
use host_scanner.Host.{File}
use host_scanner.Utils.FileInfo.{host_path}
use host_scanner.Sensor.Samples.{host, directory, regular, pki}
use host_scanner.Sensor.Verbose.{
  max_recursion_depth, host_dir_files_info, make_host_dir_files_info_verbose,
}
use host_scanner.Sensor.Verbose.Below.{descend, LeadsToFile}
use host_scanner.Sensor.Verbose.Listed.{IsInfoOf, host_dir_files_info_sound}
use host_scanner.Sensor.Verbose.Complete.{host_dir_files_info_complete}
use host_scanner.Sensor.Verbose.Depth.{make_host_dir_files_info_verbose_enough}
use host_scanner.Sensor.Verbose.Order.{
  AreReordered, none_reordered, batch_reordered, IsReordered, same_error, same_file,
  host_dir_files_info_same,
}

host_dir_files_info_sound_example :
    All
      (λ info.
        (name : Bytes) × (names : List Bytes) × (length (name ∷ names) ≤ max_recursion_depth)
        × LeadsToFile host pki name names
        × IsInfoOf host (descend pki (name ∷ names)) info)
      (host_dir_files_info host pki []).0.0
host_dir_files_info_sound_example = host_dir_files_info_sound host pki []

host_dir_files_info_complete_example :
    Any (IsInfoOf host (descend pki (codes "ca.crt" ∷ []))) (host_dir_files_info host pki []).0.0
unfolding path_join host_path bytes_eq has_prefix split
host_dir_files_info_complete_example =
    host_dir_files_info_complete host pki (codes "ca.crt") [] [] (omega arith) (
      (directory (codes "ca.key" ∷ codes "ca.crt" ∷ []), refl, at_head (behind (at_head refl))),
      (regular, refl, refl),
    )

make_host_dir_files_info_verbose_enough_example :
    make_host_dir_files_info_verbose host max_recursion_depth 0
    ≡ make_host_dir_files_info_verbose host 25 0
make_host_dir_files_info_verbose_enough_example =
    make_host_dir_files_info_verbose_enough host max_recursion_depth 25 0 (omega arith)
      (omega arith) (omega arith)

-- The names of each batch the other way round.
abbrev reversed : Result File → Result File
reversed (err e) = err e
reversed (ok f) = ok (record f { batches = map reverse f.batches })

batches_reversed : (bs : List (List Bytes)) → AreReordered bs (map reverse bs)
batches_reversed [] = none_reordered
batches_reversed (b ∷ bs) = batch_reordered (Perm.symm (reverse_perm b)) (batches_reversed bs)

reversed-IsReordered : (r : Result File) → IsReordered r (reversed r)
reversed-IsReordered (err e) = same_error
reversed-IsReordered (ok f) = same_file (batches_reversed f.batches)

host_dir_files_info_same_example :
    host_dir_files_info host pki
    ≡ host_dir_files_info (record host { open_file = λ p. reversed (host.open_file p) }) pki
host_dir_files_info_same_example =
    host_dir_files_info_same host (λ p. reversed (host.open_file p))
      (λ p. reversed-IsReordered (host.open_file p)) pki
