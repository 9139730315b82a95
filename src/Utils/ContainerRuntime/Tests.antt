-- ===== src/Utils/ContainerRuntime/Tests.antt =====
-- The theorems on the CNI configuration directory at a node where containerd runs.
use mathlib.Core.List.{Perm}
use host_scanner.Prelude.{◌≡◌, refl, true, [], ◌∷◌, ◌++◌, List, map, if◌then◌else◌, find_map}
use host_scanner.Prelude.Bytes.{Bytes, codes, bytes_eq, split, has_suffix, has_prefix}
use host_scanner.Prelude.FilePath.{path_join}
use host_scanner.Prelude.Int.{pos}
use host_scanner.Prelude.Sorting.{IsDescending}
use host_scanner.GoError.{eof, not_exist, ok, err}
use host_scanner.Host.{Host, File}
use host_scanner.Utils.Process.{ProcessDetails, get_arg, arg_kind}
use host_scanner.Utils.ContainerRuntime.{
  containerd_props, get_config_dir_path, get_config_path, parsed_dir, or_else, get_cni_config_dir,
  get_cni_config_dir_from_process, get_cni_config_path, cni_config_path_from_process,
}
use host_scanner.Utils.RuntimeNames.{DecodeFile, ContainerRuntimeInfo}
use host_scanner.Utils.ContainerRuntime.Endpoint.{get_cni_config_path_unix}
use host_scanner.Utils.ContainerRuntime.Precedence.{get_cni_config_dir_precedence, or_nil, given}

abbrev proc_dir : File
proc_dir = record {
  batches = (codes "self" ∷ codes "7" ∷ []) ∷ [];
  batches_end = eof;
  content = [];
  content_end = eof;
  info = err eof;
}

abbrev drop_in_dir : Bytes
drop_in_dir = codes "/host_fs/etc/containerd/containerd.conf.d"

abbrev host : Host
host = record {
  open_file = λ p. if bytes_eq p (codes "/proc") then ok proc_dir else err (not_exist p);
  stat = λ p. err (not_exist p);
  read_file = λ p.
      if bytes_eq p (codes "/proc/7/cmdline")
      then ok (codes "/usr/bin/containerd" ++ (0 ∷ []))
      else err (not_exist p);
  read_dir = λ p.
      if bytes_eq p drop_in_dir
      then ok (codes "10-a.toml" ∷ codes "20-b.toml" ∷ [])
      else err (not_exist p);
}

-- A decoder that finds the directory in one drop-in file only.
abbrev decode_file : DecodeFile
decode_file keys file =
    if has_suffix file (codes "/20-b.toml") then ok (codes "/opt/cni") else err (not_exist file)

-- A decoder that finds the key nowhere.
abbrev decode_nothing : DecodeFile
decode_nothing keys file = ok []

abbrev containerd : ProcessDetails
containerd = record { cmd_line = codes "/usr/bin/containerd" ∷ [] ∷ []; pid = pos 7 }

abbrev runtime : DecodeFile → ContainerRuntimeInfo
runtime decode = record {
  properties = containerd_props decode;
  process = containerd;
  root_dir = codes "/host_fs";
}

abbrev kubelet : Bytes → ProcessDetails
kubelet end_point = record {
  cmd_line = codes "kubelet" ∷ (codes "--container-runtime-endpoint=" ++ end_point) ∷ [] ∷ [];
  pid = pos 9;
}

abbrev unix_end_point : Bytes
unix_end_point = codes "unix:///run/containerd/containerd.sock"

get_cni_config_path_unix_example :
    get_cni_config_path decode_file host (kubelet unix_end_point)
    ≡ cni_config_path_from_process decode_file host
unfolding get_arg arg_kind has_prefix has_suffix
get_cni_config_path_unix_example =
    get_cni_config_path_unix decode_file host (kubelet unix_end_point)
      (codes "///run/containerd/containerd.sock") true refl refl refl

dir_read :
    host.read_dir (get_config_dir_path (runtime decode_file))
    ≡ ok (codes "10-a.toml" ∷ codes "20-b.toml" ∷ [])
unfolding get_arg arg_kind has_prefix bytes_eq split path_join get_config_dir_path containerd_props
dir_read = refl

get_cni_config_dir_precedence_example :
    (files : List Bytes) × Perm files (
      map
        (λ name. path_join (get_config_dir_path (runtime decode_file) ∷ name ∷ []))
        (codes "10-a.toml" ∷ codes "20-b.toml" ∷ []))
    × IsDescending files
    × (get_cni_config_dir (runtime decode_file) host
        ≡ or_else (get_cni_config_dir_from_process (runtime decode_file)) (
            or_nil (
              find_map
                (parsed_dir (runtime decode_file))
                (files ++ given (get_config_path (runtime decode_file))))))
get_cni_config_dir_precedence_example =
    get_cni_config_dir_precedence (runtime decode_file) host
      (codes "10-a.toml" ∷ codes "20-b.toml" ∷ []) dir_read
