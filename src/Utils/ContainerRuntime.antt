-- ===== src/Utils/ContainerRuntime.antt =====
-- sensor/internal/utils/containerruntime.go: the directory of the CNI configuration, from the
-- kubelet, from a container runtime's process, or from its configuration files.
pub mod Endpoint
pub mod Precedence
mod Tests
use host_scanner.Utils.RuntimeNames.{
  cni_default_config_dir, kubelet_container_runtime, kubelet_container_runtime_end_point,
  kubelet_cni_config_dir, containerd_container_runtime_name, crio_container_runtime_name,
  containerd_config_section, crio_sock, containerd_sock, cridockerd_sock, err_dockershim_rt,
  err_cri_not_found, DecodeFile, ContainerRuntimeProperties, ContainerRuntimeInfo,
}
use host_scanner.Prelude.{
  ℕ, Bool, true, false, not, ◌&&◌, ◌||◌, Option, none, some, List, [], ◌∷◌, ◌++◌, map,
  if◌then◌else◌,
}
use host_scanner.Prelude.Bytes.{Bytes, codes, bytes_eq, has_suffix}
use host_scanner.Prelude.FilePath.{path_join}
use host_scanner.Prelude.Sorting.{sort_descending}
use host_scanner.GoError.{GoError, failure, Result, ok, err, ◌>>=◌}
use host_scanner.Host.{Host}
use host_scanner.Utils.Process.{ProcessDetails, get_arg, locate_process_by_exec_suffix}
use host_scanner.Utils.FileInfo.{host_file_system_default_location}

-- The value of `GetArg`, with `ok` dropped.
abbrev pub arg_value : ProcessDetails → Bytes → Bytes
arg_value p name = (get_arg p name).0

-- `if a == "" { a = b }`.
abbrev pub or_else : Bytes → Bytes → Bytes
or_else [] b = b
or_else (c ∷ a) b = c ∷ a

module _ (cr : ContainerRuntimeInfo) where
  unfoldable pub get_config_dir_path : Bytes
  get_config_dir_path =
      or_else (arg_value cr.process cr.properties.config_dir_arg_name)
        (path_join (cr.root_dir ∷ cr.properties.default_config_dir ∷ []))

  unfoldable pub get_config_path : Bytes
  get_config_path = path_join (
      cr.root_dir
      ∷ or_else (arg_value cr.process cr.properties.config_arg_name)
          cr.properties.default_config_path
      ∷ [])

  -- What a file adds to the search: its directory, or nothing on an error or an empty value.
  unfoldable pub parsed_dir : Bytes → Option Bytes
  parsed_dir config_path = elim (cr.properties.parse_cni_from_config config_path) [
    | err e ↦ none
    | ok [] ↦ none
    | ok (c ∷ dir) ↦ some (c ∷ dir)
  ]

  unfoldable pub get_cni_config_dir_from_config_paths : List Bytes → Bytes
  get_cni_config_dir_from_config_paths [] = []
  get_cni_config_dir_from_config_paths (p ∷ ps) = elim (parsed_dir p) [
    | some dir ↦ dir
    | none ↦ get_cni_config_dir_from_config_paths ps
  ]

  -- The files of the drop-in directory in descending order; none if it cannot be read.
  unfoldable pub drop_in_files : Host → List Bytes
  drop_in_files host = elim (host.read_dir get_config_dir_path) [
    | err e ↦ []
    | ok names ↦ sort_descending (map (λ name. path_join (get_config_dir_path ∷ name ∷ [])) names)
  ]

  -- `append(files, configPath)` unless the path is empty.
  abbrev pub with_config_path : List Bytes → Bytes → List Bytes
  with_config_path files [] = files
  with_config_path files (c ∷ path) = files ++ ((c ∷ path) ∷ [])

  unfoldable pub get_cni_config_dir_from_config : Host → Bytes
  get_cni_config_dir_from_config host =
      get_cni_config_dir_from_config_paths (with_config_path (drop_in_files host) get_config_path)

  unfoldable pub get_cni_config_dir_from_process : Bytes
  get_cni_config_dir_from_process =
      if bytes_eq cr.properties.cni_config_dir_arg_name []
      then []
      else arg_value cr.process cr.properties.cni_config_dir_arg_name

  unfoldable pub get_cni_config_dir : Host → Bytes
  get_cni_config_dir host =
      or_else get_cni_config_dir_from_process (get_cni_config_dir_from_config host)

module _ (decode_file : DecodeFile) where
  unfoldable pub parse_cni_config_dir_from_config_containerd : Bytes → Result Bytes
  parse_cni_config_dir_from_config_containerd =
      decode_file
        (codes "plugins" ∷ containerd_config_section ∷ codes "cni" ∷ codes "conf_dir" ∷ [])

  unfoldable pub parse_cni_config_dir_from_config_crio : Bytes → Result Bytes
  parse_cni_config_dir_from_config_crio =
      decode_file (codes "crio" ∷ codes "network" ∷ codes "network_dir" ∷ [])

  unfoldable pub containerd_props : ContainerRuntimeProperties
  containerd_props = record {
    name = containerd_container_runtime_name;
    default_config_path = codes "/etc/containerd/config.toml";
    process_suffix = codes "/containerd";
    socket = codes "/containerd.sock";
    config_arg_name = codes "--config";
    config_dir_arg_name = [];
    default_config_dir = codes "/etc/containerd/containerd.conf.d";
    cni_config_dir_arg_name = [];
    parse_cni_from_config = parse_cni_config_dir_from_config_containerd;
  }

  unfoldable pub crio_props : ContainerRuntimeProperties
  crio_props = record {
    name = crio_container_runtime_name;
    default_config_path = codes "/etc/crio/crio.conf";
    process_suffix = codes "/crio";
    socket = codes "/crio.sock";
    config_arg_name = codes "--config";
    config_dir_arg_name = codes "--config-dir";
    default_config_dir = codes "/etc/crio/crio.conf.d";
    cni_config_dir_arg_name = codes "--cni-config-dir";
    parse_cni_from_config = parse_cni_config_dir_from_config_crio;
  }

  -- The `switch` on the kind.
  unfoldable pub props_of_kind : Bytes → Option ContainerRuntimeProperties
  props_of_kind kind =
      if bytes_eq kind containerd_container_runtime_name || bytes_eq kind containerd_sock
      then some containerd_props
      else if bytes_eq kind crio_container_runtime_name || bytes_eq kind crio_sock
      then some crio_props
      else none

  module _ (host : Host) where
    unfoldable pub new_container_runtime : Bytes → Result ContainerRuntimeInfo
    new_container_runtime kind = elim (props_of_kind kind) [
      | none ↦
          err (
            failure (codes "newContainerRuntime of kind '" ++ (kind ++ codes "' is not supported")))
      | some props ↦ elim (locate_process_by_exec_suffix host props.process_suffix) [
        | err e ↦
            err (
              failure (codes "newContainerRuntime - Failed to locate process for CRIKind " ++ kind))
        | ok p ↦ ok (record {
          properties = props;
          process = p;
          root_dir = host_file_system_default_location;
        })
      ]
    ]

    unfoldable pub get_container_runtime_from_process : Result ContainerRuntimeInfo
    get_container_runtime_from_process =
        elim (new_container_runtime containerd_container_runtime_name) [
          | ok cr ↦ ok cr
          | err e ↦ elim (new_container_runtime crio_container_runtime_name) [
            | ok cr ↦ ok cr
            | err e' ↦ err (
                failure
                  (codes "getContainerRuntimeFromProcess didnt find Container Runtime process"))
          ]
        ]

    -- Without an endpoint: the flag of the runtime tells the error.
    unfoldable pub no_endpoint : Bool → Bytes × Bool → GoError
    no_endpoint end_point_ok (cr, cr_ok) =
        if (not end_point_ok && not cr_ok) || not (bytes_eq cr (codes "remote"))
        then err_dockershim_rt
        else err_cri_not_found

    -- The endpoint, or that of containerd where cri-dockerd is used.
    unfoldable pub process_sock : Bytes → Bytes
    process_sock end_point =
        if has_suffix end_point cridockerd_sock then containerd_sock else end_point

    unfoldable pub cni_config_dir_from_endpoint : Bytes → Result Bytes
    cni_config_dir_from_endpoint end_point = do
      cr ← new_container_runtime (process_sock end_point)
      ok (get_cni_config_dir cr host)

    -- The endpoint and its `ok` decide.
    unfoldable pub from_end_point : ProcessDetails → Bytes × Bool → Result Bytes
    from_end_point proc ([], found) =
        err (no_endpoint found (get_arg proc kubelet_container_runtime))
    from_end_point proc (c ∷ end_point, found) = cni_config_dir_from_endpoint (c ∷ end_point)

    unfoldable pub cni_config_dir_from_kubelet : ProcessDetails → Result Bytes
    cni_config_dir_from_kubelet proc = elim (arg_value proc kubelet_cni_config_dir) [
      | c ∷ dir ↦ ok (c ∷ dir)
      | [] ↦ from_end_point proc (get_arg proc kubelet_container_runtime_end_point)
    ]

    -- The runtime that runs on the node, and the default where it tells nothing.
    unfoldable pub cni_config_path_from_process : Bytes
    cni_config_path_from_process = elim get_container_runtime_from_process [
      | err e ↦ cni_default_config_dir
      | ok cr ↦ or_else (get_cni_config_dir cr host) cni_default_config_dir
    ]

    unfoldable pub get_cni_config_path : ProcessDetails → Bytes
    get_cni_config_path kubelet_proc = elim (cni_config_dir_from_kubelet kubelet_proc) [
      | ok dir ↦ dir
      | err e ↦ cni_config_path_from_process
    ]
