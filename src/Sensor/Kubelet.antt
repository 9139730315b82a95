-- ===== src/Sensor/Kubelet.antt =====
-- sensor/kubelet.go and sensor/kubeproxy.go: what is told of the kubelet and of kube-proxy.
pub mod Laws
use host_scanner.Prelude.{ℕ, Bool, true, false, Option, none, some, List, [], ◌∷◌, ◌++◌}
use host_scanner.Prelude.Bytes.{Bytes, codes}
use host_scanner.GoError.{GoError, wrap, Result, ok, err, map_error, get_ok}
use host_scanner.Host.{Host}
use host_scanner.Utils.Users.{M}
use host_scanner.Utils.Process.{ProcessDetails, locate_process_by_exec_suffix, get_arg, raw_cmd}
use host_scanner.Utils.FileInfo.{FileInfo, read_file_on_host_file_system}
use host_scanner.Utils.Service.{Dbus, get_kubelet_service_files}
use host_scanner.Utils.Cached.{◌>>=◌, pure, fold}
use host_scanner.Sensor.Verbose.{
  append_some, make_host_file_info_verbose, make_containered_file_info_verbose,
  make_containered_file_info_from_list_verbose,
}

abbrev pub kubelet_process_suffix : Bytes
kubelet_process_suffix = codes "/kubelet"

abbrev pub kubelet_config_arg_name : Bytes
kubelet_config_arg_name = codes "--config"

abbrev pub kubelet_client_ca_arg_name : Bytes
kubelet_client_ca_arg_name = codes "--client-ca-file"

abbrev pub kube_config_arg_name : Bytes
kube_config_arg_name = codes "--kubeconfig"

abbrev pub kube_proxy_exe : Bytes
kube_proxy_exe = codes "kube-proxy"

abbrev pub kubelet_config_default_path_list : List Bytes
kubelet_config_default_path_list =
    codes "/var/lib/kubelet/config.yaml" ∷ codes "/etc/kubernetes/kubelet/kubelet-config.json" ∷ []

abbrev pub kubelet_kube_config_default_path_list : List Bytes
kubelet_kube_config_default_path_list =
    codes "/etc/kubernetes/kubelet.conf" ∷ codes "/var/lib/kubelet/kubeconfig" ∷ []

-- A nil list is empty: the code gives nil in place of an empty list.
pub record KubeletInfo : Type 0 where
  pub service_files : List FileInfo
  pub config_file : Option FileInfo
  pub kube_config_file : Option FileInfo
  pub client_ca_file : Option FileInfo
  pub cmd_line : Bytes

pub record KubeProxyInfo : Type 0 where
  pub kube_config_file : Option FileInfo
  pub cmd_line : Bytes

-- `ret`, filled.
abbrev pub kubelet_info :
    ProcessDetails
    → List FileInfo
    → Option FileInfo
    → Option FileInfo
    → Option FileInfo
    → KubeletInfo
kubelet_info p service_files config_file kube_config_file client_ca_file = record {
  service_files = service_files;
  config_file = config_file;
  kube_config_file = kube_config_file;
  client_ca_file = client_ca_file;
  cmd_line = raw_cmd p;
}

abbrev pub kube_proxy_info : ProcessDetails → Option FileInfo → KubeProxyInfo
kube_proxy_info p kube_config_file = record {
  kube_config_file = kube_config_file;
  cmd_line = raw_cmd p;
}

-- `yaml.Unmarshal` of the package sigs.k8s.io/yaml, which is not part of the program, into the
-- struct of `kubeletExtractCAFileFromConf`: the path of the client CA file, or an error.
abbrev pub UnmarshalConfig : Type 0
UnmarshalConfig = Bytes → Result Bytes

module _ (unmarshal : UnmarshalConfig) where
  unfoldable pub kubelet_extract_ca_file_from_conf : Bytes → Result Bytes
  kubelet_extract_ca_file_from_conf content =
      map_error (wrap (codes "failed to unmarshal kubelet config: ")) (unmarshal content)

  -- The path of the client CA file: the flag, or what the content of the configuration tells.
  unfoldable pub ca_file_path : Bytes × Bool → Option FileInfo → Bytes
  ca_file_path (path, true) config = path
  ca_file_path (path, false) none = path
  ca_file_path (path, false) (some config) = elim config.content [
    | none ↦ path
    | some content ↦ elim (kubelet_extract_ca_file_from_conf content) [
      | ok extracted ↦ extracted
      | err e ↦ path
    ]
  ]

module _ (host : Host) where
  unfoldable pub locate_kubelet_process : Result ProcessDetails
  locate_kubelet_process = locate_process_by_exec_suffix host kubelet_process_suffix

  unfoldable pub read_kubelet_config : Bytes → Result Bytes
  read_kubelet_config = read_file_on_host_file_system host

  -- The infos of the service files that can be made.
  unfoldable pub service_file_infos : Result (List Bytes) → M (List FileInfo)
  service_file_infos (err e) = pure []
  service_file_infos (ok files) =
      fold
        (λ file infos.
          make_host_file_info_verbose host file false >>= λ info. pure (append_some infos info))
        files []

  -- The file of a flag, or the first of the default paths that can be read.
  unfoldable pub flag_or_defaults : ProcessDetails → Bytes × Bool → List Bytes → M (Option FileInfo)
  flag_or_defaults p (path, true) defaults = make_containered_file_info_verbose host p path true
  flag_or_defaults p (path, false) defaults =
      make_containered_file_info_from_list_verbose host p defaults true

  unfoldable pub if_path : ProcessDetails → Bytes → M (Option FileInfo)
  if_path p [] = pure none
  if_path p (c ∷ path) = make_containered_file_info_verbose host p (c ∷ path) false

  unfoldable pub if_flag : ProcessDetails → Bytes × Bool → M (Option FileInfo)
  if_flag p (path, true) = make_containered_file_info_verbose host p path false
  if_flag p (path, false) = pure none

  module _ (dbus : Dbus) (unmarshal : UnmarshalConfig) where
    unfoldable pub make_kubelet_service_files_info : ProcessDetails → M (List FileInfo)
    make_kubelet_service_files_info p =
        service_file_infos (get_kubelet_service_files host dbus p.pid)

    unfoldable pub kubelet_info_of : ProcessDetails → M (Result KubeletInfo)
    kubelet_info_of p = do
      service_files ← make_kubelet_service_files_info p
      config_file ←
          flag_or_defaults p (get_arg p kubelet_config_arg_name) kubelet_config_default_path_list
      kube_config_file ←
          flag_or_defaults p (get_arg p kube_config_arg_name) kubelet_kube_config_default_path_list
      client_ca_file ←
          if_path p (ca_file_path unmarshal (get_arg p kubelet_client_ca_arg_name) config_file)
      pure (ok (kubelet_info p service_files config_file kube_config_file client_ca_file))

    unfoldable pub sense_kubelet_info : M (Result KubeletInfo)
    sense_kubelet_info = elim locate_kubelet_process [
      | err e ↦ pure (err (wrap (codes "failed to Locate kubelet process: ") e))
      | ok p ↦ kubelet_info_of p
    ]

  unfoldable pub kube_proxy_info_of : ProcessDetails → M (Result KubeProxyInfo)
  kube_proxy_info_of p = do
    kube_config_file ← if_flag p (get_arg p kube_config_arg_name)
    pure (ok (kube_proxy_info p kube_config_file))

  unfoldable pub sense_kube_proxy_info : M (Result KubeProxyInfo)
  sense_kube_proxy_info = elim (locate_process_by_exec_suffix host kube_proxy_exe) [
    | err e ↦ pure (err (wrap (codes "failed to locate kube-proxy process: ") e))
    | ok p ↦ kube_proxy_info_of p
  ]
