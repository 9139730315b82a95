-- ===== src/Sensor/ControlPlaneInfo.antt =====
-- sensor/controlplane.go: the names of processes, flags and files, and the structs that are filled.
use host_scanner.Prelude.{Bool, true, false, ◌&&◌, Option, none, some, List, [], ◌∷◌, if◌then◌else◌}
use host_scanner.Prelude.Bytes.{Bytes, codes}
use host_scanner.GoError.{GoError, failure}
use host_scanner.Utils.Process.{ProcessDetails, raw_cmd}
use host_scanner.Utils.FileInfo.{FileInfo}

abbrev pub api_server_exe : Bytes
api_server_exe = codes "/kube-apiserver"

abbrev pub controller_manager_exe : Bytes
controller_manager_exe = codes "/kube-controller-manager"

abbrev pub scheduler_exe : Bytes
scheduler_exe = codes "/kube-scheduler"

abbrev pub etcd_exe : Bytes
etcd_exe = codes "/etcd"

abbrev pub etcd_data_dir_arg : Bytes
etcd_data_dir_arg = codes "--data-dir"

abbrev pub api_encryption_provider_config_arg : Bytes
api_encryption_provider_config_arg = codes "--encryption-provider-config"

abbrev pub audit_policy_file_arg : Bytes
audit_policy_file_arg = codes "--audit-policy-file"

abbrev pub api_server_specs_path : Bytes
api_server_specs_path = codes "/etc/kubernetes/manifests/kube-apiserver.yaml"

abbrev pub controller_manager_specs_path : Bytes
controller_manager_specs_path = codes "/etc/kubernetes/manifests/kube-controller-manager.yaml"

abbrev pub controller_manager_config_path : Bytes
controller_manager_config_path = codes "/etc/kubernetes/controller-manager.conf"

abbrev pub scheduler_specs_path : Bytes
scheduler_specs_path = codes "/etc/kubernetes/manifests/kube-scheduler.yaml"

abbrev pub scheduler_config_path : Bytes
scheduler_config_path = codes "/etc/kubernetes/scheduler.conf"

abbrev pub etcd_config_path : Bytes
etcd_config_path = codes "/etc/kubernetes/manifests/etcd.yaml"

abbrev pub admin_config_path : Bytes
admin_config_path = codes "/etc/kubernetes/admin.conf"

abbrev pub pki_dir : Bytes
pki_dir = codes "/etc/kubernetes/pki"

abbrev pub err_data_dir_not_found : GoError
err_data_dir_not_found = failure (codes "failed to find etcd data-dir")

pub record K8sProcessInfo : Type 0 where
  pub specs_file : Option FileInfo
  pub config_file : Option FileInfo
  pub kube_config_file : Option FileInfo
  pub client_ca_file : Option FileInfo
  pub cmd_line : Bytes

pub record ApiServerInfo : Type 0 where
  pub encryption_provider_config_file : Option FileInfo
  pub audit_policy_file : Option FileInfo
  pub k8s_process_info : Option K8sProcessInfo

pub record ControlPlaneInfo : Type 0 where
  pub api_server_info : Option ApiServerInfo
  pub controller_manager_info : Option K8sProcessInfo
  pub scheduler_info : Option K8sProcessInfo
  pub etcd_config_file : Option FileInfo
  pub etcd_data_dir : Option FileInfo
  pub admin_config_file : Option FileInfo
  pub pki_dir_info : Option FileInfo
  pub pki_files : List FileInfo

-- Nil, or a list without a text.
abbrev pub is_nil {ℓ} : {A : Type ℓ} → Option A → Bool
is_nil none = true
is_nil (some a) = false

abbrev pub is_empty : Bytes → Bool
is_empty [] = true
is_empty (c ∷ s) = false

-- `ret == (K8sProcessInfo{})`
unfoldable pub is_zero_info : K8sProcessInfo → Bool
is_zero_info i =
    is_nil i.specs_file
    && is_nil i.config_file
    && is_nil i.kube_config_file
    && is_nil i.client_ca_file
    && is_empty i.cmd_line

-- Nil if there is no data at all.
unfoldable pub unless_zero : K8sProcessInfo → Option K8sProcessInfo
unless_zero i = if is_zero_info i then none else some i

abbrev pub raw_cmd_of : Option ProcessDetails → Bytes
raw_cmd_of none = []
raw_cmd_of (some p) = raw_cmd p

-- The structs, filled.
abbrev pub process_info :
    Option ProcessDetails
    → Option FileInfo
    → Option FileInfo
    → Option FileInfo
    → Option FileInfo
    → K8sProcessInfo
process_info p specs_file config_file kube_config_file client_ca_file = record {
  specs_file = specs_file;
  config_file = config_file;
  kube_config_file = kube_config_file;
  client_ca_file = client_ca_file;
  cmd_line = raw_cmd_of p;
}

abbrev pub api_server_info :
    Option K8sProcessInfo → Option FileInfo → Option FileInfo → ApiServerInfo
api_server_info info encryption audit = record {
  encryption_provider_config_file = encryption;
  audit_policy_file = audit;
  k8s_process_info = info;
}

abbrev pub gathered :
    Option ApiServerInfo
    → Option K8sProcessInfo
    → Option K8sProcessInfo
    → Option FileInfo
    → Option FileInfo
    → Option FileInfo
    → List FileInfo
    → Option FileInfo
    → ControlPlaneInfo
gathered api controller_manager scheduler etcd_config admin_config pki pki_files data_dir = record {
  api_server_info = api;
  controller_manager_info = controller_manager;
  scheduler_info = scheduler;
  etcd_config_file = etcd_config;
  etcd_data_dir = data_dir;
  admin_config_file = admin_config;
  pki_dir_info = pki;
  pki_files = pki_files;
}
