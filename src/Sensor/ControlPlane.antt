-- ===== src/Sensor/ControlPlane.antt =====
-- sensor/controlplane.go: what is told of the control plane. What is shown of the encryption
-- configuration is in Sensor.EncryptionConfig, the overwriting of secrets in Sensor.Redaction.
pub mod Encryption
pub mod Cached
pub mod Found
pub mod Shown
use host_scanner.Sensor.ControlPlaneInfo.{
  api_server_exe, controller_manager_exe, scheduler_exe, etcd_exe, etcd_data_dir_arg,
  api_encryption_provider_config_arg, audit_policy_file_arg, api_server_specs_path,
  controller_manager_specs_path, controller_manager_config_path, scheduler_specs_path,
  scheduler_config_path, etcd_config_path, admin_config_path, pki_dir, err_data_dir_not_found,
  K8sProcessInfo, ApiServerInfo, ControlPlaneInfo, is_nil, unless_zero, process_info,
  api_server_info, gathered,
}
use host_scanner.Prelude.{
  ℕ, Bool, true, false, not, ◌&&◌, ◌||◌, Option, none, some, List, [], ◌∷◌, ◌++◌, if◌then◌else◌,
}
use host_scanner.Prelude.Bytes.{Bytes, codes}
use host_scanner.GoError.{GoError, failure, wrap, sense, sense_error, no_error, Result, ok, err}
use host_scanner.Host.{Host}
use host_scanner.Utils.Users.{M}
use host_scanner.Utils.Process.{ProcessDetails, locate_process_by_exec_suffix, get_arg, raw_cmd}
use host_scanner.Utils.FileInfo.{FileInfo, make_containered_file_info}
use host_scanner.Utils.Cached.{◌>>=◌, pure}
use host_scanner.Sensor.Verbose.{
  make_host_file_info_verbose, make_containered_file_info_verbose, host_dir_files_info,
}
use host_scanner.Sensor.EncryptionConfig.{Codecs, redacted_info}
use host_scanner.Sensor.Redaction.{Fields, no_fields, remove_encryption_provider_config_secrets}

-- If none of these is there, this is not a control plane.
unfoldable pub finds_nothing : ControlPlaneInfo → Bool
finds_nothing i =
    is_nil i.api_server_info
    && is_nil i.controller_manager_info
    && is_nil i.scheduler_info
    && is_nil i.etcd_config_file
    && is_nil i.etcd_data_dir
    && is_nil i.admin_config_file

-- The error, with the status 200.
abbrev pub not_a_control_plane : GoError
not_a_control_plane =
    sense
      (sense_error no_error (codes "not a control plane node") (codes "SenseControlPlaneInfo") 200)

unfoldable pub if_found : ControlPlaneInfo → Result ControlPlaneInfo
if_found i = if finds_nothing i then err not_a_control_plane else ok i

module _ (host : Host) where
  unfoldable pub get_etcd_data_dir : Result Bytes
  get_etcd_data_dir = elim (locate_process_by_exec_suffix host etcd_exe) [
    | err e ↦ err (wrap (codes "failed to locate etcd process: ") e)
    | ok p ↦ data_dir_of (get_arg p etcd_data_dir_arg)
  ]
    where
      data_dir_of : Bytes × Bool → Result Bytes
      data_dir_of (dir, false) = err err_data_dir_not_found
      data_dir_of ([], true) = err err_data_dir_not_found
      data_dir_of (c ∷ dir, true) = ok (c ∷ dir)

  -- The info of a file, unless the path is empty.
  unfoldable pub unless_empty : Bytes → M (Option FileInfo)
  unless_empty [] = pure none
  unless_empty (c ∷ path) = make_host_file_info_verbose host (c ∷ path) false

  unfoldable pub make_process_info_verbose :
      Option ProcessDetails → Bytes → Bytes → Bytes → Bytes → M (Option K8sProcessInfo)
  make_process_info_verbose p specs_path config_path kube_config_path client_ca_path = do
    specs_file ← unless_empty specs_path
    config_file ← unless_empty config_path
    kube_config_file ← unless_empty kube_config_path
    client_ca_file ← unless_empty client_ca_path
    pure (unless_zero (process_info p specs_file config_file kube_config_file client_ca_file))

  -- Without the flag there is no file.
  unfoldable pub encryption_file_at : Codecs → ProcessDetails → Bytes × Bool → M (Option FileInfo)
  encryption_file_at c p (path, false) = pure none
  encryption_file_at c p (path, true) =
      make_containered_file_info host p path true >>= λ r. pure (redacted_info c r)

  unfoldable pub make_api_server_encryption_provider_config_file :
      Codecs → ProcessDetails → M (Option FileInfo)
  make_api_server_encryption_provider_config_file c p =
      encryption_file_at c p (get_arg p api_encryption_provider_config_arg)

  unfoldable pub audit_file_at : ProcessDetails → Bytes × Bool → M (Option FileInfo)
  audit_file_at p (path, false) = pure none
  audit_file_at p (path, true) = make_containered_file_info_verbose host p path true

  unfoldable pub make_api_server_audit_policy_file : ProcessDetails → M (Option FileInfo)
  make_api_server_audit_policy_file p = audit_file_at p (get_arg p audit_policy_file_arg)

  unfoldable pub api_server_info_of : Codecs → Result ProcessDetails → M (Option ApiServerInfo)
  api_server_info_of c (err e) = pure none
  api_server_info_of c (ok p) = do
    info ← make_process_info_verbose (some p) api_server_specs_path [] [] []
    encryption ← make_api_server_encryption_provider_config_file c p
    audit ← make_api_server_audit_policy_file p
    pure (some (api_server_info info encryption audit))

  -- A process with a specs and a config file; nil if it does not run.
  unfoldable pub process_info_of : Result ProcessDetails → Bytes → Bytes → M (Option K8sProcessInfo)
  process_info_of (err e) specs_path config_path = pure none
  process_info_of (ok p) specs_path config_path =
      make_process_info_verbose (some p) specs_path config_path [] []

  unfoldable pub data_dir_info : Result Bytes → M (Option FileInfo)
  data_dir_info (err e) = pure none
  data_dir_info (ok dir) = make_host_file_info_verbose host dir false

  -- The files, behind the processes.
  unfoldable pub with_files :
      Option ApiServerInfo → Option K8sProcessInfo → Option K8sProcessInfo → M ControlPlaneInfo
  with_files api_server controller_manager scheduler = do
    etcd_config ← make_host_file_info_verbose host etcd_config_path false
    admin_config ← make_host_file_info_verbose host admin_config_path false
    pki ← make_host_file_info_verbose host pki_dir false
    pki_files ← host_dir_files_info host pki_dir
    data_dir ← data_dir_info get_etcd_data_dir
    pure (
        gathered api_server controller_manager scheduler etcd_config admin_config pki pki_files.0
          data_dir)

  -- What is gathered, before it is asked whether anything was found.
  unfoldable pub control_plane_info : Codecs → M ControlPlaneInfo
  control_plane_info c = do
    api_server ← api_server_info_of c (locate_process_by_exec_suffix host api_server_exe)
    controller_manager ←
        process_info_of (locate_process_by_exec_suffix host controller_manager_exe)
          controller_manager_specs_path controller_manager_config_path
    scheduler ←
        process_info_of (locate_process_by_exec_suffix host scheduler_exe) scheduler_specs_path
          scheduler_config_path
    with_files api_server controller_manager scheduler

  unfoldable pub sense_control_plane_info : Codecs → M (Result ControlPlaneInfo)
  sense_control_plane_info c = control_plane_info c >>= λ info. pure (if_found info)
