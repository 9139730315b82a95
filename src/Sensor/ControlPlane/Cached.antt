-- ===== src/Sensor/ControlPlane/Cached.antt =====
-- The info of the control plane does not depend on the cache of names.
use host_scanner.Prelude.{◌≡◌, Bool, true, false, Option, none, some, [], ◌∷◌}
use host_scanner.Prelude.Bytes.{Bytes}
use host_scanner.GoError.{Result, ok, err}
use host_scanner.Host.{Host}
use host_scanner.Utils.Users.{Cache}
use host_scanner.Utils.Users.Caching.{IsRight}
use host_scanner.Utils.Process.{ProcessDetails, locate_process_by_exec_suffix, get_arg, root_dir}
use host_scanner.Utils.FileInfo.{make_containered_file_info}
use host_scanner.Utils.FileInfo.Laws.{make_changed_root_file_info-IsTransparent}
use host_scanner.Utils.Cached.Transparent.{IsTransparent, pure-IsTransparent, >>=-IsTransparent}
use host_scanner.Sensor.Verbose.Cached.{
  make_host_file_info_verbose-IsTransparent, make_containered_file_info_verbose-IsTransparent,
  host_dir_files_info-IsTransparent,
}
use host_scanner.Sensor.ControlPlane.{
  with_files, if_found, unless_empty, make_process_info_verbose, encryption_file_at,
  make_api_server_encryption_provider_config_file, audit_file_at, make_api_server_audit_policy_file,
  api_server_info_of, process_info_of, data_dir_info, control_plane_info, sense_control_plane_info,
  get_etcd_data_dir,
}
use host_scanner.Sensor.ControlPlaneInfo.{
  ApiServerInfo, K8sProcessInfo, unless_zero, process_info, api_server_info, gathered,
  api_server_exe, controller_manager_exe, scheduler_exe, controller_manager_specs_path,
  controller_manager_config_path, scheduler_specs_path, scheduler_config_path, etcd_config_path,
  admin_config_path, pki_dir, api_server_specs_path, api_encryption_provider_config_arg,
  audit_policy_file_arg,
}
use host_scanner.Sensor.EncryptionConfig.{Codecs, redacted_info}

module _ (host : Host) where
  unless_empty-IsTransparent : (path : Bytes) → IsTransparent host (unless_empty host path)
  unfolding unless_empty
  unless_empty-IsTransparent [] = pure-IsTransparent host none
  unless_empty-IsTransparent (c ∷ path) =
      make_host_file_info_verbose-IsTransparent host (c ∷ path) false

  make_process_info_verbose-IsTransparent :
      (p : Option ProcessDetails) (a b c d : Bytes)
      → IsTransparent host (make_process_info_verbose host p a b c d)
  unfolding make_process_info_verbose
  make_process_info_verbose-IsTransparent p a b c d =
      >>=-IsTransparent host _ _ (unless_empty-IsTransparent a) (λ s.
        >>=-IsTransparent host _ _ (unless_empty-IsTransparent b) (λ t.
          >>=-IsTransparent host _ _ (unless_empty-IsTransparent c) (λ u.
            >>=-IsTransparent host _ _ (unless_empty-IsTransparent d)
              (λ v. pure-IsTransparent host (unless_zero (process_info p s t u v))))))

  encryption_file_at-IsTransparent :
      (c : Codecs) (p : ProcessDetails) (a : Bytes × Bool)
      → IsTransparent host (encryption_file_at host c p a)
  unfolding encryption_file_at make_containered_file_info
  encryption_file_at-IsTransparent c p (path, false) = pure-IsTransparent host none
  encryption_file_at-IsTransparent c p (path, true) =
      >>=-IsTransparent host _ _
        (make_changed_root_file_info-IsTransparent host (root_dir p) path true)
        (λ r. pure-IsTransparent host (redacted_info c r))

  audit_file_at-IsTransparent :
      (p : ProcessDetails) (a : Bytes × Bool) → IsTransparent host (audit_file_at host p a)
  unfolding audit_file_at
  audit_file_at-IsTransparent p (path, false) = pure-IsTransparent host none
  audit_file_at-IsTransparent p (path, true) =
      make_containered_file_info_verbose-IsTransparent host p path true

  api_server_info_of-IsTransparent :
      (c : Codecs) (r : Result ProcessDetails) → IsTransparent host (api_server_info_of host c r)
  unfolding api_server_info_of make_api_server_encryption_provider_config_file
      make_api_server_audit_policy_file
  api_server_info_of-IsTransparent c (err e) = pure-IsTransparent host none
  api_server_info_of-IsTransparent c (ok p) =
      >>=-IsTransparent host _ _
        (make_process_info_verbose-IsTransparent (some p) api_server_specs_path [] [] [])
        (λ i.
          >>=-IsTransparent host _ _
            (encryption_file_at-IsTransparent c p (get_arg p api_encryption_provider_config_arg))
            (λ e.
              >>=-IsTransparent host _ _
                (audit_file_at-IsTransparent p (get_arg p audit_policy_file_arg))
                (λ a. pure-IsTransparent host (some (api_server_info i e a)))))

  process_info_of-IsTransparent :
      (r : Result ProcessDetails) (a b : Bytes) → IsTransparent host (process_info_of host r a b)
  unfolding process_info_of
  process_info_of-IsTransparent (err e) a b = pure-IsTransparent host none
  process_info_of-IsTransparent (ok p) a b =
      make_process_info_verbose-IsTransparent (some p) a b [] []

  data_dir_info-IsTransparent : (r : Result Bytes) → IsTransparent host (data_dir_info host r)
  unfolding data_dir_info
  data_dir_info-IsTransparent (err e) = pure-IsTransparent host none
  data_dir_info-IsTransparent (ok dir) = make_host_file_info_verbose-IsTransparent host dir false

  with_files-IsTransparent :
      (api : Option ApiServerInfo) (cm sc : Option K8sProcessInfo)
      → IsTransparent host (with_files host api cm sc)
  unfolding with_files
  with_files-IsTransparent api cm sc =
      >>=-IsTransparent host _ _
        (make_host_file_info_verbose-IsTransparent host etcd_config_path false)
        (λ etcd.
          >>=-IsTransparent host _ _
            (make_host_file_info_verbose-IsTransparent host admin_config_path false)
            (λ admin.
              >>=-IsTransparent host _ _
                (make_host_file_info_verbose-IsTransparent host pki_dir false)
                (λ pki.
                  >>=-IsTransparent host _ _ (host_dir_files_info-IsTransparent host pki_dir)
                    (λ files.
                      >>=-IsTransparent host _ _
                        (data_dir_info-IsTransparent (get_etcd_data_dir host))
                        (λ dir.
                          pure-IsTransparent host
                            (gathered api cm sc etcd admin pki files.0 dir))))))

  control_plane_info-IsTransparent : (c : Codecs) → IsTransparent host (control_plane_info host c)
  unfolding control_plane_info
  control_plane_info-IsTransparent c =
      >>=-IsTransparent host _ _
        (api_server_info_of-IsTransparent c (locate_process_by_exec_suffix host api_server_exe))
        (λ api.
          >>=-IsTransparent host _ _
            (process_info_of-IsTransparent
              (locate_process_by_exec_suffix host controller_manager_exe)
              controller_manager_specs_path controller_manager_config_path)
            (λ cm.
              >>=-IsTransparent host _ _
                (process_info_of-IsTransparent (locate_process_by_exec_suffix host scheduler_exe)
                  scheduler_specs_path scheduler_config_path)
                (λ sc. with_files-IsTransparent api cm sc)))

  -- What is told of the control plane does not depend on the names that a right cache holds, and
  -- the cache stays right.
  pub sense_control_plane_info-IsTransparent :
      (c : Codecs) (cache : Cache)
      → IsRight host cache
      → ((sense_control_plane_info host c cache).0 ≡ (sense_control_plane_info host c []).0)
        × IsRight host (sense_control_plane_info host c cache).1
  unfolding sense_control_plane_info
  sense_control_plane_info-IsTransparent c =
      >>=-IsTransparent host _ _ (control_plane_info-IsTransparent c)
        (λ info. pure-IsTransparent host (if_found info))
