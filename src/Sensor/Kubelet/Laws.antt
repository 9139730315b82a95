-- ===== src/Sensor/Kubelet/Laws.antt =====
-- The infos of the kubelet and of kube-proxy do not depend on the cache of names.
use host_scanner.Prelude.{◌≡◌, refl, inl, inr, Bool, true, false, none, List, [], ◌∷◌}
use host_scanner.Prelude.Bytes.{Bytes}
use host_scanner.GoError.{Result, ok, err, Result-cases}
use host_scanner.Host.{Host}
use host_scanner.Utils.Users.{Cache}
use host_scanner.Utils.Users.Caching.{IsRight}
use host_scanner.Utils.Process.{ProcessDetails, locate_process_by_exec_suffix, get_arg}
use host_scanner.Utils.Service.{Dbus, get_kubelet_service_files}
use host_scanner.Utils.Cached.{pure}
use host_scanner.Utils.Cached.Transparent.{
  IsTransparent, pure-IsTransparent, >>=-IsTransparent, fold-IsTransparent,
}
use host_scanner.Sensor.Verbose.{append_some, make_host_file_info_verbose}
use host_scanner.Sensor.Verbose.Cached.{
  make_host_file_info_verbose-IsTransparent, make_containered_file_info_verbose-IsTransparent,
  make_containered_file_info_from_list_verbose-IsTransparent,
}
use host_scanner.Sensor.Kubelet.{
  kubelet_info, kube_proxy_info, UnmarshalConfig, service_file_infos, flag_or_defaults, if_path,
  if_flag, make_kubelet_service_files_info, kubelet_info_of, sense_kubelet_info,
  locate_kubelet_process, kube_proxy_info_of, sense_kube_proxy_info, kube_proxy_exe,
  kubelet_config_arg_name, kubelet_config_default_path_list, kube_config_arg_name,
  kubelet_kube_config_default_path_list, ca_file_path, kubelet_client_ca_arg_name,
}

module _ (host : Host) where
  service_file_infos-IsTransparent :
      (r : Result (List Bytes)) → IsTransparent host (service_file_infos host r)
  unfolding service_file_infos
  service_file_infos-IsTransparent (err e) = pure-IsTransparent host []
  service_file_infos-IsTransparent (ok files) = fold-IsTransparent host _ files [] (λ file infos.
      >>=-IsTransparent host (make_host_file_info_verbose host file false)
        (λ info. pure (append_some infos info))
        (make_host_file_info_verbose-IsTransparent host file false)
        (λ info. pure-IsTransparent host (append_some infos info)))

  flag_or_defaults-IsTransparent :
      (p : ProcessDetails) (a : Bytes × Bool) (defaults : List Bytes)
      → IsTransparent host (flag_or_defaults host p a defaults)
  unfolding flag_or_defaults
  flag_or_defaults-IsTransparent p (path, true) defaults =
      make_containered_file_info_verbose-IsTransparent host p path true
  flag_or_defaults-IsTransparent p (path, false) defaults =
      make_containered_file_info_from_list_verbose-IsTransparent host p defaults true

  if_path-IsTransparent :
      (p : ProcessDetails) (path : Bytes) → IsTransparent host (if_path host p path)
  unfolding if_path
  if_path-IsTransparent p [] = pure-IsTransparent host none
  if_path-IsTransparent p (c ∷ path) =
      make_containered_file_info_verbose-IsTransparent host p (c ∷ path) false

  if_flag-IsTransparent :
      (p : ProcessDetails) (a : Bytes × Bool) → IsTransparent host (if_flag host p a)
  unfolding if_flag
  if_flag-IsTransparent p (path, true) =
      make_containered_file_info_verbose-IsTransparent host p path false
  if_flag-IsTransparent p (path, false) = pure-IsTransparent host none

  module _ (dbus : Dbus) (unmarshal : UnmarshalConfig) where
    kubelet_info_of-IsTransparent :
        (p : ProcessDetails) → IsTransparent host (kubelet_info_of host dbus unmarshal p)
    unfolding kubelet_info_of make_kubelet_service_files_info
    kubelet_info_of-IsTransparent p =
        >>=-IsTransparent host _ _
          (service_file_infos-IsTransparent (get_kubelet_service_files host dbus p.pid))
          (λ files.
            >>=-IsTransparent host _ _
              (flag_or_defaults-IsTransparent p (get_arg p kubelet_config_arg_name)
                kubelet_config_default_path_list)
              (λ config.
                >>=-IsTransparent host _ _
                  (flag_or_defaults-IsTransparent p (get_arg p kube_config_arg_name)
                    kubelet_kube_config_default_path_list)
                  (λ kube.
                    >>=-IsTransparent host _ _
                      (if_path-IsTransparent p
                        (ca_file_path unmarshal (get_arg p kubelet_client_ca_arg_name) config))
                      (λ ca. pure-IsTransparent host (ok (kubelet_info p files config kube ca))))))

    -- What is told of the kubelet does not depend on the names that the cache holds, as long as
    -- those are what the files of the host give, and the cache stays so.
    pub sense_kubelet_info-IsTransparent :
        (cache : Cache)
        → IsRight host cache
        → ((sense_kubelet_info host dbus unmarshal cache).0
            ≡ (sense_kubelet_info host dbus unmarshal []).0)
          × IsRight host (sense_kubelet_info host dbus unmarshal cache).1
    unfolding sense_kubelet_info
    sense_kubelet_info-IsTransparent = elim (Result-cases (locate_kubelet_process host)) [
      | inl (e, l) ↦ rw (l, sense_kubelet_info) (λ cache r. (refl, r))
      | inr (p, l) ↦ rw (l, sense_kubelet_info) (kubelet_info_of-IsTransparent p)
    ]

  kube_proxy_info_of-IsTransparent :
      (p : ProcessDetails) → IsTransparent host (kube_proxy_info_of host p)
  unfolding kube_proxy_info_of
  kube_proxy_info_of-IsTransparent p =
      >>=-IsTransparent host _ _ (if_flag-IsTransparent p (get_arg p kube_config_arg_name))
        (λ file. pure-IsTransparent host (ok (kube_proxy_info p file)))

  -- What is told of kube-proxy does not depend on the names that a right cache holds, and the cache
  -- stays right.
  pub sense_kube_proxy_info-IsTransparent :
      (cache : Cache)
      → IsRight host cache
      → ((sense_kube_proxy_info host cache).0 ≡ (sense_kube_proxy_info host []).0)
        × IsRight host (sense_kube_proxy_info host cache).1
  unfolding sense_kube_proxy_info
  sense_kube_proxy_info-IsTransparent =
      elim (Result-cases (locate_process_by_exec_suffix host kube_proxy_exe)) [
        | inl (e, l) ↦ rw (l, sense_kube_proxy_info) (λ cache r. (refl, r))
        | inr (p, l) ↦ rw (l, sense_kube_proxy_info) (kube_proxy_info_of-IsTransparent p)
      ]
