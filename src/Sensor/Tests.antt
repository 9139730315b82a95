-- ===== src/Sensor/Tests.antt =====
-- The theorems on the sensors at a control plane node.
use mathlib.Core.List.{flatten}
use host_scanner.Prelude.{ℕ, if◌then◌else◌, ◌≡◌, refl, inl, some, List, [], ◌∷◌}
use host_scanner.Prelude.Bytes.{Bytes, codes, bytes_eq, split, has_suffix, has_prefix}
use host_scanner.Prelude.FilePath.{path_join}
use host_scanner.Prelude.Int.{pos, atoi, to_i32, format_int}
use host_scanner.Prelude.Dict.{lookup}
use host_scanner.GoError.{eof, not_exist, Result, ok, err}
use host_scanner.Sensor.Samples.{host, api_server, codecs, dbus, unmarshal}
use host_scanner.Host.{Host, File}
use host_scanner.Utils.Users.{
  Cache, get_user_name, get_group_name, cached_user, cached_group, lookup_username_by_uid,
  lookup_groupname_by_gid,
}
use host_scanner.Utils.Users.Caching.{IsRight, nil-IsRight}
use host_scanner.Utils.Process.{locate_process_by_exec_suffix, get_arg, arg_kind, root_dir}
use host_scanner.Utils.FileInfo.{
  FileInfo, host_path, make_containered_file_info, make_changed_root_file_info, make_file_info,
  get_file_permissions, get_file_unix_ownership, read_content,
}
use host_scanner.Sensor.Kubelet.{sense_kubelet_info, sense_kube_proxy_info}
use host_scanner.Sensor.Kubelet.Laws.{
  sense_kubelet_info-IsTransparent, sense_kube_proxy_info-IsTransparent,
}
use host_scanner.Sensor.ControlPlane.{
  make_api_server_encryption_provider_config_file, encryption_file_at, sense_control_plane_info,
}
use host_scanner.Sensor.ControlPlaneInfo.{ControlPlaneInfo, api_server_exe}
use host_scanner.Sensor.EncryptionConfig.{unmarshal_any, redacted_info}
use host_scanner.Sensor.ControlPlane.Found.{sense_control_plane_info_found}
use host_scanner.Sensor.OsRelease.{etc_dir_name, sense_os_release}
use host_scanner.Sensor.OsRelease.Laws.{sense_os_release_first}
use host_scanner.Sensor.Network.{
  sense_open_ports, proc_net_tcp_paths, proc_net_udp_paths, proc_net_icmp_paths,
}
use host_scanner.Sensor.Network.Laws.{all_ports, or_no_ports, sense_open_ports-all_ports}

-- The cache that a first request leaves.
abbrev cache : Cache
cache = (sense_kubelet_info host dbus unmarshal []).1

cache-IsRight : IsRight host cache
cache-IsRight = (sense_kubelet_info-IsTransparent host dbus unmarshal [] (nil-IsRight host)).1

sense_kube_proxy_info-IsTransparent_example :
    ((sense_kube_proxy_info host cache).0 ≡ (sense_kube_proxy_info host []).0)
    × IsRight host (sense_kube_proxy_info host cache).1
sense_kube_proxy_info-IsTransparent_example =
    sense_kube_proxy_info-IsTransparent host cache cache-IsRight

api_server_located : locate_process_by_exec_suffix host api_server_exe ≡ ok api_server
unfolding locate_process_by_exec_suffix bytes_eq atoi path_join split has_suffix to_i32
api_server_located = refl

sense_control_plane_info_found_example :
    (info : ControlPlaneInfo) × ((sense_control_plane_info host codecs cache).0 ≡ ok info)
sense_control_plane_info_found_example =
    sense_control_plane_info_found host codecs cache api_server_exe api_server (inl refl)
      api_server_located

abbrev shown : FileInfo
shown = record {
  ownership = record { err_text = []; uid = pos 0; gid = pos 0; username = []; groupname = [] };
  path = codes "/enc.yaml";
  content = some (codes "name: x");
  permissions = 384;
}

encryption_file_shown :
    (make_api_server_encryption_provider_config_file host codecs api_server []).0 ≡ some shown
unfolding make_api_server_encryption_provider_config_file encryption_file_at redacted_info
    unmarshal_any make_containered_file_info make_changed_root_file_info make_file_info
    get_file_permissions get_file_unix_ownership read_content get_arg arg_kind has_prefix bytes_eq
    path_join split root_dir get_user_name get_group_name cached_user cached_group
    lookup_username_by_uid lookup_groupname_by_gid format_int lookup
encryption_file_shown = refl

abbrev etc : File
etc = record {
  batches = (codes "passwd" ∷ []) ∷ (codes "os-release" ∷ codes "lsb-release" ∷ []) ∷ [];
  batches_end = eof;
  content = [];
  content_end = eof;
  info = err eof;
}

abbrev debian : Host
debian = record {
  open_file = λ p. ok etc;
  stat = λ p. err (not_exist p);
  read_file = λ p. ok (codes "text");
  read_dir = λ p. err (not_exist p);
}

sense_os_release_first_example :
    sense_os_release debian
    ≡ debian.read_file (host_path (path_join (etc_dir_name ∷ codes "os-release" ∷ [])))
unfolding flatten has_suffix
sense_os_release_first_example =
    sense_os_release_first debian etc (codes "passwd" ∷ []) (codes "os-release")
      (codes "lsb-release" ∷ []) refl refl (refl, tt) refl

-- The AppArmor profiles as before, and another text in all other files.
abbrev hardened_file : Bytes → Result Bytes
hardened_file p =
    if bytes_eq p (codes "/host_fs/sys/kernel/security/apparmor/profiles")
    then ok (codes "text")
    else ok (codes "SELINUX=enforcing")

-- Each byte of a file is a connection.
abbrev proc_net : Bytes → ℕ → List ℕ
proc_net bytes state = bytes

sense_open_ports-all_ports_example :
    ((sense_open_ports proc_net debian).tcp_ports
      ≡ or_no_ports proc_net debian (all_ports proc_net debian proc_net_tcp_paths))
    × ((sense_open_ports proc_net debian).udp_ports
        ≡ or_no_ports proc_net debian (all_ports proc_net debian proc_net_udp_paths))
    × ((sense_open_ports proc_net debian).icmp_ports
        ≡ or_no_ports proc_net debian (all_ports proc_net debian proc_net_icmp_paths))
sense_open_ports-all_ports_example = sense_open_ports-all_ports proc_net debian
