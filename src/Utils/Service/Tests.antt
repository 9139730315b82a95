-- ===== src/Utils/Service/Tests.antt =====
-- The files of the kubelet's service at one host.
use host_scanner.Prelude.{◌≡◌, refl, true, false, none, some, List, [], ◌∷◌, map, if◌then◌else◌}
use host_scanner.Prelude.Bytes.{Bytes, codes, bytes_eq, split}
use host_scanner.Prelude.FilePath.{path_join}
use host_scanner.Prelude.Int.{pos}
use host_scanner.GoError.{not_exist, ok, err}
use host_scanner.Host.{Host}
use host_scanner.Utils.FileInfo.{host_path}
use host_scanner.Utils.Service.{
  Dbus, get_kubelet_service_files, get_exists_path, get_service_files_by_pid_systemd,
  unit_name_by_pid, new_system_dbus_connection,
}
use host_scanner.Utils.Service.Laws.{IsServiceDir, get_kubelet_service_files_sound}

abbrev drop_in_dir : Bytes
drop_in_dir = codes "/host_fs/etc/systemd/system/kubelet.service.d"

abbrev host : Host
host = record {
  open_file = λ p. err (not_exist p);
  stat = λ p.
      if bytes_eq p drop_in_dir
      then ok (record { perm = 493; is_dir = true; is_regular = false; owner = some (0, 0) })
      else err (not_exist p);
  read_file = λ p. err (not_exist p);
  read_dir =
      λ p. if bytes_eq p drop_in_dir then ok (codes "10-kubeadm.conf" ∷ []) else err (not_exist p);
}

abbrev dbus : Dbus
dbus = record {
  dial = λ address. none;
  auth = none;
  hello = none;
  get_unit_name_by_pid = λ pid. ok (codes "kubelet.service");
}

abbrev found : List Bytes
found = codes "/etc/systemd/system/kubelet.service.d/10-kubeadm.conf" ∷ []

get_kubelet_service_files_sound_example :
    (dir : Bytes) × (names : List Bytes) × IsServiceDir host dbus (pos 9) dir
    × (host.read_dir (host_path dir) ≡ ok names)
    × (found ≡ map (λ name. path_join (dir ∷ name ∷ [])) names)
unfolding unit_name_by_pid new_system_dbus_connection get_kubelet_service_files
    get_service_files_by_pid_systemd get_exists_path path_join host_path bytes_eq split
get_kubelet_service_files_sound_example =
    get_kubelet_service_files_sound host dbus (pos 9) found refl
