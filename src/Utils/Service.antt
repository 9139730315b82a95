-- ===== src/Utils/Service.antt =====
-- sensor/internal/utils/service.go: the files of the kubelet's systemd service.
pub mod Laws
mod Tests
use host_scanner.Prelude.{ℕ, ◌-◌, ◌%◌, ◌^◌, Option, none, some, List, [], ◌∷◌, ◌++◌, map}
use host_scanner.Prelude.Bytes.{Bytes, codes}
use host_scanner.Prelude.FilePath.{path_join}
use host_scanner.Prelude.Int.{ℤ, pos, negsuc}
use host_scanner.GoError.{GoError, Result, ok, err, ◌>>=◌, get_ok}
use host_scanner.Host.{Host}
use host_scanner.Utils.FileInfo.{host_path, host_file_system_default_location}
use host_scanner.Utils.ContainerRuntime.{or_else}

abbrev pub systemd_pkg_dir : Bytes
systemd_pkg_dir = codes "/usr/lib/systemd/system/"

abbrev pub systemd_admin_dir : Bytes
systemd_admin_dir = codes "/etc/systemd/system/"

abbrev pub kubelet_systemd_service_config_dir : Bytes
kubelet_systemd_service_config_dir = systemd_admin_dir ++ codes "kubelet.service.d"

-- The packages godbus/dbus and coreos/go-systemd, which are not part of the program: the errors of
-- dialing an address, of `Auth` and of `Hello`, and the unit of a process over a connection.
pub record Dbus : Type 0 where
  pub dial : Bytes → Option GoError
  pub auth : Option GoError
  pub hello : Option GoError
  pub get_unit_name_by_pid : ℕ → Result Bytes

abbrev unless_failed {ℓ} : {A : Type ℓ} → Option GoError → Result A → Result A
unless_failed none r = r
unless_failed (some e) r = err e

-- A connection, or the first error on the way to it.
unfoldable pub new_system_dbus_connection : Dbus → Option GoError
new_system_dbus_connection dbus =
    first_error (dbus.dial (codes "unix:path=" ++ host_path (codes "/run/dbus/system_bus_socket")))
      (first_error dbus.auth dbus.hello)
  where
    first_error : Option GoError → Option GoError → Option GoError
    first_error (some e) rest = some e
    first_error none rest = rest

-- The unit of a process over a new connection.
unfoldable pub unit_name_by_pid : Dbus → ℕ → Result Bytes
unit_name_by_pid dbus pid =
    unless_failed (new_system_dbus_connection dbus) (dbus.get_unit_name_by_pid pid)

-- `uint32(pid)`
abbrev pub to_u32 : ℤ → ℕ
to_u32 (pos n) = n % 2 ^ 32
to_u32 (negsuc n) = 2 ^ 32 - 1 - n % 2 ^ 32

-- The directory that systemd tells; an error is only logged.
abbrev pub dir_of : Result Bytes → Bytes
dir_of (err e) = kubelet_systemd_service_config_dir
dir_of (ok dir) = or_else dir kubelet_systemd_service_config_dir

module _ (host : Host) where
  -- The first path that exists under a root directory; empty if none does.
  unfoldable pub get_exists_path : Bytes → List Bytes → Bytes
  get_exists_path root [] = []
  get_exists_path root (p ∷ ps) = elim (host.stat (path_join (root ∷ p ∷ []))) [
    | ok info ↦ p
    | err e ↦ get_exists_path root ps
  ]

  module _ (dbus : Dbus) where
    unfoldable pub get_service_files_by_pid_systemd : ℤ → Result Bytes
    get_service_files_by_pid_systemd pid = do
      unit_name ← unit_name_by_pid dbus (to_u32 pid)
      let unit_dir_name = unit_name ++ codes ".d"
      ok (
          get_exists_path host_file_system_default_location (
            path_join (systemd_pkg_dir ∷ unit_dir_name ∷ [])
            ∷ path_join (systemd_admin_dir ∷ unit_dir_name ∷ [])
            ∷ []))

    unfoldable pub get_kubelet_service_files : ℤ → Result (List Bytes)
    get_kubelet_service_files pid = do
      let config_dir = dir_of (get_service_files_by_pid_systemd pid)
      files ← host.read_dir (host_path config_dir)
      ok (map (λ name. path_join (config_dir ∷ name ∷ [])) files)
