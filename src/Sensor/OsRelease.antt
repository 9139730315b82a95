-- ===== src/Sensor/OsRelease.antt =====
-- sensor/osrelease.go: the release of the system, the version of the kernel, and the status of the
-- security modules.
pub mod Laws
use host_scanner.Prelude.{Bool, true, false, Option, none, some, List, [], ◌∷◌, ◌++◌, if◌then◌else◌}
use host_scanner.Prelude.Bytes.{Bytes, codes, has_suffix}
use host_scanner.Prelude.FilePath.{path_join}
use host_scanner.GoError.{GoError, errorf, Result, ok, err, ◌>>=◌, map_error}
use host_scanner.Host.{Host, File}
use host_scanner.Utils.Process.{proc_dir_name}
use host_scanner.Utils.FileInfo.{host_path, read_file_on_host_file_system}

abbrev pub etc_dir_name : Bytes
etc_dir_name = codes "/etc"

abbrev pub os_release_file_suffix : Bytes
os_release_file_suffix = codes "os-release"

abbrev pub app_armor_profiles_file_name : Bytes
app_armor_profiles_file_name = codes "/sys/kernel/security/apparmor/profiles"

abbrev pub se_linux_config_file_name : Bytes
se_linux_config_file_name = codes "/etc/selinux/semanage.conf"

pub record LinuxSecurityHardeningStatus : Type 0 where
  pub app_armor : Bytes
  pub se_linux : Bytes

-- The first name of a batch that ends in `os-release`.
unfoldable pub release_in : List Bytes → Option Bytes
release_in [] = none
release_in (name ∷ names) =
    let rest = release_in names in
    if has_suffix name os_release_file_suffix then some name else rest

-- The loop over the batches; without a name the error that ended the listing, `io.EOF` included.
unfoldable pub release_in_batches : GoError → List (List Bytes) → Result Bytes
release_in_batches e [] = err e
release_in_batches e (names ∷ batches) = elim (release_in names) [
  | some name ↦ ok name
  | none ↦ release_in_batches e batches
]

-- The content of a file, if there is any, or another status.
unfoldable pub content_or : Bytes → Result Bytes → Bytes
content_or status (err e) = status
content_or status (ok []) = status
content_or status (ok (c ∷ content)) = c ∷ content

module _ (host : Host) where
  unfoldable pub get_os_release_file : Result Bytes
  get_os_release_file = elim (host.open_file (host_path etc_dir_name)) [
    | err e ↦ err (errorf (codes "failed to open etc dir: ") e)
    | ok etc ↦ release_in_batches etc.batches_end etc.batches
  ]

  unfoldable pub sense_os_release : Result Bytes
  sense_os_release = do
    name ← map_error (errorf (codes "failed to find os-release file: ")) get_os_release_file
    read_file_on_host_file_system host (path_join (etc_dir_name ∷ name ∷ []))

  unfoldable pub sense_kernel_version : Result Bytes
  sense_kernel_version =
      read_file_on_host_file_system host (path_join (proc_dir_name ∷ codes "version" ∷ []))

  unfoldable pub get_app_armor_status : Bytes
  get_app_armor_status = elim (host.open_file (host_path app_armor_profiles_file_name)) [
    | err e ↦ codes "unloaded"
    | ok f ↦
        content_or (codes "stopped")
          (read_file_on_host_file_system host app_armor_profiles_file_name)
  ]

  unfoldable pub get_se_linux_status : Bytes
  get_se_linux_status = elim (host.open_file (host_path se_linux_config_file_name)) [
    | err e ↦ codes "not found"
    | ok f ↦
        content_or (codes "not found")
          (read_file_on_host_file_system host app_armor_profiles_file_name)
  ]

  unfoldable pub sense_linux_security_hardening : LinuxSecurityHardeningStatus
  sense_linux_security_hardening = record {
    app_armor = get_app_armor_status;
    se_linux = get_se_linux_status;
  }
