-- ===== src/Utils/Service/Laws.antt =====
-- Where the files of the kubelet's service are looked for.
use host_scanner.Prelude.{◌≡◌, refl, subst, sym, inl, inr, ◌⊎◌, List, [], ◌∷◌, ◌++◌, map}
use host_scanner.Prelude.Bytes.{Bytes, codes}
use host_scanner.Prelude.FilePath.{path_join}
use host_scanner.Prelude.Int.{ℤ}
use host_scanner.GoError.{GoError, ok, err, Result-cases, ok-injective}
use host_scanner.Host.{Host, Stat}
use host_scanner.Utils.FileInfo.{host_path, host_file_system_default_location}
use host_scanner.Utils.ContainerRuntime.{or_else}
use host_scanner.Utils.Service.{
  systemd_pkg_dir, systemd_admin_dir, kubelet_systemd_service_config_dir, Dbus, to_u32,
  unit_name_by_pid, get_exists_path, get_service_files_by_pid_systemd, dir_of,
  get_kubelet_service_files,
}

module _ (host : Host) (dbus : Dbus) where
  -- A directory that can be stat'ed on the host.
  abbrev pub Exists : Bytes → Type 0
  Exists dir =
      (info : Stat) × (host.stat (path_join (host_file_system_default_location ∷ dir ∷ []))
        ≡ ok info)

  -- A drop-in directory of the unit of a process that exists.
  abbrev pub IsUnitDir : ℤ → Bytes → Type 0
  IsUnitDir pid dir =
      (unit : Bytes) × (unit_name_by_pid dbus (to_u32 pid) ≡ ok unit)
      × ((dir ≡ path_join (systemd_pkg_dir ∷ (unit ++ codes ".d") ∷ []))
          ⊎ (dir ≡ path_join (systemd_admin_dir ∷ (unit ++ codes ".d") ∷ [])))
      × Exists dir

  -- That, or the default.
  abbrev pub IsServiceDir : ℤ → Bytes → Type 0
  IsServiceDir pid dir = IsUnitDir pid dir ⊎ (dir ≡ kubelet_systemd_service_config_dir)

  or_default :
      (pid : ℤ) (dir : Bytes)
      → IsUnitDir pid dir
      → IsServiceDir pid (or_else dir kubelet_systemd_service_config_dir)
  or_default pid [] u = inr refl
  or_default pid (c ∷ dir) u = inl u

  existing-IsServiceDir :
      (pid : ℤ) (unit a b : Bytes)
      → unit_name_by_pid dbus (to_u32 pid) ≡ ok unit
      → a ≡ path_join (systemd_pkg_dir ∷ (unit ++ codes ".d") ∷ [])
      → b ≡ path_join (systemd_admin_dir ∷ (unit ++ codes ".d") ∷ [])
      → IsServiceDir pid (
          or_else
            (get_exists_path host host_file_system_default_location (a ∷ b ∷ []))
            kubelet_systemd_service_config_dir)
  unfolding get_exists_path
  existing-IsServiceDir pid unit a b u ea eb =
      let root = host_file_system_default_location in
      elim (Result-cases (host.stat (path_join (root ∷ a ∷ [])))) [
        | inr (info, s) ↦ rw (s, get_exists_path) (or_default pid a (unit, u, inl ea, (info, s)))
        | inl (e, s) ↦ elim (Result-cases (host.stat (path_join (root ∷ b ∷ [])))) [
          | inr (info, s') ↦
              rw (s, s', get_exists_path) (or_default pid b (unit, u, inr eb, (info, s')))
          | inl (e', s') ↦ rw (s, s', get_exists_path) (inr refl)
        ]
      ]

  no_unit :
      (pid : ℤ) (e : GoError)
      → unit_name_by_pid dbus (to_u32 pid) ≡ err e
      → get_service_files_by_pid_systemd host dbus pid ≡ err e
  unfolding get_service_files_by_pid_systemd
  no_unit pid e u = rw (u, get_service_files_by_pid_systemd) refl

  of_unit :
      (pid : ℤ) (unit : Bytes)
      → unit_name_by_pid dbus (to_u32 pid) ≡ ok unit
      → get_service_files_by_pid_systemd host dbus pid
        ≡ ok (
            get_exists_path host host_file_system_default_location (
              path_join (systemd_pkg_dir ∷ (unit ++ codes ".d") ∷ [])
              ∷ path_join (systemd_admin_dir ∷ (unit ++ codes ".d") ∷ [])
              ∷ []))
  unfolding get_service_files_by_pid_systemd
  of_unit pid unit u = rw (u, get_service_files_by_pid_systemd) refl

  service_dir :
      (pid : ℤ) → IsServiceDir pid (dir_of (get_service_files_by_pid_systemd host dbus pid))
  service_dir pid = elim (Result-cases (unit_name_by_pid dbus (to_u32 pid))) [
    | inl (e, u) ↦ subst (λ r. IsServiceDir pid (dir_of r)) (sym (no_unit pid e u)) (inr refl)
    | inr (unit, u) ↦
        subst (λ r. IsServiceDir pid (dir_of r)) (sym (of_unit pid unit u))
          (existing-IsServiceDir pid unit _ _ u refl refl)
  ]

  -- The service files of a kubelet are all entries of one directory of the host: a drop-in
  -- directory of the unit that systemd names for the process, which exists, or the default one.
  pub get_kubelet_service_files_sound :
      (pid : ℤ) (files : List Bytes)
      → get_kubelet_service_files host dbus pid ≡ ok files
      → (dir : Bytes) × (names : List Bytes) × IsServiceDir pid dir
        × (host.read_dir (host_path dir) ≡ ok names)
        × (files ≡ map (λ name. path_join (dir ∷ name ∷ [])) names)
  unfolding get_kubelet_service_files
  get_kubelet_service_files_sound pid files h =
      let dir = dir_of (get_service_files_by_pid_systemd host dbus pid) in
      elim (Result-cases (host.read_dir (host_path dir))) [
        | inl (e, r) ↦ absurd (cc (sym (rw (r, get_kubelet_service_files) at h)))
        | inr (names, r) ↦ (
          dir,
          names,
          service_dir pid,
          r,
          sym (ok-injective (rw (r, get_kubelet_service_files) at h)),
        )
      ]
