-- ===== src/Sensor/ControlPlane/Shown.antt =====
-- Which contents of files the info of the control plane shows.
use host_scanner.Prelude.{
  ◌≡◌, refl, ◌∙◌, inl, inr, true, false, Option, none, some, [], ◌∷◌, All, All-map, Bool-cases, ◌⊎◌,
}
use host_scanner.Prelude.Bytes.{Bytes}
use host_scanner.GoError.{Result, ok, err}
use host_scanner.Host.{Host}
use host_scanner.Utils.Users.{Cache}
use host_scanner.Utils.Process.{ProcessDetails, get_arg, locate_process_by_exec_suffix}
use host_scanner.Utils.FileInfo.{FileInfo, host_path, make_containered_file_info}
use host_scanner.Utils.FileInfo.Laws.{make_file_info_sound}
use host_scanner.Sensor.Verbose.{make_host_file_info_verbose}
use host_scanner.Sensor.Verbose.Listed.{made, host_dir_files_info_sound}
use host_scanner.Sensor.EncryptionConfig.{Codecs}
use host_scanner.Sensor.ControlPlane.{
  unless_empty, make_process_info_verbose, make_api_server_encryption_provider_config_file,
  api_server_info_of, process_info_of, data_dir_info, with_files, control_plane_info, finds_nothing,
  if_found, not_a_control_plane, sense_control_plane_info,
}
use host_scanner.Sensor.ControlPlaneInfo.{
  ApiServerInfo, K8sProcessInfo, ControlPlaneInfo, is_zero_info, unless_zero, process_info,
  api_encryption_provider_config_arg, api_server_exe, pki_dir,
}
use host_scanner.Sensor.ControlPlane.Encryption.{IsRedacted, encryption_file-IsRedacted}

-- No content is shown.
abbrev pub IsBare : FileInfo → Type 0
IsBare info = info.content ≡ none

-- Nil, or what has the property.
abbrev pub Maybe : {A : Type 0} → (A → Type 0) → Option A → Type 0
Maybe P none = Unit
Maybe P (some a) = P a

pub record IsBareProcess (i : K8sProcessInfo) : Type 0 where
  pub specs_file : Maybe IsBare i.specs_file
  pub config_file : Maybe IsBare i.config_file
  pub kube_config_file : Maybe IsBare i.kube_config_file
  pub client_ca_file : Maybe IsBare i.client_ca_file

module _ (host : Host) (c : Codecs) where
  -- Printed from the document of the file that the API server names, without its secrets.
  pub record IsShown (shown : FileInfo) : Type 0 where
    pub process : ProcessDetails
    pub located : locate_process_by_exec_suffix host api_server_exe ≡ ok process
    pub path : Bytes
    pub flag : get_arg process api_encryption_provider_config_arg ≡ (path, true)
    pub cache : Cache
    pub read : FileInfo
    pub made : (make_containered_file_info host process path true cache).0 ≡ ok read
    pub redacted : IsRedacted c read shown

  pub record IsSafeApiServer (i : ApiServerInfo) : Type 0 where
    pub encryption_provider_config_file : Maybe IsShown i.encryption_provider_config_file
    pub k8s_process_info : Maybe IsBareProcess i.k8s_process_info

  -- The contents of the files are not shown, but for the configuration of the encryption without
  -- its secrets, and for the audit policy.
  pub record IsSafe (i : ControlPlaneInfo) : Type 0 where
    pub api_server_info : Maybe IsSafeApiServer i.api_server_info
    pub controller_manager_info : Maybe IsBareProcess i.controller_manager_info
    pub scheduler_info : Maybe IsBareProcess i.scheduler_info
    pub etcd_config_file : Maybe IsBare i.etcd_config_file
    pub etcd_data_dir : Maybe IsBare i.etcd_data_dir
    pub admin_config_file : Maybe IsBare i.admin_config_file
    pub pki_dir_info : Maybe IsBare i.pki_dir_info
    pub pki_files : All IsBare i.pki_files

  -- Something that the cache does not matter for is shown if it is there.
  of_cases : {A : Type 0} (P : A → Type 0) (o : Option A) → ((a : A) → o ≡ some a → P a) → Maybe P o
  of_cases P none h = tt
  of_cases P (some a) h = h a refl

  make_host-IsBare :
      (path : Bytes) (cache : Cache)
      → Maybe IsBare (make_host_file_info_verbose host path false cache).0
  make_host-IsBare path cache = of_cases IsBare _ λ info e.
      let (obj, q, _, _, same) = made host path cache info e in
      let (_, _, _, _, _, content) = make_file_info_sound host (host_path path) false obj q in
      same ∙ content

  unless_empty-IsBare :
      (path : Bytes) (cache : Cache) → Maybe IsBare (unless_empty host path cache).0
  unfolding unless_empty
  unless_empty-IsBare [] cache = tt
  unless_empty-IsBare (b ∷ path) cache = make_host-IsBare (b ∷ path) cache

  unless_zero-IsBareProcess :
      (i : K8sProcessInfo) → IsBareProcess i → Maybe IsBareProcess (unless_zero i)
  unfolding unless_zero
  unless_zero-IsBareProcess i h = elim (Bool-cases (is_zero_info i)) [
    | inl z ↦ rw z tt
    | inr z ↦ rw z h
  ]

  make_process_info_verbose-IsBareProcess :
      (p : Option ProcessDetails) (a b d e : Bytes) (cache : Cache)
      → Maybe IsBareProcess (make_process_info_verbose host p a b d e cache).0
  unfolding make_process_info_verbose
  make_process_info_verbose-IsBareProcess p a b d e cache =
      unless_zero-IsBareProcess (process_info p _ _ _ _) (record {
        specs_file = unless_empty-IsBare a _;
        config_file = unless_empty-IsBare b _;
        kube_config_file = unless_empty-IsBare d _;
        client_ca_file = unless_empty-IsBare e _;
      })

  process_info_of-IsBareProcess :
      (r : Result ProcessDetails) (a b : Bytes) (cache : Cache)
      → Maybe IsBareProcess (process_info_of host r a b cache).0
  unfolding process_info_of
  process_info_of-IsBareProcess (err e) a b cache = tt
  process_info_of-IsBareProcess (ok p) a b cache =
      make_process_info_verbose-IsBareProcess (some p) a b [] [] cache

  encryption-IsShown :
      (p : ProcessDetails) (cache : Cache)
      → locate_process_by_exec_suffix host api_server_exe ≡ ok p
      → Maybe IsShown (make_api_server_encryption_provider_config_file host c p cache).0
  encryption-IsShown p cache l = of_cases IsShown _ λ shown e.
      let (path, read, flag, made, redacted) = encryption_file-IsRedacted c host p cache shown e in
      record {
        process = p;
        located = l;
        path = path;
        flag = flag;
        cache = cache;
        read = read;
        made = made;
        redacted = redacted;
      }

  api_server_info_of-IsSafe :
      (r : Result ProcessDetails) (cache : Cache)
      → locate_process_by_exec_suffix host api_server_exe ≡ r
      → Maybe IsSafeApiServer (api_server_info_of host c r cache).0
  unfolding api_server_info_of
  api_server_info_of-IsSafe (err e) cache l = tt
  api_server_info_of-IsSafe (ok p) cache l = record {
    encryption_provider_config_file = encryption-IsShown p _ l;
    k8s_process_info = make_process_info_verbose-IsBareProcess (some p) _ [] [] [] cache;
  }

  data_dir_info-IsBare :
      (r : Result Bytes) (cache : Cache) → Maybe IsBare (data_dir_info host r cache).0
  unfolding data_dir_info
  data_dir_info-IsBare (err e) cache = tt
  data_dir_info-IsBare (ok dir) cache = make_host-IsBare dir cache

  control_plane_info-IsSafe : (cache : Cache) → IsSafe (control_plane_info host c cache).0
  unfolding control_plane_info with_files
  control_plane_info-IsSafe cache = record {
    api_server_info = api_server_info_of-IsSafe _ cache refl;
    controller_manager_info = process_info_of-IsBareProcess _ _ _ _;
    scheduler_info = process_info_of-IsBareProcess _ _ _ _;
    etcd_config_file = make_host-IsBare _ _;
    etcd_data_dir = data_dir_info-IsBare _ _;
    admin_config_file = make_host-IsBare _ _;
    pki_dir_info = make_host-IsBare _ _;
    pki_files =
        All-map _ IsBare (λ info h. let (_, _, _, _, i) = h in let (_, _, _, _, _, n) = i in n) _
          (host_dir_files_info_sound host pki_dir _);
  }

  -- What is told of the control plane shows no content of a file, but for the audit policy, and for
  -- the configuration of the encryption, whose secrets are overwritten; or it is the error that this
  -- is no control plane.
  pub sense_control_plane_info-IsSafe :
      (cache : Cache)
      → ((sense_control_plane_info host c cache).0 ≡ err not_a_control_plane)
        ⊎ ((info : ControlPlaneInfo) × ((sense_control_plane_info host c cache).0 ≡ ok info)
            × IsSafe info)
  unfolding sense_control_plane_info if_found
  sense_control_plane_info-IsSafe cache =
      let info = (control_plane_info host c cache).0 in
      elim (Bool-cases (finds_nothing info)) [
        | inl f ↦ inl (rw (f, if_found) refl)
        | inr f ↦ inr (info, rw (f, if_found) refl, control_plane_info-IsSafe cache)
      ]
