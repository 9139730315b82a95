-- ===== src/Sensor/ControlPlane/Found.antt =====
-- A node on which a process of the control plane runs is told to be one.
use host_scanner.Prelude.{
  ◌≡◌, ◌≢◌, refl, subst, ap, ◌∙◌, inl, inr, ◌⊎◌, false, Option, none, some, List, [], ◌∷◌, arith,
}
use host_scanner.Prelude.Bytes.{Bytes, codes, join}
use host_scanner.GoError.{Result, ok}
use host_scanner.Host.{Host}
use host_scanner.Utils.Users.{Cache}
use host_scanner.Utils.Process.{ProcessDetails, locate_process_by_exec_suffix, raw_cmd}
use host_scanner.Utils.Process.Locate.{locate_process_by_exec_suffix_sound}
use host_scanner.Sensor.ControlPlane.{
  finds_nothing, if_found, make_process_info_verbose, api_server_info_of, process_info_of,
  with_files, control_plane_info, sense_control_plane_info,
}
use host_scanner.Sensor.ControlPlaneInfo.{
  ApiServerInfo, K8sProcessInfo, ControlPlaneInfo, is_nil, is_empty, is_zero_info, unless_zero,
  process_info, api_server_exe, controller_manager_exe, scheduler_exe,
  controller_manager_specs_path, controller_manager_config_path, scheduler_specs_path,
  scheduler_config_path,
}
use host_scanner.Sensor.EncryptionConfig.{Codecs}

join_given :
    (exec : Bytes) (args : List Bytes) (sep : Bytes)
    → exec ≢ []
    → is_empty (join (exec ∷ args) sep) ≡ false
unfolding join
join_given [] args sep h = absurd (h refl)
join_given (c ∷ s) [] sep h = refl
join_given (c ∷ s) (q ∷ ps) sep h = refl

module _ (host : Host) where
  raw_cmd_given :
      (suffix : Bytes) (p : ProcessDetails)
      → locate_process_by_exec_suffix host suffix ≡ ok p
      → is_empty (raw_cmd p) ≡ false
  unfolding raw_cmd
  raw_cmd_given suffix p h =
      let (name, i) = locate_process_by_exec_suffix_sound host suffix p h in
      ap (λ l. is_empty (join l (codes " "))) i.exec_first
      ∙ join_given i.exec i.args (codes " ") i.exec_given

  unless_zero_given : (i : K8sProcessInfo) → is_empty i.cmd_line ≡ false → unless_zero i ≡ some i
  unfolding unless_zero is_zero_info
  unless_zero_given i h = ground arith

  process_info_of_given :
      (suffix a b : Bytes) (p : ProcessDetails) (r : Result ProcessDetails) (cache : Cache)
      → r ≡ ok p
      → locate_process_by_exec_suffix host suffix ≡ ok p
      → is_nil (process_info_of host r a b cache).0 ≡ false
  unfolding process_info_of make_process_info_verbose
  process_info_of_given suffix a b p r cache e h =
      rw (e, process_info_of)
        (ap is_nil (unless_zero_given (process_info (some p) _ _ _ _) (raw_cmd_given suffix p h)))

  with_files_found :
      (api : Option ApiServerInfo) (cm sc : Option K8sProcessInfo) (cache : Cache)
      → (is_nil api ≡ false) ⊎ (is_nil cm ≡ false) ⊎ (is_nil sc ≡ false)
      → finds_nothing (with_files host api cm sc cache).0 ≡ false
  unfolding with_files finds_nothing
  with_files_found (some a) cm sc cache h = refl
  with_files_found none (some a) sc cache h = refl
  with_files_found none none (some a) cache h = refl
  with_files_found none none none cache (inl h) = absurd (cc)
  with_files_found none none none cache (inr (inl h)) = absurd (cc)
  with_files_found none none none cache (inr (inr h)) = absurd (cc)

  api_server_info_of_given :
      (c : Codecs) (p : ProcessDetails) (r : Result ProcessDetails) (cache : Cache)
      → r ≡ ok p
      → is_nil (api_server_info_of host c r cache).0 ≡ false
  unfolding api_server_info_of
  api_server_info_of_given c p r cache e = rw (e, api_server_info_of) refl

  finds_some :
      (c : Codecs) (cache : Cache) (exe : Bytes) (p : ProcessDetails)
      → (exe ≡ api_server_exe) ⊎ (exe ≡ controller_manager_exe) ⊎ (exe ≡ scheduler_exe)
      → locate_process_by_exec_suffix host exe ≡ ok p
      → finds_nothing (control_plane_info host c cache).0 ≡ false
  unfolding control_plane_info
  finds_some c cache exe p (inl e) h = with_files_found _ _ _ _ (
      inl (
        api_server_info_of_given c p (locate_process_by_exec_suffix host api_server_exe) cache
          (subst (λ x. locate_process_by_exec_suffix host x ≡ ok p) e h)))
  finds_some c cache exe p (inr (inl e)) h =
      let h' = subst (λ x. locate_process_by_exec_suffix host x ≡ ok p) e h in
      with_files_found _ _ _ _ (
        inr (
          inl (
            process_info_of_given controller_manager_exe controller_manager_specs_path
              controller_manager_config_path p
              (locate_process_by_exec_suffix host controller_manager_exe) _ h' h')))
  finds_some c cache exe p (inr (inr e)) h =
      let h' = subst (λ x. locate_process_by_exec_suffix host x ≡ ok p) e h in
      with_files_found _ _ _ _ (
        inr (
          inr (
            process_info_of_given scheduler_exe scheduler_specs_path scheduler_config_path p
              (locate_process_by_exec_suffix host scheduler_exe) _ h' h')))

  -- If the API server, the controller manager or the scheduler runs on the node, the info of the
  -- control plane is given, and not the error that this is no control plane.
  pub sense_control_plane_info_found :
      (c : Codecs) (cache : Cache) (exe : Bytes) (p : ProcessDetails)
      → (exe ≡ api_server_exe) ⊎ (exe ≡ controller_manager_exe) ⊎ (exe ≡ scheduler_exe)
      → locate_process_by_exec_suffix host exe ≡ ok p
      → (info : ControlPlaneInfo) × ((sense_control_plane_info host c cache).0 ≡ ok info)
  unfolding sense_control_plane_info if_found
  sense_control_plane_info_found c cache exe p e h =
      ((control_plane_info host c cache).0, rw (finds_some c cache exe p e h, if_found) refl)
