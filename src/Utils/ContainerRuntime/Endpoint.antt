-- ===== src/Utils/ContainerRuntime/Endpoint.antt =====
-- What `GetCNIConfigPath` makes of the kubelet's endpoint flag.
use host_scanner.Prelude.{◌≡◌, refl, sym, ◌∙◌, Bool, false, none, [], ◌∷◌, ◌++◌, subst}
use host_scanner.Prelude.Bytes.{Bytes, codes, bytes_eq, has_suffix}
use host_scanner.GoError.{GoError, failure, ok, err}
use host_scanner.Host.{Host}
use host_scanner.Utils.Process.{ProcessDetails, get_arg}
use host_scanner.Utils.ContainerRuntime.{
  arg_value, props_of_kind, new_container_runtime, process_sock, cni_config_dir_from_endpoint,
  from_end_point, cni_config_dir_from_kubelet, cni_config_path_from_process, get_cni_config_path,
  get_cni_config_dir,
}
use host_scanner.Utils.RuntimeNames.{
  DecodeFile, ContainerRuntimeInfo, kubelet_cni_config_dir, kubelet_container_runtime_end_point,
  cridockerd_sock,
}

abbrev not_supported : Bytes → GoError
not_supported kind =
    failure (codes "newContainerRuntime of kind '" ++ (kind ++ codes "' is not supported"))

module _ (decode_file : DecodeFile) (host : Host) (proc : ProcessDetails) where
  unix_not_supported : (s : Bytes) → props_of_kind decode_file (codes "unix:" ++ s) ≡ none
  unfolding props_of_kind bytes_eq
  unix_not_supported s = refl

  nil_not_supported : props_of_kind decode_file [] ≡ none
  unfolding props_of_kind bytes_eq
  nil_not_supported = refl

  nil_sock : process_sock decode_file host [] ≡ []
  unfolding process_sock has_suffix
  nil_sock = refl

  unsupported :
      (kind : Bytes)
      → props_of_kind decode_file kind ≡ none
      → new_container_runtime decode_file host kind ≡ err (not_supported kind)
  unfolding new_container_runtime
  unsupported kind h = rw (h, new_container_runtime) refl

  same_sock :
      (s : Bytes) → has_suffix s cridockerd_sock ≡ false → process_sock decode_file host s ≡ s
  unfolding process_sock
  same_sock s h = rw (h, process_sock) refl

  from_unix :
      (s : Bytes)
      → has_suffix (codes "unix:" ++ s) cridockerd_sock ≡ false
      → cni_config_dir_from_endpoint decode_file host (codes "unix:" ++ s)
        ≡ err (not_supported (codes "unix:" ++ s))
  unfolding cni_config_dir_from_endpoint
  from_unix s h =
      rw
        (
          same_sock (codes "unix:" ++ s) h,
          unsupported (codes "unix:" ++ s) (unix_not_supported s),
          cni_config_dir_from_endpoint,
        )
        refl

  -- If the kubelet has no directory flag, and its endpoint begins with `unix:` and is not that of
  -- cri-dockerd, then the endpoint plays no part: the path is that of the runtime whose process is
  -- found.
  pub get_cni_config_path_unix :
      (s : Bytes) (found : Bool)
      → arg_value proc kubelet_cni_config_dir ≡ []
      → get_arg proc kubelet_container_runtime_end_point ≡ (codes "unix:" ++ s, found)
      → has_suffix (codes "unix:" ++ s) cridockerd_sock ≡ false
      → get_cni_config_path decode_file host proc ≡ cni_config_path_from_process decode_file host
  unfolding get_cni_config_path cni_config_dir_from_kubelet from_end_point
  get_cni_config_path_unix s found a b h = rw (a, b, from_unix s h, get_cni_config_path) refl

  -- If the kubelet has no directory flag and its endpoint is that of a runtime which tells no
  -- directory, the path is empty: the default is not taken.
  pub get_cni_config_path_empty :
      (end_point : Bytes) (found : Bool) (cr : ContainerRuntimeInfo)
      → arg_value proc kubelet_cni_config_dir ≡ []
      → get_arg proc kubelet_container_runtime_end_point ≡ (end_point, found)
      → new_container_runtime decode_file host (process_sock decode_file host end_point) ≡ ok cr
      → get_cni_config_dir cr host ≡ []
      → get_cni_config_path decode_file host proc ≡ []
  unfolding get_cni_config_path cni_config_dir_from_kubelet from_end_point
      cni_config_dir_from_endpoint
  get_cni_config_path_empty [] found cr a b n d = absurd (
      let q = unsupported [] nil_not_supported in
      let n' = subst (λ k. new_container_runtime decode_file host k ≡ ok cr) nil_sock n in
      cc (sym q ∙ n'))
  get_cni_config_path_empty (c ∷ s) found cr a b n d = rw (a, b, n, d, get_cni_config_path) refl
