-- ===== src/Sensor/Cni/Laws.antt =====
-- The network plugins: the names that are given, and that the cache of names changes nothing.
use host_scanner.Prelude.{◌≡◌, inl, inr, [], ◌∷◌}
use host_scanner.Prelude.Bytes.{Bytes}
use host_scanner.GoError.{ok, err, Result-cases}
use host_scanner.Host.{Host}
use host_scanner.Utils.Users.{Cache}
use host_scanner.Utils.Users.Caching.{IsRight}
use host_scanner.Utils.ContainerRuntime.{get_cni_config_path}
use host_scanner.Utils.RuntimeNames.{DecodeFile}
use host_scanner.Utils.Cached.Transparent.{IsTransparent, pure-IsTransparent, >>=-IsTransparent}
use host_scanner.Sensor.Verbose.Cached.{host_dir_files_info-IsTransparent}
use host_scanner.Sensor.Kubelet.{locate_kubelet_process}
use host_scanner.Sensor.Cni.{
  cni_info, listing_or_error, files_in, make_cni_config_files_info, sense_cni_info,
}

module _ (host : Host) (decode_file : DecodeFile) where
  files_in-IsTransparent : (dir : Bytes) → IsTransparent host (files_in host decode_file dir)
  unfolding files_in
  files_in-IsTransparent [] = pure-IsTransparent host _
  files_in-IsTransparent (c ∷ dir) =
      >>=-IsTransparent host _ _ (host_dir_files_info-IsTransparent host (c ∷ dir))
        (λ r. pure-IsTransparent host (listing_or_error (c ∷ dir) r))

  make_cni_config_files_info-IsTransparent :
      IsTransparent host (make_cni_config_files_info host decode_file)
  unfolding make_cni_config_files_info
  make_cni_config_files_info-IsTransparent = elim (Result-cases (locate_kubelet_process host)) [
    | inl (e, l) ↦ rw (l, make_cni_config_files_info) (pure-IsTransparent host (err e))
    | inr (p, l) ↦
        rw (l, make_cni_config_files_info)
          (files_in-IsTransparent (get_cni_config_path decode_file host p))
  ]

  -- What is told of the network plugins does not depend on the names that a right cache holds, and
  -- the cache stays right.
  pub sense_cni_info-IsTransparent :
      (cache : Cache)
      → IsRight host cache
      → ((sense_cni_info host decode_file cache).0 ≡ (sense_cni_info host decode_file []).0)
        × IsRight host (sense_cni_info host decode_file cache).1
  unfolding sense_cni_info
  sense_cni_info-IsTransparent =
      >>=-IsTransparent host _ _ make_cni_config_files_info-IsTransparent
        (λ files. pure-IsTransparent host (ok (cni_info host decode_file files)))
