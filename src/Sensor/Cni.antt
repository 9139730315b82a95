-- ===== src/Sensor/Cni.antt =====
-- sensor/CNI.go: the configuration files and the names of the network plugins.
pub mod Laws
use host_scanner.Prelude.{Bool, true, false, Option, none, some, List, [], ◌∷◌, ◌++◌}
use host_scanner.Prelude.Bytes.{Bytes, codes}
use host_scanner.GoError.{GoError, failure, wrap, Result, ok, err}
use host_scanner.Host.{Host}
use host_scanner.Utils.Users.{M}
use host_scanner.Utils.Process.{ProcessDetails, locate_process_by_exec_suffix}
use host_scanner.Utils.FileInfo.{FileInfo}
use host_scanner.Utils.ContainerRuntime.{get_cni_config_path}
use host_scanner.Utils.RuntimeNames.{DecodeFile}
use host_scanner.Utils.Cached.{◌>>=◌, pure}
use host_scanner.Sensor.Verbose.{host_dir_files_info}
use host_scanner.Sensor.Kubelet.{locate_kubelet_process}

pub record CniInfo : Type 0 where
  pub cni_config_files : List FileInfo
  pub cni_names : List Bytes

-- The names of the plugins and the suffixes of their processes.
abbrev pub supported_cnis : List (Bytes × Bytes)
supported_cnis =
    (codes "aws", codes "aws-k8s-agent")
    ∷ (codes "Calico", codes "calico-node")
    ∷ (codes "Flannel", codes "flanneld")
    ∷ (codes "Cilium", codes "cilium-agent")
    ∷ (codes "WeaveNet", codes "weave-net")
    ∷ (codes "Kindnet", codes "kindnetd")
    ∷ (codes "Multus", codes "multus")
    ∷ []

-- The results of the listing of the directory.
unfoldable pub listing_or_error : Bytes → List FileInfo × Option GoError → Result (List FileInfo)
listing_or_error dir (infos, none) = ok infos
listing_or_error dir (infos, some e) =
    err (wrap (codes "failed to makeHostDirFilesInfo for CNIConfigDir " ++ (dir ++ codes ": ")) e)

-- The files, none on an error.
abbrev pub files_or_nil : Result (List FileInfo) → List FileInfo
files_or_nil (ok files) = files
files_or_nil (err e) = []

module _ (host : Host) where
  -- The loop of `getCNINames`.
  unfoldable pub cni_names_in : List (Bytes × Bytes) → List Bytes
  cni_names_in [] = []
  cni_names_in ((name, suffix) ∷ cnis) =
      let rest = cni_names_in cnis in
      elim (locate_process_by_exec_suffix host suffix) [ ok p ↦ name ∷ rest | err e ↦ rest ]

  abbrev pub get_cni_names : List Bytes
  get_cni_names = cni_names_in supported_cnis

  module _ (decode_file : DecodeFile) where
    unfoldable pub files_in : Bytes → M (Result (List FileInfo))
    files_in [] = pure (err (failure (codes "no CNI Config dir found in getCNIConfigPath")))
    files_in (c ∷ dir) =
        host_dir_files_info host (c ∷ dir) >>= λ r. pure (listing_or_error (c ∷ dir) r)

    unfoldable pub make_cni_config_files_info : M (Result (List FileInfo))
    make_cni_config_files_info = elim (locate_kubelet_process host) [
      | err e ↦ pure (err e)
      | ok kubelet ↦ files_in (get_cni_config_path decode_file host kubelet)
    ]

    abbrev pub cni_info : Result (List FileInfo) → CniInfo
    cni_info files = record { cni_config_files = files_or_nil files; cni_names = get_cni_names }

    unfoldable pub sense_cni_info : M (Result CniInfo)
    sense_cni_info = do files ← make_cni_config_files_info; pure (ok (cni_info files))
