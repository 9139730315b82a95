-- ===== src/Utils/RuntimeNames.antt =====
-- sensor/internal/utils/containerruntime.go: the flags and names of the container runtimes, and what
-- is kept of one.
use host_scanner.Prelude.{List}
use host_scanner.Prelude.Bytes.{Bytes, codes}
use host_scanner.GoError.{GoError, failure, Result}
use host_scanner.Utils.Process.{ProcessDetails}

abbrev pub cni_default_config_dir : Bytes
cni_default_config_dir = codes "/etc/cni/"

abbrev pub kubelet_container_runtime : Bytes
kubelet_container_runtime = codes "--container-runtime"

abbrev pub kubelet_container_runtime_end_point : Bytes
kubelet_container_runtime_end_point = codes "--container-runtime-endpoint"

abbrev pub kubelet_cni_config_dir : Bytes
kubelet_cni_config_dir = codes "--cni-conf-dir"

abbrev pub containerd_container_runtime_name : Bytes
containerd_container_runtime_name = codes "containerd"

abbrev pub crio_container_runtime_name : Bytes
crio_container_runtime_name = codes "crio"

abbrev pub containerd_config_section : Bytes
containerd_config_section = codes "io.containerd.grpc.v1.cri"

abbrev pub crio_sock : Bytes
crio_sock = codes "/crio.sock"

abbrev pub containerd_sock : Bytes
containerd_sock = codes "/containerd.sock"

abbrev pub cridockerd_sock : Bytes
cridockerd_sock = codes "/cri-dockerd.sock"

abbrev pub err_dockershim_rt : GoError
err_dockershim_rt = failure (codes "dockershim runtime is not supported")

abbrev pub err_cri_not_found : GoError
err_cri_not_found = failure (codes "no container runtime was found")

-- `toml.DecodeFile` of the package BurntSushi/toml, which is not part of the program: the string at
-- a path of keys in a file, empty if it is not there, or an error.
abbrev pub DecodeFile : Type 0
DecodeFile = List Bytes → Bytes → Result Bytes

pub record ContainerRuntimeProperties : Type 0 where
  pub name : Bytes
  pub config_arg_name : Bytes
  pub config_dir_arg_name : Bytes
  pub default_config_path : Bytes
  pub default_config_dir : Bytes
  pub process_suffix : Bytes
  pub socket : Bytes
  pub cni_config_dir_arg_name : Bytes
  pub parse_cni_from_config : Bytes → Result Bytes

pub record ContainerRuntimeInfo : Type 0 where
  pub properties : ContainerRuntimeProperties
  pub process : ProcessDetails
  pub root_dir : Bytes
