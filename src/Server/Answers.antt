-- ===== src/Server/Answers.antt =====
-- What each endpoint answers.
use host_scanner.Prelude.{ℕ, Option, none, some, List, [], ◌∷◌, ◌++◌, if◌then◌else◌}
use host_scanner.Prelude.Bytes.{Bytes, codes}
use host_scanner.GoError.{GoError, SenseError, sense_error, sense, error_text, Result, ok, err}
use host_scanner.Sensor.Kubelet.{sense_kubelet_info, sense_kube_proxy_info}
use host_scanner.Sensor.Cni.{sense_cni_info}
use host_scanner.Sensor.ControlPlane.{sense_control_plane_info}
use host_scanner.Sensor.OsRelease.{
  sense_os_release, sense_kernel_version, sense_linux_security_hardening,
}
use host_scanner.Sensor.Network.{sense_open_ports}
use host_scanner.Sensor.CloudProvider.{sense_cloud_provider_info}
use host_scanner.Sensor.KernelVariables.{
  KernelVariable, Outcome, sense_kernel_variables, done, failed, panic, out_of_fuel,
}
use host_scanner.Server.State.{State, Node}

pub data Endpoint : Type 0 where
  for_healthz : Endpoint
  for_readyz : Endpoint
  for_os_release : Endpoint
  for_kernel_version : Endpoint
  for_linux_security_hardening : Endpoint
  for_open_ports : Endpoint
  for_kernel_variables : Endpoint
  for_kubelet : Endpoint
  for_kube_proxy : Endpoint
  for_control_plane : Endpoint
  for_cloud_provider : Endpoint
  for_version : Endpoint
  for_cni : Endpoint

-- The paths that the documentation names.
abbrev pub path_of : Endpoint → Bytes
path_of for_healthz = codes "/healthz"
path_of for_readyz = codes "/readyz"
path_of for_os_release = codes "/osrelease"
path_of for_kernel_version = codes "/kernelversion"
path_of for_linux_security_hardening = codes "/linuxsecurityhardening"
path_of for_open_ports = codes "/openedports"
path_of for_kernel_variables = codes "/linuxkernelvariables"
path_of for_kubelet = codes "/kubeletinfo"
path_of for_kube_proxy = codes "/kubeproxyinfo"
path_of for_control_plane = codes "/controlplaneinfo"
path_of for_cloud_provider = codes "/cloudproviderinfo"
path_of for_version = codes "/version"
path_of for_cni = codes "/cniinfo"

-- A status and a body.
abbrev pub Answer : Type 0
Answer = ℕ × Bytes

abbrev pub file_answer : Bytes → Result Bytes → Answer
file_answer message (ok content) = (200, content)
file_answer message (err e) = (500, (message ++ error_text e) ++ codes "\n")

-- What a sensor gave, in JSON, or its error: a SenseError in JSON with its own status, any other as a
-- text with 500.
abbrev pub error_answer : (SenseError → Bytes) → Bytes → GoError → Answer
error_answer encode name (sense (sense_error e massage function code)) =
    (code, encode (sense_error e massage function code))
error_answer encode name e =
    (500, (codes "failed to " ++ (name ++ (codes ": " ++ error_text e))) ++ codes "\n")

abbrev pub sensor_answer :
    {A : Type 0} → (A → Bytes) → (SenseError → Bytes) → Bytes → Result A → Answer
sensor_answer encode encode_error name (ok a) = (200, encode a)
sensor_answer encode encode_error name (err e) = error_answer encode_error name e

-- A panic has no answer of its own.
abbrev pub outcome_answer :
    (List KernelVariable → Bytes) → (SenseError → Bytes) → Outcome → Option Answer
outcome_answer encode encode_error (done vars) = some (200, encode vars)
outcome_answer encode encode_error (failed e) =
    some (error_answer encode_error (codes "SenseKernelVariables") e)
outcome_answer encode encode_error panic = none
outcome_answer encode encode_error out_of_fuel = none

abbrev pub version_answer : (Bytes → Bytes) → Bytes → Answer
version_answer encode [] =
    (500, codes "failed to VersionHandler: host scanner BuildVersion is empty\n")
version_answer encode (c ∷ v) = (200, encode (c ∷ v))

module _ {C : Type 0} (node : Node C) where
  -- What the endpoints answer, by the state and what the sensors give on the node.
  abbrev pub answer_of : State → Endpoint → Option Answer
  answer_of s for_healthz = some (200, codes "{\"alive\": true}")
  answer_of s for_readyz =
      if s.is_ready
      then some (200, codes "{\"ready\": true}")
      else some (503, codes "Service Unavailable\n")
  answer_of s for_os_release =
      some (file_answer (codes "failed to SenseOsRelease: ") (sense_os_release node.host))
  answer_of s for_kernel_version = some (
      file_answer (codes "failed to sense kernelVersionHandler: ") (sense_kernel_version node.host))
  answer_of s for_linux_security_hardening =
      some (200, node.encoders.linux_security_hardening (sense_linux_security_hardening node.host))
  answer_of s for_open_ports =
      some (200, node.encoders.open_ports (sense_open_ports node.proc_net node.host))
  answer_of s for_kernel_variables =
      outcome_answer node.encoders.kernel_variables node.encoders.error
        (sense_kernel_variables node.host node.levels)
  answer_of s for_kubelet = some (
      sensor_answer node.encoders.kubelet node.encoders.error (codes "SenseKubeletInfo")
        (sense_kubelet_info node.host node.dbus node.unmarshal s.cache).0)
  answer_of s for_kube_proxy = some (
      sensor_answer node.encoders.kube_proxy node.encoders.error (codes "SenseKubeProxyInfo")
        (sense_kube_proxy_info node.host s.cache).0)
  answer_of s for_control_plane = some (
      sensor_answer node.encoders.control_plane node.encoders.error (codes "SenseControlPlaneInfo")
        (sense_control_plane_info node.host node.codecs s.cache).0)
  answer_of s for_cloud_provider = some (
      sensor_answer node.encoders.cloud_provider node.encoders.error
        (codes "SenseCloudProviderInfo") (sense_cloud_provider_info node.http_get))
  answer_of s for_version = some (version_answer node.encoders.version s.build_version)
  answer_of s for_cni = some (
      sensor_answer node.encoders.cni node.encoders.error (codes "SenseCNIInfo")
        (sense_cni_info node.host node.decode_file s.cache).0)
