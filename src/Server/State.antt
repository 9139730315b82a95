-- ===== src/Server/State.antt =====
-- What a request is, what the server keeps between requests, and what it takes from outside.
use host_scanner.Prelude.{ℕ, Bool, Option, List}
use host_scanner.Prelude.Bytes.{Bytes}
use host_scanner.GoError.{SenseError, GoError}
use host_scanner.Host.{Host}
use host_scanner.Utils.Users.{Cache}
use host_scanner.Utils.RuntimeNames.{DecodeFile}
use host_scanner.Utils.Service.{Dbus}
use host_scanner.Sensor.Kubelet.{UnmarshalConfig, KubeletInfo, KubeProxyInfo}
use host_scanner.Sensor.Cni.{CniInfo}
use host_scanner.Sensor.EncryptionConfig.{Codecs}
use host_scanner.Sensor.ControlPlaneInfo.{ControlPlaneInfo}
use host_scanner.Sensor.OsRelease.{LinuxSecurityHardeningStatus}
use host_scanner.Sensor.Network.{OpenPortsStatus}
use host_scanner.Sensor.CloudProvider.{CloudProviderInfo, HttpGet}
use host_scanner.Sensor.KernelVariables.{KernelVariable}
use host_scanner.Http.{Writer}

-- A request: what reading its body gives and the error behind that, if there is one, and the
-- nanoseconds that pass until the filter looks at the clock again.
pub record Request : Type 0 where
  pub method : Bytes
  -- `URL.Path`, of characters that need no escape in a URL
  pub path : Bytes
  pub raw_query : Bytes
  pub request_uri : Bytes
  pub remote_addr : Bytes
  pub body : Bytes
  pub body_error : Option GoError
  pub elapsed : ℕ

-- The fields of the message `Request failed`.
pub record Entry : Type 0 where
  pub method : Bytes
  pub request_uri : Bytes
  pub remote_addr : Bytes
  pub request_body : Bytes
  pub http_status : ℕ
  pub response_size : ℕ
  pub response_body : Bytes

-- `BuildVersion`, `isReady`, the cache of names, the failed requests that were logged and the spans
-- that were traced.
pub record State : Type 0 where
  pub build_version : Bytes
  pub is_ready : Bool
  pub cache : Cache
  pub log : List Entry
  pub spans : List Bytes

-- How a handler ends: with a response, or with a panic before anything is written. The walk of the
-- kernel variables may want more fuel.
pub data Served : Type 0 where
  replied : Writer → State → Served
  panicked : State → Served
  out_of_fuel : Served

abbrev pub Handler : Type 0
Handler = State → Writer → Served

-- The JSON texts of the responses.
pub record Encoders (C : Type 0) : Type 0 where
  pub error : SenseError → Bytes
  pub version : Bytes → Bytes
  pub cni : CniInfo → Bytes
  pub cloud_provider : CloudProviderInfo → Bytes
  pub control_plane : ControlPlaneInfo → Bytes
  pub kube_proxy : KubeProxyInfo → Bytes
  pub kubelet : KubeletInfo → Bytes
  pub kernel_variables : List KernelVariable → Bytes
  pub open_ports : OpenPortsStatus C → Bytes
  pub linux_security_hardening : LinuxSecurityHardeningStatus → Bytes

-- The node and the packages that the sensors call, with connections of the type `C`; `levels` is
-- the fuel of the walk of the kernel variables.
pub record Node (C : Type 0) : Type 0 where
  pub host : Host
  pub encoders : Encoders C
  pub codecs : Codecs
  pub decode_file : DecodeFile
  pub dbus : Dbus
  pub unmarshal : UnmarshalConfig
  pub proc_net : Bytes → ℕ → List C
  pub http_get : HttpGet
  pub levels : ℕ

-- The package negroni: the status of a writer and the size of its body, and what the recovery from
-- a panic writes.
pub record Negroni : Type 0 where
  pub status : Writer → ℕ
  pub size : Writer → ℕ
  pub recover : Writer → Writer
