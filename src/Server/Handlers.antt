-- ===== src/Server/Handlers.antt =====
-- httphandlers.go: the handlers of the endpoints over the sensors, and the paths they are
-- registered for.
use host_scanner.Prelude.{some, List, [], ◌∷◌}
use host_scanner.Prelude.Bytes.{Bytes, codes}
use host_scanner.GoError.{Result, ok, err}
use host_scanner.Utils.Users.{M}
use host_scanner.Utils.Cached.{pure}
use host_scanner.Sensor.Kubelet.{sense_kubelet_info, sense_kube_proxy_info}
use host_scanner.Sensor.Cni.{sense_cni_info}
use host_scanner.Sensor.ControlPlane.{sense_control_plane_info}
use host_scanner.Sensor.OsRelease.{
  sense_os_release, sense_kernel_version, sense_linux_security_hardening,
}
use host_scanner.Sensor.Network.{sense_open_ports}
use host_scanner.Sensor.CloudProvider.{sense_cloud_provider_info}
use host_scanner.Sensor.KernelVariables.{Outcome, sense_kernel_variables, done, failed, panic}
use host_scanner.Http.{
  Writer, healthz_handler, readyz_handler, generic_sensor_handler, os_release_handler,
  kernel_version_handler, version_handler,
}
use host_scanner.Server.State.{Served, replied, panicked, Handler, Node}

abbrev pub healthz_ep : Bytes
healthz_ep = codes "/healthz"

abbrev pub readyz_ep : Bytes
readyz_ep = codes "/readyz"

-- A handler that keeps the state.
abbrev pub stateless : (Writer → Writer) → Handler
stateless f s w = replied (f w) s

abbrev pub readyz : Handler
readyz s w = replied (readyz_handler (some s.is_ready) w) s

module _ {C : Type 0} (node : Node C) where
  -- What a sensor gives is passed to the generic handler, under the name of the sensor.
  unfoldable pub respond : {A : Type 0} → (A → Bytes) → Bytes → M (Result A) → Handler
  respond encode sense_name sensed s w =
      let (resp, cache') = sensed s.cache in
      replied (generic_sensor_handler encode node.encoders.error resp sense_name w)
        (record s { cache = cache' })

  -- The same for a sensor that may panic.
  unfoldable pub respond_outcome : Bytes → Outcome → Handler
  respond_outcome sense_name (done vars) s w =
      respond node.encoders.kernel_variables sense_name (pure (ok vars)) s w
  respond_outcome sense_name (failed e) s w =
      respond node.encoders.kernel_variables sense_name (pure (err e)) s w
  respond_outcome sense_name panic s w = panicked s
  respond_outcome sense_name Outcome.out_of_fuel s w = Served.out_of_fuel

  abbrev pub cni_handler : Handler
  cni_handler =
      respond node.encoders.cni (codes "SenseCNIInfo") (sense_cni_info node.host node.decode_file)

  abbrev pub version : Handler
  version s w =
      let (w', build_version') =
        version_handler node.encoders.version node.encoders.error s.build_version w in
      replied w' (record s { build_version = build_version' })

  abbrev pub cloud_provider_handler : Handler
  cloud_provider_handler =
      respond node.encoders.cloud_provider (codes "SenseCloudProviderInfo")
        (pure (sense_cloud_provider_info node.http_get))

  abbrev pub control_plane_handler : Handler
  control_plane_handler =
      respond node.encoders.control_plane (codes "SenseControlPlaneInfo")
        (sense_control_plane_info node.host node.codecs)

  abbrev pub kube_proxy_handler : Handler
  kube_proxy_handler =
      respond node.encoders.kube_proxy (codes "SenseKubeProxyInfo")
        (sense_kube_proxy_info node.host)

  abbrev pub kubelet_info_handler : Handler
  kubelet_info_handler =
      respond node.encoders.kubelet (codes "SenseKubeletInfo")
        (sense_kubelet_info node.host node.dbus node.unmarshal)

  abbrev pub linux_kernel_variables_handler : Handler
  linux_kernel_variables_handler =
      respond_outcome (codes "SenseKernelVariables") (sense_kernel_variables node.host node.levels)

  abbrev pub opened_ports_handler : Handler
  opened_ports_handler =
      respond node.encoders.open_ports (codes "SenseOpenPorts")
        (pure (ok (sense_open_ports node.proc_net node.host)))

  abbrev pub linux_security_hardening_handler : Handler
  linux_security_hardening_handler =
      respond node.encoders.linux_security_hardening (codes "sense linuxSecurityHardeningHandler")
        (pure (ok (sense_linux_security_hardening node.host)))

  -- The calls of `http.HandleFunc`.
  unfoldable pub init_http_handlers : List (Bytes × Handler)
  init_http_handlers =
      (healthz_ep, stateless healthz_handler)
      ∷ (readyz_ep, readyz)
      ∷ (codes "/osrelease", stateless (os_release_handler (sense_os_release node.host)))
      ∷ (
        codes "/kernelversion",
        stateless (kernel_version_handler (sense_kernel_version node.host)),
      )
      ∷ (codes "/linuxsecurityhardening", linux_security_hardening_handler)
      ∷ (codes "/openedports", opened_ports_handler)
      ∷ (codes "/linuxkernelvariables", linux_kernel_variables_handler)
      ∷ (codes "/kubeletinfo", kubelet_info_handler)
      ∷ (codes "/kubeproxyinfo", kube_proxy_handler)
      ∷ (codes "/controlplaneinfo", control_plane_handler)
      ∷ (codes "/cloudproviderinfo", cloud_provider_handler)
      ∷ (codes "/version", version)
      ∷ (codes "/cniinfo", cni_handler)
      ∷ []
