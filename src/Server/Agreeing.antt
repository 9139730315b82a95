-- ===== src/Server/Agreeing.antt =====
-- Handlers on two states that differ in the cache of names alone.
use host_scanner.Prelude.{◌≡◌, refl, sym, ap, ◌∙◌, some, All}
use host_scanner.Prelude.Bytes.{Bytes}
use host_scanner.GoError.{Result, ok, err}
use host_scanner.Host.{Host}
use host_scanner.Utils.Users.{M}
use host_scanner.Utils.Users.Caching.{IsRight}
use host_scanner.Utils.Cached.{pure}
use host_scanner.Utils.Cached.Transparent.{IsTransparent, pure-IsTransparent}
use host_scanner.Sensor.KernelVariables.{Outcome, done, failed, panic}
use host_scanner.Sensor.Kubelet.Laws.{
  sense_kubelet_info-IsTransparent, sense_kube_proxy_info-IsTransparent,
}
use host_scanner.Sensor.Cni.Laws.{sense_cni_info-IsTransparent}
use host_scanner.Sensor.ControlPlane.Cached.{sense_control_plane_info-IsTransparent}
use host_scanner.Http.{Writer, readyz_handler, generic_sensor_handler, version_handler}
use host_scanner.Server.State.{State, Served, replied, panicked, Handler, Node}
use host_scanner.Server.Handlers.{
  stateless, readyz, respond, respond_outcome, version, init_http_handlers,
}

module _ (host : Host) where
  -- Two states with right caches that are alike otherwise.
  pub record AreAlike (s t : State) : Type 0 where
    pub build_version : s.build_version ≡ t.build_version
    pub is_ready : s.is_ready ≡ t.is_ready
    pub log : s.log ≡ t.log
    pub spans : s.spans ≡ t.spans
    pub left : IsRight host s.cache
    pub right : IsRight host t.cache

  -- The same response, and states that are alike.
  pub data Agree : Served → Served → Type 0 where
    replies :
        {w x : Writer} {s t : State} → w ≡ x → AreAlike s t → Agree (replied w s) (replied x t)
    panics : {s t : State} → AreAlike s t → Agree (panicked s) (panicked t)
    no_fuel : Agree Served.out_of_fuel Served.out_of_fuel

  abbrev pub IsAgreeing : Handler → Type 0
  IsAgreeing h = (s t : State) (w : Writer) → AreAlike s t → Agree (h s w) (h t w)

  pub stateless-IsAgreeing : (f : Writer → Writer) → IsAgreeing (stateless f)
  stateless-IsAgreeing f s t w a = replies refl a

module _ {C : Type 0} (node : Node C) where
  pub respond-IsAgreeing :
      {A : Type 0} (encode : A → Bytes) (name : Bytes) (m : M (Result A))
      → IsTransparent node.host m
      → IsAgreeing node.host (respond node encode name m)
  unfolding respond
  respond-IsAgreeing encode name m tr s t w a =
      let (e, r) = tr s.cache a.left in
      let (e', r') = tr t.cache a.right in
      replies
        (ap (λ resp. generic_sensor_handler encode node.encoders.error resp name w) (e ∙ sym e'))
        (record {
          build_version = a.build_version;
          is_ready = a.is_ready;
          log = a.log;
          spans = a.spans;
          left = r;
          right = r';
        })

  respond_outcome-IsAgreeing :
      (name : Bytes) (o : Outcome) → IsAgreeing node.host (respond_outcome node name o)
  unfolding respond_outcome
  respond_outcome-IsAgreeing name (done vars) s t w a =
      respond-IsAgreeing _ name (pure (ok vars)) (pure-IsTransparent node.host _) s t w a
  respond_outcome-IsAgreeing name (failed e) s t w a =
      respond-IsAgreeing _ name (pure (err e)) (pure-IsTransparent node.host _) s t w a
  respond_outcome-IsAgreeing name panic s t w a = panics a
  respond_outcome-IsAgreeing name Outcome.out_of_fuel s t w a = no_fuel

  version-IsAgreeing : IsAgreeing node.host (version node)
  version-IsAgreeing s t w a = replies (ap (λ v. (answer v).0) a.build_version) (record {
    build_version = ap (λ v. (answer v).1) a.build_version;
    is_ready = a.is_ready;
    log = a.log;
    spans = a.spans;
    left = a.left;
    right = a.right;
  })
    where
      answer : Bytes → Writer × Bytes
      answer v = version_handler node.encoders.version node.encoders.error v w

  readyz-IsAgreeing : IsAgreeing node.host readyz
  readyz-IsAgreeing s t w a = replies (ap (λ b. readyz_handler (some b) w) a.is_ready) a

  pub init_http_handlers-IsAgreeing :
      All (λ entry. IsAgreeing node.host entry.1) (init_http_handlers node)
  unfolding init_http_handlers
  init_http_handlers-IsAgreeing = (
    stateless-IsAgreeing node.host _,
    (
      readyz-IsAgreeing,
      (
        stateless-IsAgreeing node.host _,
        (
          stateless-IsAgreeing node.host _,
          (
            respond-IsAgreeing _ _ _ (pure-IsTransparent node.host _),
            (
              respond-IsAgreeing _ _ _ (pure-IsTransparent node.host _),
              (
                respond_outcome-IsAgreeing _ _,
                (
                  respond-IsAgreeing _ _ _
                      (sense_kubelet_info-IsTransparent node.host node.dbus node.unmarshal),
                  (
                    respond-IsAgreeing _ _ _ (sense_kube_proxy_info-IsTransparent node.host),
                    (
                      respond-IsAgreeing _ _ _
                          (sense_control_plane_info-IsTransparent node.host node.codecs),
                      (
                        respond-IsAgreeing _ _ _ (pure-IsTransparent node.host _),
                        (
                          version-IsAgreeing,
                          (
                            respond-IsAgreeing _ _ _
                                (sense_cni_info-IsTransparent node.host node.decode_file),
                            tt,
                          ),
                        ),
                      ),
                    ),
                  ),
                ),
              ),
            ),
          ),
        ),
      ),
    ),
  )
