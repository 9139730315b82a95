-- ===== src/Server/Answered.antt =====
-- The answers of the endpoints are those of their handlers.
use host_scanner.Prelude.{
  ℕ, ◌≡◌, refl, subst, ap, ◌∙◌, inl, inr, true, false, Bool, Option, none, some, [], ◌∷◌,
  if◌then◌else◌, Bool-cases,
}
use host_scanner.Prelude.Bytes.{Bytes, codes}
use host_scanner.Prelude.Dict.{lookup}
use host_scanner.GoError.{
  GoError, sense_error, sense, eof, not_exist, failure, wrap, error_text, Result, ok, err,
}
use host_scanner.Sensor.OsRelease.{sense_os_release, sense_kernel_version}
use host_scanner.Sensor.KernelVariables.{
  Outcome, sense_kernel_variables, done, failed, panic, out_of_fuel,
}
use host_scanner.Http.{
  Writer, new_writer, healthz_handler, readyz_handler, generic_sensor_handler, respond_error,
  file_handler, os_release_handler, kernel_version_handler, version_handler, version_response,
  http_error, write, write_header,
}
use host_scanner.Server.State.{Request, State, Served, replied, Handler, Node, Negroni}
use host_scanner.Server.Handlers.{
  stateless, readyz, respond, respond_outcome, version, cni_handler, cloud_provider_handler,
  control_plane_handler, kube_proxy_handler, kubelet_info_handler, linux_kernel_variables_handler,
  opened_ports_handler, linux_security_hardening_handler, init_http_handlers,
}
use host_scanner.Server.Filter.{body_log_writer, given_back}
use host_scanner.Server.Router.{
  to_lower, caseless, is_traced, filtered_end_points, trace, init_http_router,
}
use host_scanner.Server.Routes.{init_http_handlers_found, init_http_router_reply}
use host_scanner.Server.Answers.{
  Endpoint, for_healthz, for_readyz, for_os_release, for_kernel_version,
  for_linux_security_hardening, for_open_ports, for_kernel_variables, for_kubelet, for_kube_proxy,
  for_control_plane, for_cloud_provider, for_version, for_cni, path_of, Answer, file_answer,
  error_answer, sensor_answer, outcome_answer, version_answer, answer_of,
}

-- A handler that ends with an answer.
abbrev Gives : Served → Option Answer → Type 0
Gives served none = Unit
Gives served (some (code, body)) =
    (x : Writer) × (t : State) × (served ≡ replied x t) × (x.code ≡ some code) × (x.body ≡ body)

abbrev fresh : Writer
fresh = body_log_writer new_writer

module _ {C : Type 0} (node : Node C) where
  abbrev handler_of : Endpoint → Handler
  handler_of for_healthz = stateless healthz_handler
  handler_of for_readyz = readyz
  handler_of for_os_release = stateless (os_release_handler (sense_os_release node.host))
  handler_of for_kernel_version =
      stateless (kernel_version_handler (sense_kernel_version node.host))
  handler_of for_linux_security_hardening = linux_security_hardening_handler node
  handler_of for_open_ports = opened_ports_handler node
  handler_of for_kernel_variables = linux_kernel_variables_handler node
  handler_of for_kubelet = kubelet_info_handler node
  handler_of for_kube_proxy = kube_proxy_handler node
  handler_of for_control_plane = control_plane_handler node
  handler_of for_cloud_provider = cloud_provider_handler node
  handler_of for_version = version node
  handler_of for_cni = cni_handler node

  handler_of-lookup :
      (e : Endpoint) → lookup (path_of e) (init_http_handlers node) ≡ some (handler_of e)
  unfolding init_http_handlers
  handler_of-lookup for_healthz = (init_http_handlers_found node).0
  handler_of-lookup for_readyz = (init_http_handlers_found node).1.0
  handler_of-lookup for_os_release = (init_http_handlers_found node).1.1.0
  handler_of-lookup for_kernel_version = (init_http_handlers_found node).1.1.1.0
  handler_of-lookup for_linux_security_hardening = (init_http_handlers_found node).1.1.1.1.0
  handler_of-lookup for_open_ports = (init_http_handlers_found node).1.1.1.1.1.0
  handler_of-lookup for_kernel_variables = (init_http_handlers_found node).1.1.1.1.1.1.0
  handler_of-lookup for_kubelet = (init_http_handlers_found node).1.1.1.1.1.1.1.0
  handler_of-lookup for_kube_proxy = (init_http_handlers_found node).1.1.1.1.1.1.1.1.0
  handler_of-lookup for_control_plane = (init_http_handlers_found node).1.1.1.1.1.1.1.1.1.0
  handler_of-lookup for_cloud_provider = (init_http_handlers_found node).1.1.1.1.1.1.1.1.1.1.0
  handler_of-lookup for_version = (init_http_handlers_found node).1.1.1.1.1.1.1.1.1.1.1.0
  handler_of-lookup for_cni = (init_http_handlers_found node).1.1.1.1.1.1.1.1.1.1.1.1.0

  respond_error-Gives :
      {A : Type 0} (encode : A → Bytes) (name : Bytes) (e : GoError) (t : State)
      → Gives
          (replied (respond_error encode node.encoders.error name e fresh) t)
          (some (error_answer node.encoders.error name e))
  unfolding respond_error http_error write write_header
  respond_error-Gives encode name (sense (sense_error e m f c)) t = (_, t, refl, refl, refl)
  respond_error-Gives encode name eof t = (_, t, refl, refl, refl)
  respond_error-Gives encode name (not_exist p) t = (_, t, refl, refl, refl)
  respond_error-Gives encode name (failure p) t = (_, t, refl, refl, refl)
  respond_error-Gives encode name (wrap p e) t = (_, t, refl, refl, refl)

  sensor-Gives :
      {A : Type 0} (encode : A → Bytes) (name : Bytes) (r : Result A) (t : State)
      → Gives
          (replied (generic_sensor_handler encode node.encoders.error r name fresh) t)
          (some (sensor_answer encode node.encoders.error name r))
  unfolding generic_sensor_handler write write_header
  sensor-Gives encode name (ok a) t = (_, t, refl, refl, refl)
  sensor-Gives encode name (err e) t = respond_error-Gives encode name e t

  file-Gives :
      (message : Bytes) (r : Result Bytes) (t : State)
      → Gives (replied (file_handler message r fresh) t) (some (file_answer message r))
  unfolding file_handler http_error write write_header
  file-Gives message (ok content) t = (_, t, refl, refl, refl)
  file-Gives message (err e) t = (_, t, refl, refl, refl)

  outcome-Gives :
      (o : Outcome) (t : State)
      → Gives
          (respond_outcome node (codes "SenseKernelVariables") o t fresh)
          (outcome_answer node.encoders.kernel_variables node.encoders.error o)
  unfolding respond_outcome respond
  outcome-Gives (done vars) t = sensor-Gives node.encoders.kernel_variables _ (ok vars) _
  outcome-Gives (failed e) t = sensor-Gives node.encoders.kernel_variables _ (err e) _
  outcome-Gives panic t = tt
  outcome-Gives out_of_fuel t = tt

  readyz-Gives :
      (ready : Bool) (t : State)
      → Gives (replied (readyz_handler (some ready) fresh) t) (
          if ready
          then some (200, codes "{\"ready\": true}")
          else some (503, codes "Service Unavailable\n"))
  unfolding readyz_handler http_error write write_header
  readyz-Gives true t = (_, t, refl, refl, refl)
  readyz-Gives false t = (_, t, refl, refl, refl)

  version-Gives :
      (v : Bytes) (t : State)
      → Gives
          (replied (version_handler node.encoders.version node.encoders.error v fresh).0 t)
          (some (version_answer node.encoders.version v))
  unfolding version_handler version_response generic_sensor_handler respond_error http_error write
      write_header error_text
  version-Gives [] t = (_, t, refl, refl, refl)
  version-Gives (c ∷ v) t = (_, t, refl, refl, refl)

  handler_of-Gives : (e : Endpoint) (t : State) → Gives (handler_of e t fresh) (answer_of node t e)
  unfolding respond os_release_handler kernel_version_handler healthz_handler write write_header
      generic_sensor_handler
  handler_of-Gives for_healthz t = (_, t, refl, refl, refl)
  handler_of-Gives for_readyz t = readyz-Gives t.is_ready t
  handler_of-Gives for_os_release t = file-Gives _ (sense_os_release node.host) t
  handler_of-Gives for_kernel_version t = file-Gives _ (sense_kernel_version node.host) t
  handler_of-Gives for_linux_security_hardening t = (_, _, refl, refl, refl)
  handler_of-Gives for_open_ports t = (_, _, refl, refl, refl)
  handler_of-Gives for_kernel_variables t =
      outcome-Gives (sense_kernel_variables node.host node.levels) t
  handler_of-Gives for_kubelet t = sensor-Gives node.encoders.kubelet _ _ _
  handler_of-Gives for_kube_proxy t = sensor-Gives node.encoders.kube_proxy _ _ _
  handler_of-Gives for_control_plane t = sensor-Gives node.encoders.control_plane _ _ _
  handler_of-Gives for_cloud_provider t = sensor-Gives node.encoders.cloud_provider _ _ _
  handler_of-Gives for_version t = version-Gives t.build_version _
  handler_of-Gives for_cni t = sensor-Gives node.encoders.cni _ _ _

  -- A span changes no answer.
  answer_of-trace :
      (r : Request) (s : State) (e : Endpoint) → answer_of node (trace r s) e ≡ answer_of node s e
  unfolding trace
  answer_of-trace r s e = elim (Bool-cases (is_traced filtered_end_points r.path)) [
    | inl f ↦
        ap (λ b. answer_of node (if b then record s { spans = r.request_uri ∷ s.spans } else s) e) f
        ∙ same e
    | inr f ↦
        ap (λ b. answer_of node (if b then record s { spans = r.request_uri ∷ s.spans } else s) e) f
  ]
    where
      same :
          (e : Endpoint)
          → answer_of node (record s { spans = r.request_uri ∷ s.spans }) e ≡ answer_of node s e
      same for_healthz = refl
      same for_readyz = refl
      same for_os_release = refl
      same for_kernel_version = refl
      same for_linux_security_hardening = refl
      same for_open_ports = refl
      same for_kernel_variables = refl
      same for_kubelet = refl
      same for_kube_proxy = refl
      same for_control_plane = refl
      same for_cloud_provider = refl
      same for_version = refl
      same for_cni = refl

  -- A request for one of the thirteen endpoints, its path in small or capital letters, whose body can
  -- be read, is answered with the status and the body that the endpoint has in the state: what its
  -- own sensor gives, or the error, unless the sensor panics.
  pub init_http_router_registered :
      (negroni : Negroni) (r : Request) (s : State) (e : Endpoint) (code : ℕ) (body : Bytes)
      → to_lower r.path ≡ path_of e
      → r.body_error ≡ none
      → answer_of node s e ≡ some (code, body)
      → (w : Writer) × (s' : State) × (init_http_router negroni node r s new_writer ≡ replied w s')
        × (w.code ≡ some code)
        × (w.body ≡ body)
  init_http_router_registered negroni r s e code body p n a =
      let t = trace (caseless r) s in
      let (x, t', h, c, b) : Gives (handler_of e t fresh) (some (code, body)) =
        subst (Gives (handler_of e t fresh)) (answer_of-trace (caseless r) s e ∙ a)
          (handler_of-Gives e t) in
      (
        given_back new_writer x,
        _,
        init_http_router_reply node negroni r (path_of e) (handler_of e) s t' new_writer x
            (handler_of-lookup e) p n h,
        c,
        b,
      )
