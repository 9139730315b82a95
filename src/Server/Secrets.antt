-- ===== src/Server/Secrets.antt =====
-- What a client is told of the control plane.
use host_scanner.Prelude.{◌≡◌, refl, ap, inl, inr, ◌⊎◌, none, some}
use host_scanner.Prelude.Bytes.{Bytes, codes}
use host_scanner.GoError.{sense_error, no_error, Result, ok, err}
use host_scanner.Sensor.ControlPlane.{sense_control_plane_info, not_a_control_plane}
use host_scanner.Sensor.ControlPlaneInfo.{ControlPlaneInfo}
use host_scanner.Sensor.ControlPlane.Shown.{IsSafe, sense_control_plane_info-IsSafe}
use host_scanner.Http.{
  Writer, new_writer, write, write_header, respond_error, generic_sensor_handler,
}
use host_scanner.Server.State.{Request, State, replied, Negroni, Node}
use host_scanner.Server.Handlers.{respond, control_plane_handler, init_http_handlers}
use host_scanner.Server.Filter.{body_log_writer, given_back}
use host_scanner.Server.Router.{to_lower, caseless, trace, init_http_router}
use host_scanner.Server.Routes.{init_http_handlers_found, init_http_router_reply}

abbrev pub control_plane_ep : Bytes
control_plane_ep = codes "/controlplaneinfo"

module _ (negroni : Negroni) {C : Type 0} (node : Node C) where
  -- The text of an info that shows no secret, or that of the error.
  abbrev pub IsSafeText : Bytes → Type 0
  IsSafeText text =
      ((info : ControlPlaneInfo) × IsSafe node.host node.codecs info
        × (text ≡ node.encoders.control_plane info))
      ⊎ (text
          ≡ node.encoders.error (
              sense_error no_error (codes "not a control plane node")
                (codes "SenseControlPlaneInfo") 200))

  abbrev written : Result ControlPlaneInfo → Writer
  written r =
      generic_sensor_handler node.encoders.control_plane node.encoders.error r
        (codes "SenseControlPlaneInfo") (body_log_writer new_writer)

  written-IsSafeText :
      (r : Result ControlPlaneInfo)
      → (r ≡ err not_a_control_plane)
        ⊎ ((info : ControlPlaneInfo) × (r ≡ ok info) × IsSafe node.host node.codecs info)
      → ((written r).code ≡ some 200) × IsSafeText (written r).body
  unfolding generic_sensor_handler respond_error write write_header
  written-IsSafeText r (inl e) = (ap (λ q. (written q).code) e, inr (ap (λ q. (written q).body) e))
  written-IsSafeText r (inr (info, e, safe)) =
      (ap (λ q. (written q).code) e, inl (info, safe, ap (λ q. (written q).body) e))

  -- A request for the control plane whose body can be read is answered by 200, whatever the state
  -- of the server, with the text of an info, or with that of the error that this is no control
  -- plane. The info shows no content of a file but the audit policy and the configuration of the
  -- encryption, and that is printed from a document in which the secret of each key that is decoded
  -- as an object with texts for its fields' names is the placeholder.
  pub control_plane-IsSafeText :
      (r : Request) (s : State)
      → to_lower r.path ≡ control_plane_ep
      → r.body_error ≡ none
      → (w : Writer) × (s' : State) × (init_http_router negroni node r s new_writer ≡ replied w s')
        × (w.code ≡ some 200)
        × IsSafeText w.body
  unfolding init_http_handlers respond
  control_plane-IsSafeText r s p b =
      let s₁ = trace (caseless r) s in
      let sensed = sense_control_plane_info node.host node.codecs s₁.cache in
      let x = written sensed.0 in
      let (code, safe) =
        written-IsSafeText sensed.0
          (sense_control_plane_info-IsSafe node.host node.codecs s₁.cache) in
      (
        given_back new_writer x,
        _,
        init_http_router_reply node negroni r control_plane_ep (control_plane_handler node) s
            (record s₁ { cache = sensed.1 }) new_writer x
            (init_http_handlers_found node).1.1.1.1.1.1.1.1.1.0 p b refl,
        code,
        safe,
      )
