-- ===== src/Server/Readiness/Keeping.antt =====
-- No request changes the readiness.
use host_scanner.Prelude.{◌≡◌, refl, ◌∙◌, subst, Bool, Option, none, some, All}
use host_scanner.Prelude.Bytes.{Bytes}
use host_scanner.Prelude.Dict.{lookup-All}
use host_scanner.GoError.{GoError, Result}
use host_scanner.Utils.Users.{M}
use host_scanner.Sensor.KernelVariables.{Outcome, done, failed, panic}
use host_scanner.Http.{Writer}
use host_scanner.Server.State.{Request, State, Served, replied, panicked, Handler, Node, Negroni}
use host_scanner.Server.Handlers.{respond, respond_outcome, init_http_handlers}
use host_scanner.Server.Mux.{Match, serve_match, find_handler, serve_mux, moved, found, not_found}
use host_scanner.Server.Mux.Laws.{find_handler_iff}
use host_scanner.Server.Filter.{
  after_next, unless_unreadable, filter_n_log_http_errors, body_log_writer,
}
use host_scanner.Server.Router.{
  caseless, trace, telemetry, or_recover, recovery, caseless_matcher, init_http_router,
}
use host_scanner.Server.Same.{trace-AreSame, log_failure-AreSame}

-- The readiness stays as it is.
abbrev pub Keeps : Bool → Served → Type 0
Keeps b (replied w t) = t.is_ready ≡ b
Keeps b (panicked t) = t.is_ready ≡ b
Keeps b Served.out_of_fuel = Unit

abbrev pub IsKeeping : Handler → Type 0
IsKeeping h = (s : State) (w : Writer) → Keeps s.is_ready (h s w)

module _ {C : Type 0} (node : Node C) where
  respond-IsKeeping :
      {A : Type 0} (encode : A → Bytes) (name : Bytes) (m : M (Result A))
      → IsKeeping (respond node encode name m)
  unfolding respond
  respond-IsKeeping encode name m s w = refl

  respond_outcome-IsKeeping : (name : Bytes) (o : Outcome) → IsKeeping (respond_outcome node name o)
  unfolding respond_outcome
  respond_outcome-IsKeeping name (done vars) s w = respond-IsKeeping _ name _ s w
  respond_outcome-IsKeeping name (failed e) s w = respond-IsKeeping _ name _ s w
  respond_outcome-IsKeeping name panic s w = refl
  respond_outcome-IsKeeping name Outcome.out_of_fuel s w = tt

  init_http_handlers-IsKeeping : All (λ entry. IsKeeping entry.1) (init_http_handlers node)
  unfolding init_http_handlers
  init_http_handlers-IsKeeping = (
    λ s w. refl,
    (
      λ s w. refl,
      (
        λ s w. refl,
        (
          λ s w. refl,
          (
            respond-IsKeeping _ _ _,
            (
              respond-IsKeeping _ _ _,
              (
                respond_outcome-IsKeeping _ _,
                (
                  respond-IsKeeping _ _ _,
                  (
                    respond-IsKeeping _ _ _,
                    (
                      respond-IsKeeping _ _ _,
                      (respond-IsKeeping _ _ _, (λ s w. refl, (respond-IsKeeping _ _ _, tt))),
                    ),
                  ),
                ),
              ),
            ),
          ),
        ),
      ),
    ),
  )

  serve_mux-IsKeeping : (r : Request) → IsKeeping (serve_mux (init_http_handlers node) r)
  unfolding serve_mux
  serve_mux-IsKeeping r s w = of_match (find_handler (init_http_handlers node) r.path) refl
    where
      of_match :
          (m : Match Handler)
          → find_handler (init_http_handlers node) r.path ≡ m
          → Keeps s.is_ready (serve_match r m s w)
      of_match (moved p) e = refl
      of_match not_found e = refl
      of_match (found h) e =
          lookup-All (λ entry. IsKeeping entry.1) r.path h (init_http_handlers node)
            init_http_handlers-IsKeeping
            ((find_handler_iff (init_http_handlers node) r.path h).0 e).1 s w

  module _ (negroni : Negroni) where
    after_next-Keeps :
        (r : Request) (w : Writer) (b : Bool) (x : Served)
        → Keeps b x
        → Keeps b (or_recover negroni w (after_next negroni r w x))
    unfolding after_next or_recover
    after_next-Keeps r w b (replied y t) k =
        (log_failure-AreSame negroni r y t t
          (record { build_version = refl; is_ready = refl; cache = refl })).is_ready
        ∙ k
    after_next-Keeps r w b (panicked t) k = k
    after_next-Keeps r w b Served.out_of_fuel k = tt

    unless_unreadable-Keeps :
        (r : Request) (e : Option GoError) (h : Handler) (b : Bool) (s : State) (w : Writer)
        → s.is_ready ≡ b
        → Keeps b (h s (body_log_writer w))
        → Keeps b (or_recover negroni w (unless_unreadable negroni r e h s w))
    unfolding unless_unreadable
    unless_unreadable-Keeps r none h b s w e k = after_next-Keeps r w b _ k
    unless_unreadable-Keeps r (some _) h b s w e k = after_next-Keeps r w b _ e

    pub init_http_router-IsKeeping : (r : Request) → IsKeeping (init_http_router negroni node r)
    unfolding init_http_router caseless_matcher recovery filter_n_log_http_errors telemetry
    init_http_router-IsKeeping r s w =
        let r' = caseless r in
        unless_unreadable-Keeps r' r.body_error _ s.is_ready s w refl (
          subst
            (λ b. Keeps b (serve_mux (init_http_handlers node) r' (trace r' s) (body_log_writer w)))
            (trace-AreSame r' s).is_ready (serve_mux-IsKeeping r' (trace r' s) (body_log_writer w)))
