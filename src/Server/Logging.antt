-- ===== src/Server/Logging.antt =====
-- What the filter logs of a request that fails.
use host_scanner.Prelude.{
  ◌≡◌, refl, ap, sym, ◌∙◌, subst, Bool, true, false, Option, none, some, All,
}
use host_scanner.Prelude.Bytes.{Bytes}
use host_scanner.Prelude.Dict.{lookup-All}
use host_scanner.GoError.{Result}
use host_scanner.Utils.Users.{M}
use host_scanner.Sensor.KernelVariables.{Outcome, done, failed, panic}
use host_scanner.Http.{
  Writer, new_writer, write_header, os_release_handler, kernel_version_handler, version_handler,
  version_response,
}
use host_scanner.Http.Logged.{
  IsWritten, same-IsWritten, then-IsWritten, write-IsWritten, write_header-IsWritten,
  http_error-IsWritten, healthz_handler-IsWritten, readyz_handler-IsWritten, file_handler-IsWritten,
  generic_sensor_handler-IsWritten,
}
use host_scanner.Server.State.{Request, State, Served, replied, panicked, Handler, Node}
use host_scanner.Server.Handlers.{respond, respond_outcome, version, init_http_handlers}
use host_scanner.Server.Mux.{
  Match, redirect_by, redirect_with, redirect, serve_match, find_handler, serve_mux, moved, found,
  not_found,
}
use host_scanner.Server.Mux.Laws.{find_handler_iff}
use host_scanner.Server.Filter.{body_log_writer}

abbrev WritesOn : Writer → Served → Type 0
WritesOn w (replied x t) = IsWritten w x
WritesOn w (panicked t) = Unit
WritesOn w Served.out_of_fuel = Unit

abbrev IsLogging : Handler → Type 0
IsLogging h = (s : State) (w : Writer) → WritesOn w (h s w)

moved_header-IsWritten :
    (w x : Writer) → x.body ≡ w.body → x.res_body ≡ w.res_body → IsWritten w (write_header 301 x)
moved_header-IsWritten w x e f =
    then-IsWritten (same-IsWritten w x e f) (write_header-IsWritten 301 x)

redirect_by-IsWritten :
    (is_get is_head : Bool) (url : Bytes) (w : Writer)
    → IsWritten w (redirect_by is_get is_head url w)
unfolding redirect_by
redirect_by-IsWritten true is_head url w =
    then-IsWritten (moved_header-IsWritten w _ refl refl) (write-IsWritten _ _)
redirect_by-IsWritten false true url w = moved_header-IsWritten w _ refl refl
redirect_by-IsWritten false false url w = moved_header-IsWritten w _ refl refl

redirect_with-IsWritten :
    (t : Option Bytes) (r : Request) (url : Bytes) (w : Writer)
    → IsWritten w (redirect_with t r url w)
unfolding redirect_with
redirect_with-IsWritten none r url w = redirect_by-IsWritten _ _ url w
redirect_with-IsWritten (some t) r url w = moved_header-IsWritten w _ refl refl

module _ {C : Type 0} (node : Node C) where
  respond-IsLogging :
      {A : Type 0} (encode : A → Bytes) (name : Bytes) (m : M (Result A))
      → IsLogging (respond node encode name m)
  unfolding respond
  respond-IsLogging encode name m s w =
      generic_sensor_handler-IsWritten encode node.encoders.error (m s.cache).0 name w

  respond_outcome-IsLogging : (name : Bytes) (o : Outcome) → IsLogging (respond_outcome node name o)
  unfolding respond_outcome
  respond_outcome-IsLogging name (done vars) s w = respond-IsLogging _ name _ s w
  respond_outcome-IsLogging name (failed e) s w = respond-IsLogging _ name _ s w
  respond_outcome-IsLogging name panic s w = tt
  respond_outcome-IsLogging name Outcome.out_of_fuel s w = tt

  version-IsLogging : IsLogging (version node)
  unfolding version_handler
  version-IsLogging s w =
      generic_sensor_handler-IsWritten node.encoders.version node.encoders.error
        (version_response s.build_version).0 _ w

  init_http_handlers-IsLogging : All (λ entry. IsLogging entry.1) (init_http_handlers node)
  unfolding init_http_handlers os_release_handler kernel_version_handler
  init_http_handlers-IsLogging = (
    λ s w. healthz_handler-IsWritten w,
    (
      λ s w. readyz_handler-IsWritten (some s.is_ready) w,
      (
        λ s w. file_handler-IsWritten _ _ w,
        (
          λ s w. file_handler-IsWritten _ _ w,
          (
            respond-IsLogging _ _ _,
            (
              respond-IsLogging _ _ _,
              (
                respond_outcome-IsLogging _ _,
                (
                  respond-IsLogging _ _ _,
                  (
                    respond-IsLogging _ _ _,
                    (
                      respond-IsLogging _ _ _,
                      (respond-IsLogging _ _ _, (version-IsLogging, (respond-IsLogging _ _ _, tt))),
                    ),
                  ),
                ),
              ),
            ),
          ),
        ),
      ),
    ),
  )

  serve_mux-IsLogging : (r : Request) → IsLogging (serve_mux (init_http_handlers node) r)
  unfolding serve_mux redirect
  serve_mux-IsLogging r s w = of_match (find_handler (init_http_handlers node) r.path) refl
    where
      of_match :
          (m : Match Handler)
          → find_handler (init_http_handlers node) r.path ≡ m
          → WritesOn w (serve_match r m s w)
      of_match (moved p) e = redirect_with-IsWritten w.content_type r _ w
      of_match not_found e = http_error-IsWritten _ 404 w
      of_match (found h) e =
          lookup-All (λ entry. IsLogging entry.1) r.path h (init_http_handlers node)
            init_http_handlers-IsLogging
            ((find_handler_iff (init_http_handlers node) r.path h).0 e).1 s w

  -- All that is written on a new `bodyLogWriter` is kept.
  pub serve_mux_kept :
      (r : Request) (s t : State) (x : Writer)
      → serve_mux (init_http_handlers node) r s (body_log_writer new_writer) ≡ replied x t
      → x.res_body ≡ some x.body
  serve_mux_kept r s t x e =
      let w =
        subst (WritesOn (body_log_writer new_writer)) e
          (serve_mux-IsLogging r s (body_log_writer new_writer)) in
      w.res_body ∙ ap some (sym w.body)
