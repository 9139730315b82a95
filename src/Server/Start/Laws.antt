-- ===== src/Server/Start/Laws.antt =====
-- The order of what `main` does.
use host_scanner.Prelude.{◌≡◌, Bool, true, false, Option, none, some, List, [], ◌∷◌, if◌then◌else◌}
use host_scanner.Prelude.Bytes.{Bytes, codes, bytes_eq}
use host_scanner.Prelude.Int.{format_int}
use native.Mathlib.Omega.{arith}
use host_scanner.GoError.{Result, ok, err}
use host_scanner.Server.Start.{
  Action, init_own_logger, warning, fatal, replace_globals, redirect_std_log, init_http_router,
  init_http_handlers, init_otel, listen_and_serve_pprof, listen_and_serve, await_signal, shutdown,
  cancel_context, sync_logger, shutdown_otel, Zap, zap_conf, init_logger, listen_address, main,
}

-- Where the program stands.
pub data Phase : Type 0 where
  begun logging routed registered listening signalled stopped closed ended : Phase

-- The phase, and whether the telemetry runs.
abbrev pub Progress : Type 0
Progress = Phase × Bool

-- What may be done when, as the program promises it: the server listens at its port when its router
-- and its handlers are there, is shut down after a signal, and what was set up is closed afterwards.
abbrev pub allowed : Progress → Action → Option Progress
allowed (begun, otel) init_own_logger = some (begun, otel)
allowed (begun, false) (init_otel config) = some (begun, true)
allowed (begun, otel) (warning e) = some (begun, otel)
allowed (begun, otel) (fatal e) = some (ended, otel)
allowed (begun, otel) replace_globals = some (logging, otel)
allowed (logging, otel) redirect_std_log = some (logging, otel)
allowed (logging, otel) init_http_router = some (routed, otel)
allowed (routed, otel) init_http_handlers = some (registered, otel)
allowed (registered, otel) (listen_and_serve_pprof address) =
    if bytes_eq address (codes ":7888") then none else some (registered, otel)
allowed (registered, otel) (listen_and_serve address) =
    if bytes_eq address (codes ":7888") then some (listening, otel) else none
allowed (listening, otel) await_signal = some (signalled, otel)
allowed (signalled, otel) (shutdown seconds) = some (stopped, otel)
allowed (stopped, otel) cancel_context = some (stopped, otel)
allowed (stopped, otel) sync_logger = some (closed, otel)
allowed (closed, true) shutdown_otel = some (closed, false)
allowed p action = none

abbrev pub follow : Progress → List Action → Option Progress
follow p [] = some p
follow p (action ∷ actions) = elim (allowed p action) [ none ↦ none | some q ↦ follow q actions ]

-- With a logger the program comes to its end and leaves no telemetry running, without one it ends
-- before it listens.
abbrev pub last_progress : {Z : Type 0} → Result Z → Option Bytes → Progress
last_progress (ok l) otel_host = (closed, false)
last_progress (err e) none = (ended, false)
last_progress (err e) (some host) = (ended, true)

-- Whatever the environment and the loggers are, what the program does follows the order that it
-- promises, and comes to the end of it: it listens at port 7888 once its router and its handlers are
-- there, waits for a signal, shuts the server down, and ends the telemetry that it started; or, if
-- the logger cannot be built, it ends before it listens.
pub main-follow :
    (zap : Zap) (log_level : Bytes) (lookup_env : Bytes → Option Bytes) (build_version : Bytes)
    → follow (begun, false) (main zap log_level lookup_env build_version)
      ≡ some (
          last_progress
            (zap.build (zap_conf zap log_level))
            (lookup_env (codes "OTEL_COLLECTOR_SVC")))
unfolding main init_logger bytes_eq listen_address format_int
main-follow zap log_level lookup_env build_version = ground arith
