-- ===== src/Server/Start.antt =====
-- sensor.go: what `initLogger` and `main` do from the start to the end of the program.
pub mod Laws
mod Tests
use host_scanner.Prelude.{ℕ, Bool, true, false, Option, none, some, List, [], ◌∷◌, ◌++◌}
use host_scanner.Prelude.Bytes.{Bytes, codes, contains}
use host_scanner.Prelude.Int.{pos, format_int}
use host_scanner.GoError.{GoError, Result, ok, err}

-- `url.URL{Host: …}` is kept as the host.
pub record OtelConfig : Type 0 where
  pub service : Bytes
  pub version : Bytes
  pub account_id : Bytes
  pub cluster_name : Bytes
  pub host : Bytes

-- A step of `main`: the calls that set up, wait for, or end something.
pub data Action : Type 0 where
  -- `logger.InitLogger`, which makes the program's own logger
  init_own_logger : Action
  -- a warning, and an error that ends the program at once, without the deferred calls
  warning fatal : GoError → Action
  replace_globals redirect_std_log init_http_router init_http_handlers : Action
  init_otel : OtelConfig → Action
  -- in a goroutine, the server with a multiplexer of its own or the one of this program
  listen_and_serve_pprof listen_and_serve : Bytes → Action
  -- a wait for SIGINT, SIGTERM, SIGHUP or SIGQUIT
  await_signal : Action
  -- a shutdown, with the seconds that it has
  shutdown : ℕ → Action
  cancel_context sync_logger shutdown_otel : Action

-- `zap.Config`, with the time encoder of its `EncoderConfig`, which is otherwise that of
-- `NewProductionEncoderConfig`, for a type of levels.
pub record ZapConfig (L : Type 0) : Type 0 where
  pub disable_caller : Bool
  pub disable_stacktrace : Bool
  pub level : L
  pub encoding : Bytes
  pub encode_time : Bytes
  pub output_paths : List Bytes
  pub error_output_paths : List Bytes

-- What zap has: its atomic levels, the new one, what `UnmarshalText` leaves in one and its error, and
-- what `Config.Build` gives.
pub record Zap : Type 1 where
  pub Level : Type 0
  pub Logger : Type 0
  pub new_atomic_level : Level
  pub unmarshal_text : Level → Bytes → Level × Option GoError
  pub build : ZapConfig Level → Result Logger

module _ (zap : Zap) (log_level : Bytes) where
  abbrev pub zap_conf : ZapConfig zap.Level
  zap_conf = record {
    disable_caller = true;
    disable_stacktrace = true;
    level = (zap.unmarshal_text zap.new_atomic_level log_level).0;
    encoding = codes "json";
    encode_time = codes "RFC3339Nano";
    output_paths = codes "stdout" ∷ [];
    error_output_paths = codes "stderr" ∷ [];
  }

  abbrev warn_level : Option GoError → List Action
  warn_level none = []
  warn_level (some e) = warning e ∷ []

  abbrev install : Result zap.Logger → List Action × Option zap.Logger
  install (ok l) = (replace_globals ∷ redirect_std_log ∷ [], some l)
  install (err e) = (fatal e ∷ [], none)

  -- The standard library's logger writes to the one that is returned; there is none if the program
  -- ends here. `log_level` is the level of the program's own logger.
  unfoldable pub init_logger : List Action × Option zap.Logger
  init_logger =
      let (actions, l) = install (zap.build zap_conf) in
      (warn_level (zap.unmarshal_text zap.new_atomic_level log_level).1 ++ actions, l)

abbrev pub listening_port : ℕ
listening_port = 7888

-- `fmt.Sprintf(":%d", listeningPort)`
unfoldable pub listen_address : Bytes
listen_address = b':' ∷ format_int (pos listening_port)

module _ (lookup_env : Bytes → Option Bytes) where
  -- `os.Getenv`
  abbrev or_empty : Option Bytes → Bytes
  or_empty none = []
  or_empty (some v) = v

  abbrev pub getenv : Bytes → Bytes
  getenv name = or_empty (lookup_env name)

  -- The version that is told is the variable that has the version for its name.
  abbrev pub otel_config : Bytes → Bytes → OtelConfig
  otel_config build_version otel_host = record {
    service = codes "host-scanner";
    version = getenv build_version;
    account_id = getenv (codes "ACCOUNT_ID");
    cluster_name = getenv (codes "CLUSTER_NAME");
    host = otel_host;
  }

  -- What is done at the start and, deferred, at the end, if there is a collector.
  abbrev start_otel : Bytes → Option Bytes → List Action
  start_otel build_version none = []
  start_otel build_version (some otel_host) = init_otel (otel_config build_version otel_host) ∷ []

  abbrev end_otel : Option Bytes → List Action
  end_otel none = []
  end_otel (some otel_host) = shutdown_otel ∷ []

  abbrev debug : Bool → List Action
  debug true = listen_and_serve_pprof (codes ":6060") ∷ []
  debug false = []

-- What follows a call that ends the program is not done.
abbrev pub unless_ended : {Z : Type 0} → Option Z → List Action → List Action
unless_ended none actions = []
unless_ended (some l) actions = actions

module _ (zap : Zap) (log_level : Bytes) (lookup_env : Bytes → Option Bytes) where
  -- The deferred calls stand at the end, the last one first.
  unfoldable pub main : Bytes → List Action
  main build_version =
      let otel_host = lookup_env (codes "OTEL_COLLECTOR_SVC") in
      let (log_actions, base_logger) = init_logger zap log_level in
      (init_own_logger ∷ start_otel lookup_env build_version otel_host)
      ++ (log_actions
          ++ unless_ended base_logger (
              (init_http_router ∷ init_http_handlers ∷ [])
              ++ (debug lookup_env
                    (contains (getenv lookup_env (codes "CADB_DEBUG")) (codes "pprof"))
                  ++ ((listen_and_serve listen_address
                        ∷ await_signal
                        ∷ shutdown 61
                        ∷ cancel_context
                        ∷ sync_logger
                        ∷ [])
                      ++ end_otel lookup_env otel_host))))
