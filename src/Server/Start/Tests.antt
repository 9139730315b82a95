-- ===== src/Server/Start/Tests.antt =====
-- The order of `main` at a concrete environment.
use host_scanner.Prelude.{ℕ, false, ◌≡◌, Option, none, some, if◌then◌else◌}
use host_scanner.Prelude.Bytes.{Bytes, codes, bytes_eq}
use host_scanner.GoError.{failure, ok}
use host_scanner.Server.Start.{Zap, main}
use host_scanner.Server.Start.Laws.{begun, closed, follow, main-follow}

-- Levels by number; that of the text is not known.
abbrev zap : Zap
zap = record {
  Level = ℕ;
  Logger = ℕ;
  new_atomic_level = 0;
  unmarshal_text = λ level text. (level, some (failure (codes "unrecognized level")));
  build = λ config. ok config.level;
}

abbrev lookup_env : Bytes → Option Bytes
lookup_env name =
    if bytes_eq name (codes "OTEL_COLLECTOR_SVC") then some (codes "otel-collector:4317") else none

main-follow_example :
    follow (begun, false) (main zap (codes "warning") lookup_env (codes "v1"))
    ≡ some (closed, false)
main-follow_example = main-follow zap (codes "warning") lookup_env (codes "v1")
