-- ===== src/Server/Router.antt =====
-- sensor.go: the chain of handlers that a request goes through.
use host_scanner.Prelude.{ℕ, ◌+◌, Bool, true, false, ◌&&◌, leb, List, [], ◌∷◌, map, if◌then◌else◌}
use host_scanner.Prelude.Bytes.{Bytes, bytes_eq}
use host_scanner.Http.{Writer, new_writer}
use host_scanner.Server.State.{Request, State, Served, replied, panicked, Handler, Node, Negroni}
use host_scanner.Server.Handlers.{healthz_ep, readyz_ep, init_http_handlers}
use host_scanner.Server.Mux.{serve_mux}
use host_scanner.Server.Filter.{filter_n_log_http_errors}

-- A capital letter as a small one.
unfoldable pub lower : ℕ → ℕ
lower c = if leb b'A' c && leb c b'Z' then c + 32 else c

-- `strings.ToLower` on a text of ASCII.
unfoldable pub to_lower : Bytes → Bytes
to_lower = map lower

-- The request with its path in small letters.
abbrev pub caseless : Request → Request
caseless r = record r { path = to_lower r.path }

unfoldable pub caseless_matcher : (Request → Handler) → Request → Handler
caseless_matcher next r = next (caseless r)

abbrev pub filtered_end_points : List Bytes
filtered_end_points = healthz_ep ∷ readyz_ep ∷ []

-- The filter of the telemetry.
unfoldable pub is_traced : List Bytes → Bytes → Bool
is_traced [] path = true
is_traced (f ∷ fs) path = let rest = is_traced fs path in if bytes_eq path f then false else rest

abbrev pub span_name : Request → Bytes
span_name r = r.request_uri

-- `otelhttp.NewHandler`: a span for each request that the filter lets through.
unfoldable pub trace : Request → State → State
trace r s =
    if is_traced filtered_end_points r.path then record s { spans = span_name r ∷ s.spans } else s

unfoldable pub telemetry : (Request → Handler) → Request → Handler
telemetry next r s = next r (trace r s)

module _ (negroni : Negroni) where
  -- `negroni.NewRecovery`
  unfoldable pub or_recover : Writer → Served → Served
  or_recover w (replied w' s) = replied w' s
  or_recover w (panicked s) = replied (negroni.recover w) s
  or_recover w Served.out_of_fuel = Served.out_of_fuel

  unfoldable pub recovery : Handler → Handler
  recovery next s w = or_recover w (next s w)

  module _ {C : Type 0} (node : Node C) where
    unfoldable pub init_http_router : Request → Handler
    init_http_router = caseless_matcher λ r.
        recovery
          (filter_n_log_http_errors negroni r (telemetry (serve_mux (init_http_handlers node)) r))

  -- The answer to a request, before those to the requests behind it.
  abbrev pub then_serve : Served → (State → List Writer) → List Writer
  then_serve (replied w s) rest = w ∷ rest s
  then_serve (panicked s) rest = []
  then_serve Served.out_of_fuel rest = []

  -- The answers to requests in sequence, each with the node as it is then, and a writer of its own.
  unfoldable pub serve : {C : Type 0} → List (Node C × Request) → State → List Writer
  serve [] s = []
  serve ((node, r) ∷ rs) s = then_serve (init_http_router node r s new_writer) (serve rs)
