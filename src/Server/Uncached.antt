-- ===== src/Server/Uncached.antt =====
-- The server against one that has an empty cache of names at each request.
use host_scanner.Prelude.{
  ◌≡◌, refl, ap, ap₂, subst, inl, inr, Option, none, some, List, [], ◌∷◌, All, Bool-cases,
}
use host_scanner.Prelude.Dict.{lookup-All}
use host_scanner.GoError.{GoError}
use host_scanner.Utils.Users.Caching.{
  IsRight, nil-IsRight, HaveSameNames, HaveSameNames-sym, HaveSameNames-IsRight,
}
use host_scanner.Host.{Host}
use host_scanner.Http.{Writer, new_writer}
use host_scanner.Server.State.{Request, State, Served, Handler, Node, Negroni}
use host_scanner.Server.Handlers.{init_http_handlers}
use host_scanner.Server.Mux.{Match, serve_match, find_handler, serve_mux, moved, found, not_found}
use host_scanner.Server.Mux.Laws.{find_handler_iff}
use host_scanner.Server.Filter.{
  is_failure, log_failure, after_next, body_log_writer, entry_of, given_back, unless_unreadable,
  filter_n_log_http_errors,
}
use host_scanner.Server.Router.{
  caseless, is_traced, filtered_end_points, span_name, trace, telemetry, or_recover, recovery,
  caseless_matcher, init_http_router, serve, then_serve,
}
use host_scanner.Server.Agreeing.{
  AreAlike, Agree, replies, panics, no_fuel, IsAgreeing, init_http_handlers-IsAgreeing,
}

module _ (negroni : Negroni) {C : Type 0} (node : Node C) where
  serve_mux-IsAgreeing :
      (r : Request) → IsAgreeing node.host (serve_mux (init_http_handlers node) r)
  unfolding serve_mux find_handler
  serve_mux-IsAgreeing r s t w a = of_match (find_handler (init_http_handlers node) r.path) refl
    where
      of_match :
          (m : Match Handler)
          → find_handler (init_http_handlers node) r.path ≡ m
          → Agree node.host (serve_match r m s w) (serve_match r m t w)
      of_match (moved p) e = replies refl a
      of_match not_found e = replies refl a
      of_match (found h) e =
          lookup-All (λ entry. IsAgreeing node.host entry.1) r.path h (init_http_handlers node)
            (init_http_handlers-IsAgreeing node)
            ((find_handler_iff (init_http_handlers node) r.path h).0 e).1 s t w a

  log_failure-AreAlike :
      (r : Request) {w x : Writer} {s t : State}
      → w ≡ x
      → AreAlike node.host s t
      → AreAlike node.host (log_failure negroni r w s) (log_failure negroni r x t)
  unfolding log_failure
  log_failure-AreAlike r {w} {s} {t} e a =
      subst (λ y. AreAlike node.host (log_failure negroni r w s) (log_failure negroni r y t)) e same
    where
      same : AreAlike node.host (log_failure negroni r w s) (log_failure negroni r w t)
      same = elim (Bool-cases (is_failure (negroni.status w) r.elapsed)) [
        | inl f ↦ rw f (record {
          build_version = a.build_version;
          is_ready = a.is_ready;
          log = ap (λ l. entry_of negroni r w ∷ l) a.log;
          spans = a.spans;
          left = a.left;
          right = a.right;
        })
        | inr f ↦ rw f a
      ]

  after_next-Agree :
      (r : Request) (w : Writer) {a b : Served}
      → Agree node.host a b
      → Agree node.host (after_next negroni r w a) (after_next negroni r w b)
  unfolding after_next
  after_next-Agree r w (replies e a) = replies (ap (given_back w) e) (log_failure-AreAlike r e a)
  after_next-Agree r w (panics a) = panics a
  after_next-Agree r w no_fuel = no_fuel

  unless_unreadable-IsAgreeing :
      (r : Request) (e : Option GoError) (next : Handler)
      → IsAgreeing node.host next
      → IsAgreeing node.host (unless_unreadable negroni r e next)
  unfolding unless_unreadable
  unless_unreadable-IsAgreeing r none next h s t w a =
      after_next-Agree r w (h s t (body_log_writer w) a)
  unless_unreadable-IsAgreeing r (some e) next h s t w a = after_next-Agree r w (replies refl a)

  trace-AreAlike :
      (r : Request) {s t : State}
      → AreAlike node.host s t
      → AreAlike node.host (trace r s) (trace r t)
  unfolding trace
  trace-AreAlike r a = elim (Bool-cases (is_traced filtered_end_points r.path)) [
    | inl f ↦ rw f (record {
      build_version = a.build_version;
      is_ready = a.is_ready;
      log = a.log;
      spans = ap (λ l. span_name r ∷ l) a.spans;
      left = a.left;
      right = a.right;
    })
    | inr f ↦ rw f a
  ]

  telemetry-IsAgreeing :
      (r : Request) (next : Request → Handler)
      → IsAgreeing node.host (next r)
      → IsAgreeing node.host (telemetry next r)
  unfolding telemetry
  telemetry-IsAgreeing r next h s t w a = h (trace r s) (trace r t) w (trace-AreAlike r a)

  or_recover-Agree :
      (w : Writer) {a b : Served}
      → Agree node.host a b
      → Agree node.host (or_recover negroni w a) (or_recover negroni w b)
  unfolding or_recover
  or_recover-Agree w (replies e a) = replies e a
  or_recover-Agree w (panics a) = replies refl a
  or_recover-Agree w no_fuel = no_fuel

  pub init_http_router-IsAgreeing :
      (r : Request) → IsAgreeing node.host (init_http_router negroni node r)
  unfolding init_http_router caseless_matcher recovery filter_n_log_http_errors
  init_http_router-IsAgreeing r s t w a =
      let r' = caseless r in
      or_recover-Agree w (
        unless_unreadable-IsAgreeing r' r'.body_error _
          (telemetry-IsAgreeing r' _ (serve_mux-IsAgreeing r')) s t w a)

abbrev without_cache : State → State
without_cache s = record s { cache = [] }

without_cache-AreAlike :
    {host : Host} {s t : State} → AreAlike host s t → AreAlike host s (without_cache t)
without_cache-AreAlike {host} a = record {
  build_version = a.build_version;
  is_ready = a.is_ready;
  log = a.log;
  spans = a.spans;
  left = a.left;
  right = nil-IsRight host;
}

HaveSameNames-AreAlike :
    {host host' : Host} {s t : State}
    → HaveSameNames host host'
    → AreAlike host s t
    → AreAlike host' s t
HaveSameNames-AreAlike n a = record {
  build_version = a.build_version;
  is_ready = a.is_ready;
  log = a.log;
  spans = a.spans;
  left = HaveSameNames-IsRight n a.left;
  right = HaveSameNames-IsRight n a.right;
}

module _ (negroni : Negroni) {C : Type 0} where
  -- The answers of a server that forgets the cache before each request.
  unfoldable pub serve_uncached : List (Node C × Request) → State → List Writer
  serve_uncached [] s = []
  serve_uncached ((node, r) ∷ rs) s =
      then_serve negroni (init_http_router negroni node r (without_cache s) new_writer)
        (serve_uncached rs)

  module _ (host : Host) where
    alike_served :
        (rs : List (Node C × Request)) (s t : State)
        → All (λ entry. HaveSameNames host entry.0.host) rs
        → AreAlike host s t
        → serve negroni rs s ≡ serve_uncached rs t
    unfolding serve serve_uncached
    alike_served [] s t same a = refl
    alike_served ((node, r) ∷ rs) s t same a =
        of_served
          (init_http_router-IsAgreeing negroni node r s _ new_writer
            (without_cache-AreAlike (HaveSameNames-AreAlike same.0 a)))
          (λ s' t' a'.
            alike_served rs s' t' same.1 (HaveSameNames-AreAlike (HaveSameNames-sym same.0) a'))
      where
        of_served :
            {a b : Served}
            → Agree node.host a b
            → ((s t : State) → AreAlike node.host s t → serve negroni rs s ≡ serve_uncached rs t)
            → then_serve negroni a (serve negroni rs) ≡ then_serve negroni b (serve_uncached rs)
        of_served (replies e a) ih = ap₂ (λ w ws. w ∷ ws) e (ih _ _ a)
        of_served (panics a) ih = refl
        of_served no_fuel ih = refl

    -- From a state whose cache is right, the server answers any requests in sequence as one that
    -- forgets all cached names before each request, also where the node changes between the
    -- requests, as long as the lookups of users and groups give the same names all the time.
    pub serve-serve_uncached :
        (rs : List (Node C × Request)) (s : State)
        → All (λ entry. HaveSameNames host entry.0.host) rs
        → IsRight host s.cache
        → serve negroni rs s ≡ serve_uncached rs s
    serve-serve_uncached rs s same h = alike_served rs s s same (record {
      build_version = refl;
      is_ready = refl;
      log = refl;
      spans = refl;
      left = h;
      right = h;
    })
