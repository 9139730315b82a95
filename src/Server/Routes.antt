-- ===== src/Server/Routes.antt =====
-- Which requests reach a handler.
use host_scanner.Prelude.{◌≡◌, refl, ap, sym, ◌∙◌, ◌↔◌, none, some, All, subst}
use host_scanner.Prelude.Bytes.{Bytes, bytes_eq, has_suffix}
use host_scanner.Prelude.FilePath.{clean}
use host_scanner.Prelude.Dict.{lookup, lookup-All}
use host_scanner.Http.{Writer}
use host_scanner.Server.State.{Request, State, Served, replied, Negroni, Handler, Node}
use host_scanner.Server.Handlers.{init_http_handlers}
use host_scanner.Server.Filter.{
  body_log_writer, given_back, log_failure, after_next, unless_unreadable, filter_n_log_http_errors,
}
use host_scanner.Server.Router.{
  to_lower, caseless, caseless_matcher, trace, telemetry, or_recover, recovery, init_http_router,
}
use host_scanner.Server.Mux.{clean_path, find_handler, found, serve_mux, serve_match}
use host_scanner.Server.Mux.Laws.{find_handler_iff}

module _ {C : Type 0} (node : Node C) where
  init_http_handlers_clean : All (λ entry. clean_path entry.0 ≡ entry.0) (init_http_handlers node)
  unfolding init_http_handlers clean_path has_suffix clean
  init_http_handlers_clean = (
    refl,
    (
      refl,
      (refl, (refl, (refl, (refl, (refl, (refl, (refl, (refl, (refl, (refl, (refl, tt))))))))))),
    ),
  )

  pub init_http_handlers_found :
      All
        (λ entry. lookup entry.0 (init_http_handlers node) ≡ some entry.1)
        (init_http_handlers node)
  unfolding init_http_handlers lookup bytes_eq
  init_http_handlers_found = (
    refl,
    (
      refl,
      (refl, (refl, (refl, (refl, (refl, (refl, (refl, (refl, (refl, (refl, (refl, tt))))))))))),
    ),
  )

  -- The multiplexer finds a handler for a path exactly if that is registered for it.
  find_handler-lookup :
      (path : Bytes) (h : Handler)
      → (find_handler (init_http_handlers node) path ≡ found h)
        ↔ (lookup path (init_http_handlers node) ≡ some h)
  find_handler-lookup path h =
      let both = find_handler_iff (init_http_handlers node) path h in
      (
        λ e. (both.0 e).1,
        λ e. both.1 (
          lookup-All (λ entry. clean_path entry.0 ≡ entry.0) path h (init_http_handlers node)
              init_http_handlers_clean e,
          e,
        ),
      )

  module _ (negroni : Negroni) (r : Request) where
    init_http_router_found :
        (path : Bytes) (h : Handler)
        → lookup path (init_http_handlers node) ≡ some h
        → to_lower r.path ≡ path
        → (s : State) (w : Writer)
        → init_http_router negroni node r s w
          ≡ recovery negroni
              (filter_n_log_http_errors negroni (caseless r) (telemetry (λ _. h) (caseless r)))
              s
              w
    unfolding init_http_router caseless_matcher serve_mux telemetry
    init_http_router_found path h l e s w =
        ap
          (λ m.
            recovery negroni
              (filter_n_log_http_errors negroni (caseless r)
                (telemetry (λ q. serve_match q m) (caseless r)))
              s w)
          ((find_handler-lookup (to_lower r.path) h).1
            (subst (λ p. lookup p (init_http_handlers node) ≡ some h) (sym e) l))

    -- How a request whose body can be read ends by how its registered handler ends.
    pub init_http_router_served :
        (path : Bytes) (h : Handler) (s : State) (w : Writer) (served : Served)
        → lookup path (init_http_handlers node) ≡ some h
        → to_lower r.path ≡ path
        → r.body_error ≡ none
        → h (trace (caseless r) s) (body_log_writer w) ≡ served
        → init_http_router negroni node r s w
          ≡ or_recover negroni w (after_next negroni (caseless r) w served)
    unfolding recovery filter_n_log_http_errors unless_unreadable telemetry
    init_http_router_served path h s w served l e n eq =
        init_http_router_found path h l e s w
        ∙ ap
            (λ o.
              or_recover negroni w
                (unless_unreadable negroni (caseless r) o (telemetry (λ _. h) (caseless r)) s w))
            n
        ∙ ap (λ y. or_recover negroni w (after_next negroni (caseless r) w y)) eq

    pub init_http_router_reply :
        (path : Bytes) (h : Handler) (s t : State) (w x : Writer)
        → lookup path (init_http_handlers node) ≡ some h
        → to_lower r.path ≡ path
        → r.body_error ≡ none
        → h (trace (caseless r) s) (body_log_writer w) ≡ replied x t
        → init_http_router negroni node r s w
          ≡ replied (given_back w x) (log_failure negroni (caseless r) x t)
    unfolding or_recover after_next
    init_http_router_reply path h s t w x l e n eq =
        init_http_router_served path h s w (replied x t) l e n eq
