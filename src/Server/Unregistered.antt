-- ===== src/Server/Unregistered.antt =====
-- What is answered for paths that are not registered.
use host_scanner.Prelude.{
  ◌≡◌, refl, ap, ◌∙◌, inl, inr, Bool, true, false, none, some, Bool-cases, if◌then◌else◌, arith,
}
use host_scanner.Prelude.Bytes.{Bytes, bytes_eq, codes}
use host_scanner.Prelude.Dict.{lookup}
use host_scanner.Http.{Writer, new_writer, write, write_header, http_error}
use host_scanner.Server.State.{Request, State, replied, Negroni, Handler, Node}
use host_scanner.Server.Handlers.{init_http_handlers}
use host_scanner.Server.Filter.{
  given_back, body_log_writer, log_failure, after_next, unless_unreadable, filter_n_log_http_errors,
}
use host_scanner.Server.Router.{
  to_lower, caseless, trace, caseless_matcher, telemetry, or_recover, recovery, init_http_router,
}
use host_scanner.Server.Same.{AreSame, trace-AreSame, log_failure-AreSame}
use host_scanner.Server.Mux.{
  Match, clean_path, moved, not_found, serve_mux, serve_match, redirect_url, redirect_by,
  redirect_with, redirect,
}
use host_scanner.Server.Mux.Laws.{find_handler-none}

redirect_code :
    (r : Request) (url : Bytes) (w : Writer)
    → w.code ≡ none
    → w.content_type ≡ none
    → ((redirect r url w).code ≡ some 301) × ((redirect r url w).location ≡ some url)
unfolding redirect redirect_with redirect_by write write_header
redirect_code r url w c t = (ground arith, ground arith)

-- The answer by whether the path is clean.
abbrev refused : Request → Bytes → Bool → Writer → Writer
refused r path true w = http_error (codes "404 page not found") 404 w
refused r path false w = redirect r (redirect_url r path) w

serve_match-refused :
    (r : Request) (path : Bytes) (b : Bool) (s : State) (w : Writer)
    → serve_match r (if b then not_found else moved path) s w ≡ replied (refused r path b w) s
serve_match-refused r path true s w = refl
serve_match-refused r path false s w = refl

-- 404 for a clean path, and a redirect to the clean path for any other.
pub record IsRefusal (r : Request) (path : Bytes) (w : Writer) : Type 0 where
  pub code : w.code ≡ some (if bytes_eq (clean_path path) path then 404 else 301)
  pub location :
      w.location
      ≡ (if bytes_eq (clean_path path) path then none else some (redirect_url r (clean_path path)))

refused-IsRefusal :
    (r : Request) (path : Bytes)
    → IsRefusal r path (
        given_back new_writer (
          refused r
            (clean_path path)
            (bytes_eq (clean_path path) path)
            (body_log_writer new_writer)))
unfolding http_error write write_header
refused-IsRefusal r path = elim (Bool-cases (bytes_eq (clean_path path) path)) [
  | inl b ↦ record { code = rw b refl; location = rw b refl }
  | inr b ↦
      let both =
        redirect_code r (redirect_url r (clean_path path)) (body_log_writer new_writer) refl refl in
      record { code = rw b both.0; location = rw b both.1 }
]

module _ (negroni : Negroni) {C : Type 0} (node : Node C) where
  -- A request whose body can be read and whose path, in small letters, is not registered is
  -- answered by 404 if the path is clean, and otherwise by a redirect to the clean path, which is
  -- the location; the server keeps its version, its readiness and its cache.
  pub init_http_router_unregistered :
      (r : Request) (s : State)
      → r.body_error ≡ none
      → lookup (to_lower r.path) (init_http_handlers node) ≡ none
      → (w : Writer) × (s' : State) × (init_http_router negroni node r s new_writer ≡ replied w s')
        × IsRefusal r (to_lower r.path) w
        × AreSame s' s
  unfolding init_http_router caseless_matcher recovery or_recover filter_n_log_http_errors
      unless_unreadable after_next telemetry serve_mux log_failure
  init_http_router_unregistered r s n l = (
    w,
    log_failure negroni r' blw s₁,
    ap
          (λ m. or_recover negroni new_writer (
            unless_unreadable negroni r' r'.body_error (telemetry (λ q. serve_match q m) r') s
              new_writer))
          (find_handler-none (init_http_handlers node) path l)
        ∙ ap
            (λ e.
              or_recover negroni new_writer (
                unless_unreadable negroni r' e (telemetry (λ q. serve_match q m₀) r') s new_writer))
            n
        ∙ ap (λ x. or_recover negroni new_writer (after_next negroni r' new_writer x))
            (serve_match-refused r' (clean_path path) clean s₁ (body_log_writer new_writer)),
    record { code = refusal.code; location = refusal.location },
    log_failure-AreSame negroni r' blw s₁ s (trace-AreSame r' s),
  )
    where
      path : Bytes
      path = to_lower r.path

      r' : Request
      r' = caseless r

      clean : Bool
      clean = bytes_eq (clean_path path) path

      m₀ : Match Handler
      m₀ = if clean then not_found else moved (clean_path path)

      s₁ : State
      s₁ = trace r' s

      blw : Writer
      blw = refused r' (clean_path path) clean (body_log_writer new_writer)

      w : Writer
      w = given_back new_writer blw

      refusal : IsRefusal r' path w
      refusal = refused-IsRefusal r' path
