-- ===== src/Server/Failures.antt =====
-- The log of the requests that fail.
use native.Mathlib.Omega.{arith}
use host_scanner.Prelude.{
  ℕ, ◌<◌, ◌≤◌, ◌*◌, ◌^◌, ◌⊎◌, inl, inr, true, false, Bool-cases, ltb, leb, ◌≡◌, refl, ap, ◌∙◌, none,
  some, [], ◌∷◌, ◌++◌, length, if◌then◌else◌,
}
use host_scanner.Prelude.Bytes.{Bytes, codes}
use host_scanner.GoError.{GoError, error_text}
use host_scanner.Http.{Writer, new_writer, write, write_header}
use host_scanner.Server.State.{Request, Entry, State, replied, Node, Negroni}
use host_scanner.Server.Handlers.{init_http_handlers}
use host_scanner.Server.Mux.{serve_mux}
use host_scanner.Server.Filter.{
  is_failure, after_next, unless_unreadable, filter_n_log_http_errors, body_log_writer, bytes_of,
  given_back, log_failure,
}
use host_scanner.Server.Router.{
  caseless, trace, telemetry, or_recover, recovery, caseless_matcher, init_http_router,
}
use host_scanner.Server.Logging.{serve_mux_kept}

-- What negroni documents of its writer: the status that was sent, and the size of the body.
pub record IsCounting (negroni : Negroni) : Type 0 where
  pub status : (w : Writer) (code : ℕ) → w.code ≡ some code → negroni.status w ≡ code
  pub size : (w : Writer) → negroni.size w ≡ length w.body

module _ (r : Request) where
  -- A message on a response with a status, a size and a body.
  abbrev pub entry : ℕ → ℕ → Bytes → Entry
  entry code size body = record {
    method = r.method;
    request_uri = r.request_uri;
    remote_addr = r.remote_addr;
    request_body = r.body;
    http_status = code;
    response_size = size;
    response_body = body;
  }

  -- The message is logged if the status is no success or the request took more than fifty seconds.
  abbrev pub logged : ℕ → ℕ → Bytes → State → State
  logged code size body t =
      if is_failure code r.elapsed then record t { log = entry code size body ∷ t.log } else t

-- What is answered if the body cannot be read.
abbrev pub unreadable : GoError → Bytes
unreadable e = codes "Cannot read body: " ++ error_text e

is_failure_sound :
    (code elapsed : ℕ)
    → is_failure code elapsed ≡ true
    → (code < 200) ⊎ (300 ≤ code) ⊎ (50 * 10 ^ 9 < elapsed)
unfolding is_failure
is_failure_sound code elapsed f = elim (Bool-cases (ltb code 200)) [
  | inl a ↦ inl (ground (arith, a))
  | inr a ↦ elim (Bool-cases (leb 300 code)) [
    | inl b ↦ inr (inl (ground (arith, b)))
    | inr b ↦ inr (inr (ground (arith, a, b, f)))
  ]
]

is_failure_complete :
    (code elapsed : ℕ)
    → is_failure code elapsed ≡ false
    → (200 ≤ code) × (code < 300) × (elapsed ≤ 50 * 10 ^ 9)
unfolding is_failure
is_failure_complete code elapsed f = ground (arith, f)

module _ (negroni : Negroni) (counts : IsCounting negroni) {C : Type 0} (node : Node C) where
  log_failure-logged :
      (r : Request) (x : Writer) (t : State) (code : ℕ)
      → x.code ≡ some code
      → log_failure negroni r x t ≡ logged r code (length x.body) (bytes_of x.res_body) t
  unfolding log_failure
  log_failure-logged r x t code c =
      ap (λ n. logged r n (negroni.size x) (bytes_of x.res_body) t) (counts.status x code c)
      ∙ ap (λ n. logged r code n (bytes_of x.res_body) t) (counts.size x)

  reply_logged :
      (r : Request) (s t : State) (x : Writer) (code : ℕ)
      → r.body_error ≡ none
      → serve_mux
          (init_http_handlers node)
          (caseless r)
          (trace (caseless r) s)
          (body_log_writer new_writer)
        ≡ replied x t
      → x.code ≡ some code
      → init_http_router negroni node r s new_writer
        ≡ replied (given_back new_writer x) (logged r code (length x.body) x.body t)
  unfolding init_http_router caseless_matcher recovery or_recover filter_n_log_http_errors
      unless_unreadable after_next telemetry
  reply_logged r s t x code n e c =
      ap
        (λ o. or_recover negroni new_writer (
          unless_unreadable negroni (caseless r) o
            (telemetry (serve_mux (init_http_handlers node)) (caseless r)) s new_writer))
        n
      ∙ ap (λ y. or_recover negroni new_writer (after_next negroni (caseless r) new_writer y)) e
      ∙ ap (replied (given_back new_writer x)) (
          log_failure-logged (caseless r) x t code c
          ∙ ap (λ b. logged r code (length x.body) (bytes_of b) t)
              (serve_mux_kept node (caseless r) (trace (caseless r) s) t x e))

  -- If the body of a request can be read and the multiplexer replies, the response is the reply.
  -- Either its status is below 200 or at least 300, or it took more than fifty seconds, and it is
  -- logged, with the status, the size and the whole body of the response; or it is none of these
  -- and the log stays.
  pub init_http_router-logged :
      (r : Request) (s t : State) (x : Writer) (code : ℕ)
      → r.body_error ≡ none
      → serve_mux
          (init_http_handlers node)
          (caseless r)
          (trace (caseless r) s)
          (body_log_writer new_writer)
        ≡ replied x t
      → x.code ≡ some code
      → (((code < 200) ⊎ (300 ≤ code) ⊎ (50 * 10 ^ 9 < r.elapsed))
          × (init_http_router negroni node r s new_writer
              ≡ replied
                  (given_back new_writer x)
                  (record t { log = entry r code (length x.body) x.body ∷ t.log })))
        ⊎ ((200 ≤ code)
            × (code < 300)
            × (r.elapsed ≤ 50 * 10 ^ 9)
            × (init_http_router negroni node r s new_writer ≡ replied (given_back new_writer x) t))
  init_http_router-logged r s t x code n e c =
      let eq = reply_logged r s t x code n e c in
      elim (Bool-cases (is_failure code r.elapsed)) [
        | inl f ↦ inl (is_failure_sound code r.elapsed f, rw f at eq)
        | inr f ↦
            let (lo, hi, fast) = is_failure_complete code r.elapsed f in
            inr (lo, hi, fast, rw f at eq)
      ]

  -- A request whose body cannot be read reaches no handler: it is answered by 400 with the error,
  -- and logged with the size of that answer but without its text.
  pub init_http_router-unreadable :
      (r : Request) (s : State) (e : GoError)
      → r.body_error ≡ some e
      → (w : Writer) × (init_http_router negroni node r s new_writer
          ≡ replied w (record s { log = entry r 400 (length (unreadable e)) [] ∷ s.log }))
        × (w.code ≡ some 400)
        × (w.body ≡ unreadable e)
  unfolding init_http_router caseless_matcher recovery or_recover filter_n_log_http_errors
      unless_unreadable after_next write write_header is_failure
  init_http_router-unreadable r s e n = (
    given_back new_writer x,
    ap
          (λ o. or_recover negroni new_writer (
            unless_unreadable negroni (caseless r) o
              (telemetry (serve_mux (init_http_handlers node)) (caseless r)) s new_writer))
          n
        ∙ ap (replied (given_back new_writer x)) (log_failure-logged (caseless r) x s 400 refl),
    refl,
    refl,
  )
    where
      x : Writer
      x = body_log_writer (write (unreadable e) (write_header 400 new_writer))
