-- ===== src/Server/Readiness/Laws.antt =====
-- The readiness probe while the server runs.
use host_scanner.Prelude.{
  ℕ, ◌≡◌, refl, ap, sym, ◌∙◌, subst, inl, inr, ◌⊎◌, Bool, true, false, not, none, some, Bool-cases,
}
use host_scanner.Http.{Writer, new_writer, readyz_handler, write, write_header, http_error}
use host_scanner.Server.State.{Request, State, replied, Node, Negroni}
use host_scanner.Server.Handlers.{readyz, readyz_ep, init_http_handlers}
use host_scanner.Server.Filter.{body_log_writer, given_back, log_failure}
use host_scanner.Server.Router.{to_lower, caseless, trace, init_http_router}
use host_scanner.Server.Same.{trace-AreSame}
use host_scanner.Server.Routes.{init_http_handlers_found, init_http_router_reply}
use host_scanner.Server.Readiness.{
  Machine, setup_readyz, publish, Step, store, request, Run, here, later,
}
use host_scanner.Server.Readiness.Keeping.{Keeps, init_http_router-IsKeeping}

-- A request to the readiness probe: its path in small or capital letters, and a body that can be
-- read.
pub record IsProbe (r : Request) : Type 0 where
  pub path : to_lower r.path ≡ readyz_ep
  pub body_error : r.body_error ≡ none

abbrev pub readyz_code : Bool → ℕ
readyz_code true = 200
readyz_code false = 503

readyz_handler_code :
    (b : Bool) → (readyz_handler (some b) (body_log_writer new_writer)).code ≡ some (readyz_code b)
unfolding readyz_handler http_error write write_header
readyz_handler_code true = refl
readyz_handler_code false = refl

module _ (negroni : Negroni) {C : Type 0} (node : Node C) where
  -- The probe is answered with this status.
  abbrev pub IsAnsweredBy : ℕ → Request → State → Type 0
  IsAnsweredBy code r s =
      (w : Writer) × (s' : State) × (init_http_router negroni node r s new_writer ≡ replied w s')
      × (w.code ≡ some code)

  probe-IsAnsweredBy :
      (r : Request) (s : State) → IsProbe r → IsAnsweredBy (readyz_code s.is_ready) r s
  unfolding init_http_handlers
  probe-IsAnsweredBy r s p = (
    given_back new_writer x,
    log_failure negroni r' x s₁,
    init_http_router_reply node negroni r readyz_ep readyz s s₁ new_writer x
        (init_http_handlers_found node).1.0 p.path p.body_error refl,
    readyz_handler_code s₁.is_ready ∙ ap (λ b. some (readyz_code b)) (trace-AreSame r' s).is_ready,
  )
    where
      r' : Request
      r' = caseless r

      s₁ : State
      s₁ = trace r' s

      x : Writer
      x = readyz_handler (some s₁.is_ready) (body_log_writer new_writer)

  -- The server is ready exactly once the goroutine has stored `true`.
  Run-is_ready :
      {m n : Machine}
      → Run negroni node m n
      → m.state.is_ready ≡ not m.is_pending
      → n.state.is_ready ≡ not n.is_pending
  Run-is_ready here h = h
  Run-is_ready (later r (store p)) h = refl
  Run-is_ready (later {n} r (request q e)) h =
      subst (Keeps n.state.is_ready) e
        (init_http_router-IsKeeping node negroni q n.state new_writer)
      ∙ Run-is_ready r h

  -- While the server runs, after any requests, the readiness probe is answered by 503 as long as
  -- the goroutine has not stored `true`, and by 200 from then on.
  pub probe_while_running :
      (s : State) (m : Machine)
      → Run negroni node (setup_readyz s) m
      → (r : Request) → IsProbe r
      → IsAnsweredBy (readyz_code (not m.is_pending)) r m.state
  probe_while_running s m run r p =
      subst (λ b. IsAnsweredBy (readyz_code b) r m.state) (Run-is_ready run refl)
        (probe-IsAnsweredBy r m.state p)

  -- No store is left, and none is left later.
  Run-is_pending :
      {m n : Machine} → Run negroni node m n → m.is_pending ≡ false → n.is_pending ≡ false
  Run-is_pending here h = h
  Run-is_pending (later r (store p)) h = refl
  Run-is_pending (later r (request q e)) h = Run-is_pending r h

  -- From every state that the server comes to, at most one step of the goroutine leads to one from
  -- which on every probe is answered by 200, whatever is requested in between.
  pub IsProbe-eventually :
      (s : State) (m : Machine)
      → Run negroni node (setup_readyz s) m
      → (n : Machine) × ((n ≡ m) ⊎ Step negroni node m n)
        × ((k : Machine)
            → Run negroni node n k
            → (r : Request) → IsProbe r
            → IsAnsweredBy 200 r k.state)
  IsProbe-eventually s m run = elim (Bool-cases m.is_pending) [
    | inl p ↦ (publish m, inr (store p), λ k run' r q. answered (publish m) k refl refl run' r q)
    | inr p ↦
        (m, inl refl, λ k run' r q. answered m k p (Run-is_ready run refl ∙ ap not p) run' r q)
  ]
    where
      answered :
          (n k : Machine)
          → n.is_pending ≡ false
          → n.state.is_ready ≡ true
          → Run negroni node n k
          → (r : Request) → IsProbe r
          → IsAnsweredBy 200 r k.state
      answered n k p h run' r q =
          subst (λ b. IsAnsweredBy (readyz_code b) r k.state)
            (Run-is_ready run' (h ∙ sym (ap not p)) ∙ ap not (Run-is_pending run' p))
            (probe-IsAnsweredBy r k.state q)
