-- ===== src/Server/Same.antt =====
-- States that differ in the log and the spans alone.
use host_scanner.Prelude.{◌≡◌, refl, inl, inr, Bool-cases}
use host_scanner.Http.{Writer}
use host_scanner.Server.State.{Request, State, Negroni}
use host_scanner.Server.Filter.{is_failure, log_failure}
use host_scanner.Server.Router.{is_traced, filtered_end_points, trace}

pub record AreSame (s t : State) : Type 0 where
  pub build_version : s.build_version ≡ t.build_version
  pub is_ready : s.is_ready ≡ t.is_ready
  pub cache : s.cache ≡ t.cache

pub trace-AreSame : (r : Request) (s : State) → AreSame (trace r s) s
unfolding trace
trace-AreSame r s = elim (Bool-cases (is_traced filtered_end_points r.path)) [
  | inl f ↦ rw f (record { build_version = refl; is_ready = refl; cache = refl })
  | inr f ↦ rw f (record { build_version = refl; is_ready = refl; cache = refl })
]

pub log_failure-AreSame :
    (negroni : Negroni) (r : Request) (w : Writer) (s t : State)
    → AreSame s t
    → AreSame (log_failure negroni r w s) t
unfolding log_failure
log_failure-AreSame negroni r w s t a =
    elim (Bool-cases (is_failure (negroni.status w) r.elapsed)) [
      | inl f ↦
          rw f (record { build_version = a.build_version; is_ready = a.is_ready; cache = a.cache })
      | inr f ↦ rw f a
    ]
