-- ===== src/Http/Laws.antt =====
-- What the handlers answer.
use host_scanner.Prelude.{◌≡◌, true, none, some, inl, inr, Option-cases, arith}
use host_scanner.Http.{Writer, write_header, write, healthz_handler, readyz_handler}

-- A probe whose writer has no content type sends none, since it is set when the status has been
-- sent.
pub probes_sent_content_type :
    (w : Writer)
    → w.content_type ≡ none
    → w.sent_content_type ≡ none
    → ((healthz_handler w).sent_content_type ≡ none)
      × ((readyz_handler (some true) w).sent_content_type ≡ none)
unfolding healthz_handler readyz_handler write write_header
probes_sent_content_type w t s = elim (Option-cases w.code) [
  | inl n ↦ (ground arith, ground arith)
  | inr (c, n) ↦ (ground arith, ground arith)
]
