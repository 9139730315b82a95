-- ===== src/Http/Tests.antt =====
-- The theorems on the handlers at concrete requests.
use host_scanner.Prelude.{ℕ, ◌≡◌, ◌≢◌, ◌⊎◌, refl, none, some, []}
use host_scanner.Prelude.Bytes.{Bytes}
use host_scanner.Prelude.Update.{update}
use host_scanner.Http.Versions.{
  empty_version, unknown, at_test, at_assign, at_read, answered, test_empty, assign, read, System,
  pick, Reach, here, later,
}
use host_scanner.Http.Versions.Laws.{told, IsFailing, Reach-answered}

-- A call that is answered without a build version, while another one has found that out.
abbrev two_calls : System
two_calls = record {
  build_version = unknown;
  place =
      update
        (update (update (update (λ i. at_test) 0 at_assign) 1 at_assign) 0
          (at_read (some empty_version)))
        0 (answered unknown (some empty_version));
}

two_calls_reached : Reach [] two_calls
two_calls_reached =
    later
      (later (later (later here (pick 0 (test_empty refl))) (pick 1 (test_empty refl)))
        (pick 0 assign))
      (pick 0 read)

Reach-answered_example :
    (unknown ≡ told [])
    × (two_calls.build_version ≡ told [])
    × ((some empty_version ≡ none) ⊎ (◌≡◌ {A = Bytes} [] []))
    × ((◌≢◌ {A = Bytes} [] []) ⊎ ((k : ℕ) × IsFailing (two_calls.place k)))
Reach-answered_example =
    Reach-answered [] two_calls 0 unknown (some empty_version) two_calls_reached refl
