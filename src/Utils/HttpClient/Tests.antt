-- ===== src/Utils/HttpClient/Tests.antt =====
-- The theorems on `GetHttpClient` for two calls.
use host_scanner.Prelude.{ℕ, ◌≡◌, ◌≢◌, ◌≤◌, refl, Option, none, some}
use host_scanner.Utils.HttpClient.{
  System, pick, Reach, here, later, returned, see_nil, lock, still_nil, no_more_nil, assign,
  return_locked, unlock,
}
use host_scanner.Utils.HttpClient.Laws.{returned_same, made_bound, mutual_exclusion}
use host_scanner.Utils.HttpClient.Progress.{Finishes, returned_eventually}

-- Both calls see no client, and the first has the lock.
abbrev inside : (s : System) × Reach s
inside = (
  _,
  later
      (later (later (later here (pick 0 (see_nil refl))) (pick 1 (see_nil refl)))
        (pick 0 (lock refl)))
      (pick 0 (still_nil refl)),
)

-- Both have returned: the second has seen the client of the first under the lock.
abbrev ended : (s : System) × Reach s
ended = (
  _,
  later
      (later
        (later
          (later
            (later (later (later inside.1 (pick 0 assign)) (pick 0 return_locked)) (pick 0 unlock))
            (pick 1 (lock refl)))
          (pick 1 (no_more_nil refl)))
        (pick 1 return_locked))
      (pick 1 unlock),
)

abbrev first_client : Option ℕ
first_client = some 0

returned_same_example :
    (first_client ≡ first_client)
    × (first_client ≡ ended.0.globals.http_client)
    × (first_client ≢ none)
returned_same_example = returned_same ended.1 0 1 first_client first_client refl refl

made_bound_example : ended.0.globals.made ≤ 1
made_bound_example = made_bound ended.1

mutual_exclusion_example : ◌≡◌ {A = ℕ} 0 0
mutual_exclusion_example = mutual_exclusion inside.1 0 0 refl refl

returned_eventually_example :
    (t : System) × Finishes 1 inside.0 t × (t.pc 1 ≡ returned (some 0)) × (t.globals.holder ≡ none)
returned_eventually_example = returned_eventually inside.1 1
