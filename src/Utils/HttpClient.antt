-- ===== src/Utils/HttpClient.antt =====
-- sensor/internal/utils/globals.go: `GetHttpClient`, called by any number of goroutines at once. The
-- reads and writes of the shared variables take effect one after the other.
pub mod Invariant
pub mod Laws
pub mod Progress
mod Tests
use host_scanner.Prelude.Update.{update}
use host_scanner.Prelude.{ℕ, zero, suc, ◌==◌, ◌≡◌, Option, none, some, if◌then◌else◌}

-- `httpClient` and the holder of `httpClientCreationlock`. A client is named by its place among all
-- that were made, and `made` counts those.
pub record Globals : Type 0 where
  pub http_client : Option ℕ
  pub holder : Option ℕ
  pub made : ℕ

-- Where a call stands.
pub data Pc : Type 0 where
  -- at the first test
  first_test : Pc
  -- at `Lock`
  at_lock : Pc
  -- at the second test, with the lock
  second_test : Pc
  -- at the assignment, with the lock
  at_assign : Pc
  -- at the evaluation of `return httpClient`, with and without the lock
  at_return_locked : Pc
  at_return : Pc
  -- at the deferred `Unlock`, with the result
  at_unlock : Option ℕ → Pc
  returned : Option ℕ → Pc

-- One step of the call `i`.
pub data Move (i : ℕ) (g : Globals) : Pc → Globals → Pc → Type 0 where
  see_nil : g.http_client ≡ none → Move i g first_test g at_lock
  see_client : {c : ℕ} → g.http_client ≡ some c → Move i g first_test g at_return
  lock : g.holder ≡ none → Move i g at_lock (record g { holder = some i }) second_test
  still_nil : g.http_client ≡ none → Move i g second_test g at_assign
  no_more_nil : {c : ℕ} → g.http_client ≡ some c → Move i g second_test g at_return_locked
  assign :
      Move i g at_assign
        (record g { http_client = some g.made; made = suc g.made })
        at_return_locked
  return_locked : Move i g at_return_locked g (at_unlock g.http_client)
  unlock : {r : Option ℕ} → Move i g (at_unlock r) (record g { holder = none }) (returned r)
  return_ : Move i g at_return g (returned g.http_client)

pub record System : Type 0 where
  pub globals : Globals
  pub pc : ℕ → Pc

-- No client is made, the lock is free, and all calls are to come.
abbrev pub start : System
start = record {
  globals = record { http_client = none; holder = none; made = 0 };
  pc = λ i. first_test;
}

pub data Step (s : System) : System → Type 0 where
  pick :
      (i : ℕ) {g : Globals} {p : Pc}
      → Move i s.globals (s.pc i) g p
      → Step s (record { globals = g; pc = update s.pc i p })

pub data Reach : System → Type 0 where
  here : Reach start
  later : {s t : System} → Reach s → Step s t → Reach t
