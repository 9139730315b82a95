-- ===== src/Http/Versions.antt =====
-- `versionHandler` (httphandlers.go), called by any number of goroutines at once: the accesses to
-- `BuildVersion` take effect one after the other.
pub mod Laws
use host_scanner.Prelude.{ℕ, ◌≡◌, ◌≢◌, Option, none, some, []}
use host_scanner.Prelude.Bytes.{Bytes, codes}
use host_scanner.Prelude.Update.{update}
use host_scanner.GoError.{GoError, failure}

abbrev pub unknown : Bytes
unknown = codes "unknown"

abbrev pub empty_version : GoError
empty_version = failure (codes "host scanner BuildVersion is empty")

-- Where a call stands: at the test, at the assignment, at the read of the answer, with its error, or
-- it has given `resp` and `err` to `GenericSensorHandler`.
pub data Place : Type 0 where
  at_test at_assign : Place
  at_read : Option GoError → Place
  answered : Bytes → Option GoError → Place

-- One step of a call.
pub data Move (build_version : Bytes) : Place → Bytes → Place → Type 0 where
  test_empty : build_version ≡ [] → Move build_version at_test build_version at_assign
  test_given : build_version ≢ [] → Move build_version at_test build_version (at_read none)
  assign : Move build_version at_assign unknown (at_read (some empty_version))
  read :
      {e : Option GoError} → Move build_version (at_read e) build_version (answered build_version e)

pub record System : Type 0 where
  pub build_version : Bytes
  pub place : ℕ → Place

abbrev pub start : Bytes → System
start build_version = record { build_version = build_version; place = λ i. at_test }

pub data Step (s : System) : System → Type 0 where
  pick :
      (i : ℕ) {v : Bytes} {p : Place}
      → Move s.build_version (s.place i) v p
      → Step s (record { build_version = v; place = update s.place i p })

pub data Reach (build_version : Bytes) : System → Type 0 where
  here : Reach build_version (start build_version)
  later : {s t : System} → Reach build_version s → Step s t → Reach build_version t
