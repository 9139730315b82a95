-- ===== src/Server/Readiness.antt =====
-- `setupReadyz`: the goroutine that makes the server ready, between requests in any order.
pub mod Keeping
pub mod Laws
use host_scanner.Prelude.{◌≡◌, Bool, true, false, List, []}
use host_scanner.Prelude.Bytes.{Bytes}
use host_scanner.Http.{Writer, new_writer}
use host_scanner.Server.State.{Request, State, Served, replied, Node, Negroni}
use host_scanner.Server.Router.{init_http_router}

-- The state of the server, and whether the goroutine has still to store `true`.
pub record Machine : Type 0 where
  pub state : State
  pub is_pending : Bool

-- Behind `isReady.Store(false)`, with the goroutine started.
abbrev pub setup_readyz : State → Machine
setup_readyz s = record { state = record s { is_ready = false }; is_pending = true }

-- `isReady.Store(true)`
abbrev pub publish : Machine → Machine
publish m = record { state = record m.state { is_ready = true }; is_pending = false }

module _ (negroni : Negroni) {C : Type 0} (node : Node C) where
  pub data Step (m : Machine) : Machine → Type 0 where
    store : m.is_pending ≡ true → Step m (publish m)
    request :
        (r : Request) {w : Writer} {s : State}
        → init_http_router negroni node r m.state new_writer ≡ replied w s
        → Step m (record m { state = s })

  pub data Run (m : Machine) : Machine → Type 0 where
    here : Run m m
    later : {n k : Machine} → Run m n → Step n k → Run m k
