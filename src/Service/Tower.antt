-- ===== src/Service/Tower.antt =====
-- `Service` of qapi/src/futures/tower.rs, the client as a service of tower.
use qapi_rs.Prelude.{ℕ, Outcome, ok}
use qapi_rs.Client.{ExecuteError}
use qapi_rs.Futures.Shared.{Poll, ready}
use qapi_rs.Service.{System}
use qapi_rs.Service

module _ {Any : Type 0} where
  -- A call may always be made.
  abbrev poll_ready : Poll (Outcome (ExecuteError Any) (Unit {0}))
  poll_ready = ready (ok tt)

  -- The future is that of `QapiService::execute`.
  abbrev call : ℕ → System Any → System Any
  call t s = Service.execute t s
