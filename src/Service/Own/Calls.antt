-- ===== src/Service/Own/Calls.antt =====
-- Every call of `execute` in qapi/src/futures/mod.rs through a history: what is sent on its
-- channel has been heard under its id.
use qapi_rs.Prelude.{ℕ, Option, List}
use qapi_rs.Futures.World.{World, Reply}
use qapi_rs.Futures.Ownership.{Owned}
use qapi_rs.Service.{Phase, unborn, over, waiting, sending, awaiting, System, id_or_default}
use qapi_rs.Service.Own.{Own}

-- What holds of the call that stands in the phase, if it has entered the table.
abbrev OnChannel : (Option ℕ → ℕ → Type 0) → Phase → Type 0
OnChannel P (sending id ch) = P id ch
OnChannel P (awaiting id ch) = P id ch
OnChannel P unborn = Unit
OnChannel P over = Unit
OnChannel P (waiting id) = Unit

module _ {Any : Type 0} (start : ℕ) where
  -- Every call that has entered the table owns its channel.
  abbrev OwnAll : List (ℕ × Reply Any) → World Any → Phase → Type 0
  OwnAll hs w = OnChannel λ id ch. Own start hs (id_or_default id) ch w

  record Apart (hs : List (ℕ × Reply Any)) (s : System Any) : Type 0 where
    owned : Owned s.world
    own : (t : ℕ) → OwnAll hs s.world (s.tasks t)
