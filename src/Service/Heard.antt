-- ===== src/Service/Heard.antt =====
-- What the reading half of qapi/src/futures/mod.rs hears in a history of `execute`: the replies
-- that the transport gave to its polls, each with the id that it is routed by.
use qapi_rs.Prelude.{ℕ, Bool, List, [], ◌∷◌, ◌++◌, Outcome, ok, err, panic, if◌then◌else◌}
use qapi_rs.Spec.{IoError, Response, result}
use qapi_rs.Qmp.{QmpMessage}
use qapi_rs.Futures.World.{World, Reply}
use qapi_rs.Futures.Events.{AnyOps, Input, not_yet, eof, failed, message, response_id}
use qapi_rs.Service.{System}
use qapi_rs.Service.Steps.{
  Reading, future, stream, let_go, drop_service, drop_events, call, lock, write, reply, read,
  AnyStep, step, fail, abandon, ReachAny, here, next,
}

module _ {Any : Type 0} where
  unfoldable pub routed : Response Any Any → Outcome IoError ℕ → List (ℕ × Reply Any)
  routed res (ok n) = (n, result res) ∷ []
  routed res (err e) = []
  routed res panic = []

  module _ {E : Type 0} (ops : AnyOps Any) where
    unfoldable pub in_input : Bool → Input (QmpMessage Any E Any) → List (ℕ × Reply Any)
    unfolding routed
    in_input oob not_yet = []
    in_input oob eof = []
    in_input oob (failed e) = []
    in_input oob (message (QmpMessage.event e)) = []
    in_input oob (message (QmpMessage.response res)) = routed res (response_id ops res oob)

    -- A client that is stopped does not look at its transport.
    unfoldable pub in_poll : World Any → Input (QmpMessage Any E Any) → List (ℕ × Reply Any)
    unfolding in_input
    in_poll w input = if w.shared.stop then [] else in_input w.shared.supports_oob input

    unfoldable pub in_reading : {w v : World Any} → Reading E ops w v → List (ℕ × Reply Any)
    unfolding in_poll
    in_reading {w} (future alive input e) = in_poll w input
    in_reading {w} (stream alive input e) = in_poll w input
    in_reading (let_go e) = []
    in_reading (drop_service e) = []
    in_reading (drop_events e) = []

    unfoldable pub in_step : {s u : System Any} → AnyStep E ops s u → List (ℕ × Reply Any)
    unfolding in_reading
    in_step (step (read w r e)) = in_reading r
    in_step (step (call t p e)) = []
    in_step (step (lock t id p free e)) = []
    in_step (step (write t id ch p e)) = []
    in_step (step (reply t id ch p h e)) = []
    in_step (fail t id ch p e) = []
    in_step (abandon t e) = []

    -- The newest reply first.
    unfoldable pub heard : {s u : System Any} → ReachAny E ops s u → List (ℕ × Reply Any)
    unfolding in_step
    heard here = []
    heard (next r t) = in_step t ++ heard r
