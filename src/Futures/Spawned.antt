-- ===== src/Futures/Spawned.antt =====
-- `QapiEvents::into_future` of qapi/src/futures/mod.rs, the task that is spawned for the reading
-- half, cut at its await. It owns the reading half, which its end drops.
pub mod Ends
use qapi_rs.Prelude.{ℕ, Bool, true, false, Option, Outcome, ok, err, panic, map_ok}
use qapi_rs.Spec.{IoError, Response}
use qapi_rs.Futures.World.{World}
use qapi_rs.Futures.Shared.{Poll, ready, pending, release, events_drop}
use qapi_rs.Futures.Events.{AnyOps, Input, future_poll}

-- Where the task stands: not polled yet, awaiting the reading half, or done.
pub data Spawned : Type 0 where
  fresh awaiting finished : Spawned

-- What a poll of the task leaves, and what it answers.
abbrev pub Polled : Type 0 → Type 0
Polled Any = Spawned × World Any × Outcome IoError (Poll (Unit {0}))

module _ {Any : Type 0} where
  -- The task returns, and the reading half is dropped.
  unfoldable pub ended : World Any → Polled Any
  ended w = let (w', r) = events_drop w in (finished, w', map_ok (λ d. ready tt) r)

  -- The arms of the match; an error is only logged.
  unfoldable pub on_future :
      World Any × Outcome IoError (Poll (Outcome IoError (Unit {0}))) → Polled Any
  unfolding ended
  on_future (w, ok (ready (ok d))) = ended w
  on_future (w, ok (ready (err e))) = ended w
  on_future (w, ok (ready panic)) = (finished, w, panic)
  on_future (w, ok pending) = (awaiting, w, ok pending)
  on_future (w, err e) = (finished, w, err e)
  on_future (w, panic) = (finished, w, panic)

module _ {Any M : Type 0} (ops : AnyOps Any) (try_into : M → Option (Response Any Any)) where
  -- A service that is gone already ends the task at once.
  unfoldable pub on_release : (ℕ → Bool) → Input M → World Any × Outcome IoError Bool → Polled Any
  unfolding on_future ended
  on_release alive input (w, ok true) = on_future (future_poll ops try_into alive input w)
  on_release alive input (w, ok false) = ended w
  on_release alive input (w, err e) = (finished, w, err e)
  on_release alive input (w, panic) = (finished, w, panic)

  -- A poll of the task. One that is done must not be polled again.
  unfoldable pub into_future_poll : Spawned → (ℕ → Bool) → Input M → World Any → Polled Any
  unfolding on_release on_future
  into_future_poll fresh alive input w = on_release alive input (release w)
  into_future_poll awaiting alive input w = on_future (future_poll ops try_into alive input w)
  into_future_poll finished alive input w = (finished, w, panic)
