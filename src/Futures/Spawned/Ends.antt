-- ===== src/Futures/Spawned/Ends.antt =====
-- What the end of the task of the reading half, of qapi/src/futures/mod.rs, means for the commands
-- that are pending.
use qapi_rs.Prelude.{ℕ, ◌≡◌, Bool, true, false, List, Outcome, ok, err, panic, ltb, arith}
use qapi_rs.Spec.{IoError}
use qapi_rs.Qmp.{QmpMessage}
use qapi_rs.Futures.World.{World}
use qapi_rs.Futures.Shared.{Poll, ready, pending, release, events_drop}
use qapi_rs.Futures.Events.{AnyOps, Input, future_poll}
use qapi_rs.Futures.Stable.{future_poll-stable}
use qapi_rs.Futures.Ownership.{Owned, settled, release-Owned, events_drop-Owned, Owned-IsStable}
use qapi_rs.Futures.Runs.{Op, response_of, run, run-kept, start, Owned-IsKept, start-Owned}
use qapi_rs.Futures.Shutdown.{IsClosed, closed_settles}
use qapi_rs.Futures.Spawned.{
  Spawned, fresh, awaiting, finished, Polled, ended, on_future, on_release, into_future_poll,
}

module _ {Any : Type 0} where
  -- Every sender is accounted for, and none is left in the table.
  abbrev IsOver : World Any → Type 0
  IsOver w = Owned w × IsClosed w

  -- A poll that ends the task leaves it so.
  abbrev EndsOver : Polled Any → Type 0
  EndsOver p = p.2 ≡ ok (ready tt) → IsOver p.1

  ended-IsClosed : (w : World Any) → (ended w).2 ≡ ok (ready tt) → IsClosed (ended w).1
  unfolding ended events_drop
  ended-IsClosed w h = ground (arith, h)

  ended-IsOver : (w : World Any) → Owned w → EndsOver (ended w)
  unfolding ended
  ended-IsOver w o h = (events_drop-Owned w o, ended-IsClosed w h)

  on_future-IsOver :
      (r : World Any × Outcome IoError (Poll (Outcome IoError (Unit {0}))))
      → Owned r.0
      → EndsOver (on_future r)
  unfolding on_future
  on_future-IsOver (w, ok (ready (ok d))) o = ended-IsOver w o
  on_future-IsOver (w, ok (ready (err e))) o = ended-IsOver w o
  on_future-IsOver (w, ok (ready panic)) o = λ h. cc
  on_future-IsOver (w, ok pending) o = λ h. cc
  on_future-IsOver (w, err e) o = λ h. cc
  on_future-IsOver (w, panic) o = λ h. cc

module _ {Any E : Type 0} (ops : AnyOps Any) (alive : ℕ → Bool)
    (input : Input (QmpMessage Any E Any)) where
  polled-Owned : (w : World Any) → Owned w → Owned (future_poll ops response_of alive input w).0
  polled-Owned w o = future_poll-stable ops alive (Owned-IsStable ops alive) response_of input w o

  on_release-IsOver :
      (r : World Any × Outcome IoError Bool)
      → Owned r.0
      → EndsOver (on_release ops response_of alive input r)
  unfolding on_release
  on_release-IsOver (w, ok true) o = on_future-IsOver _ (polled-Owned w o)
  on_release-IsOver (w, ok false) o = ended-IsOver w o
  on_release-IsOver (w, err e) o = λ h. cc
  on_release-IsOver (w, panic) o = λ h. cc

  into_future_poll-IsOver :
      (t : Spawned) (w : World Any)
      → Owned w
      → EndsOver (into_future_poll ops response_of t alive input w)
  unfolding into_future_poll
  into_future_poll-IsOver fresh w o = on_release-IsOver (release w) (release-Owned w o)
  into_future_poll-IsOver awaiting w o = on_future-IsOver _ (polled-Owned w o)
  into_future_poll-IsOver finished w o = λ h. cc

  -- When a poll ends the task of the reading half, be it for the end of the stream, an error, a
  -- stop, or a service that had gone before: after any history of a new client before it, and any
  -- after it, every command that was made has been settled exactly once. No caller waits for a
  -- task that is over, and none that comes later does.
  pub task_end_settles_all :
      (supports_oob : Bool) (before after : List (Op Any E)) (t : Spawned) (ch : ℕ)
      → (into_future_poll ops response_of t alive input (run ops before (start Any supports_oob))).2
        ≡ ok (ready tt)
      → ltb ch
          (run ops after
            (into_future_poll ops response_of t alive input
              (run ops before (start Any supports_oob))).1).next_channel
        ≡ true
      → settled ch
          (run ops after
            (into_future_poll ops response_of t alive input
              (run ops before (start Any supports_oob))).1).log
        ≡ 1
  task_end_settles_all supports_oob before after t ch ends made =
      let u = run ops before (start Any supports_oob) in
      let over =
        into_future_poll-IsOver t u
          (run-kept ops (Owned-IsKept ops) before _ (start-Owned Any supports_oob)) ends in
      closed_settles ops after _ over.0 over.1 ch made
