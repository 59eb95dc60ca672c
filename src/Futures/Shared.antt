-- ===== src/Futures/Shared.antt =====
-- `QapiShared`, `QapiService::stop`, `QapiEvents::release` and the two `Drop`s of
-- qapi/src/futures/mod.rs: everything that changes the shared state, one locked step each.
use qapi_rs.Prelude.{
  ℕ, ◌+◌, Bool, true, false, Option, none, some, [], Outcome, ok, err, panic, if◌then◌else◌,
}
use qapi_rs.Spec.{IoError}
use qapi_rs.Futures.World.{
  World, QapiShared, created, dropped, registered, woken_stop, Step, effect, set_commands,
  with_lock, lookup, insert, remove, drop_all,
}

-- `QapiShared::new`
unfoldable pub new : Bool → QapiShared
new supports_oob = record {
  commands = record { pending = []; abandoned = false; poisoned = false };
  stop = false;
  abandoned = false;
  supports_oob = supports_oob;
}

-- `std::task::Poll`
pub data Poll (A : Type 0) : Type 0 where
  ready : A → Poll A
  pending : Poll A

module _ {Any : Type 0} where
  abbrev pub store_stop : World Any → World Any
  store_stop w = record w { shared = record (w.shared) { stop = true } }

  -- `QapiShared::stop`
  unfoldable pub stop : World Any → World Any
  stop w = effect woken_stop (store_stop w)

  is_stopped : World Any → Bool
  is_stopped w = w.shared.stop

  -- The arms of the match in `QapiShared::poll_next`.
  unfoldable pub on_poll :
      {T : Type 0}
      → World Any × Outcome IoError (Poll (Option T))
      → World Any × Outcome IoError (Poll (Option T))
  unfolding is_stopped
  on_poll (w, ok (ready none)) = (store_stop w, ok (ready none))
  on_poll (w, ok (ready (some t))) = (w, ok (ready (some t)))
  on_poll (w, ok pending) =
      let w' = effect registered w in
      if is_stopped w' then (w', ok (ready none)) else (w', ok pending)
  on_poll (w, err e) = (w, err e)
  on_poll (w, panic) = (w, panic)

  -- `QapiShared::poll_next`, around what it polls.
  unfoldable pub poll_next : {T : Type 0} → Step Any (Poll (Option T)) → Step Any (Poll (Option T))
  unfolding on_poll
  poll_next poll w = if is_stopped w then (w, ok (ready none)) else on_poll (poll w)

  -- `QapiShared::command_remove`
  unfoldable pub command_remove : ℕ → Step Any (Option ℕ)
  command_remove id = with_lock λ w.
      let c = w.shared.commands in
      (set_commands (record c { pending = remove id c.pending }) w, ok (lookup id c.pending))

  -- The insertion into the table, with what was there before. A sender that was there before is
  -- dropped as the panic unwinds, and the mutex is poisoned.
  insert_pending : ℕ → ℕ → Option ℕ → Step Any ℕ
  insert_pending id ch none w =
      let c = w.shared.commands in
      (set_commands (record c { pending = insert id ch c.pending }) w, ok ch)
  insert_pending id ch (some prev) w =
      let c = w.shared.commands in
      (
        effect (dropped prev)
            (set_commands (record c { pending = insert id ch c.pending; poisoned = true }) w),
        panic,
      )

  -- Under the lock: an abandoned client drops the sender, so that the receiver sees the end.
  enter_pending : ℕ → ℕ → Step Any ℕ
  unfolding insert_pending
  enter_pending id ch w =
      if w.shared.commands.abandoned
      then (effect (dropped ch) w, ok ch)
      else insert_pending id ch (lookup id w.shared.commands.pending) w

  -- `QapiShared::command_insert`: the channel's number stands for its receiver. If the lock
  -- panics, the channel that was made before it is dropped.
  unfoldable pub command_insert : ℕ → Step Any ℕ
  unfolding enter_pending
  command_insert id w =
      let ch = w.next_channel in
      let w' = effect (created ch) (record w { next_channel = ch + 1 }) in
      if w'.shared.commands.poisoned
      then (effect (dropped ch) w', panic)
      else enter_pending id ch w'

  -- `QapiEvents::release`: `false` is its `Err(())`.
  unfoldable pub release : Step Any Bool
  release = with_lock λ w.
      if w.shared.commands.abandoned
      then (w, ok false)
      else (record w { shared = record (w.shared) { abandoned = true } }, ok true)

  -- `QapiService::stop`, which is `QapiService`'s `Drop`.
  unfoldable pub service_stop : Step Any (Unit {0})
  unfolding stop
  service_stop = with_lock λ w.
      let w' = if w.shared.abandoned then stop w else w in
      (set_commands (record (w'.shared.commands) { abandoned = true }) w', ok tt)

  -- `QapiEvents`'s `Drop`
  unfoldable pub events_drop : Step Any (Unit {0})
  events_drop = with_lock λ w.
      let w' = drop_all w.shared.commands.pending w in
      (set_commands (record (w'.shared.commands) { pending = []; abandoned = true }) w', ok tt)
