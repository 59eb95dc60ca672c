-- ===== src/Service/Serial.antt =====
-- `execute` of qapi/src/futures/mod.rs where the peer knows no ids (the guest agent, and QMP
-- without out-of-band support) and the sink's lock is kept until the reply.
mod Invariant
mod Calls
mod Halves
use qapi_rs.Prelude.{
  ℕ, ◌≤◌, ◌≡◌, ◌≢◌, refl, ap, sym, subst, ◌∙◌, ◌⊎◌, inl, inr, Bool, true, false, Option, none, some,
  [], ◌∷◌, ok, panic, arith, length, if◌then◌else◌, ◌==◌, ==_iff, Bool-cases, if_intro,
  some_injective,
}
use qapi_rs.Futures.World.{World, CommandMap, lookup, insert, remove}
use qapi_rs.Futures.Shared
use qapi_rs.Futures.Shared.{command_insert, command_remove, release, service_stop, events_drop}
use qapi_rs.Futures.Events.{AnyOps, deliver}
use qapi_rs.Futures.Stable.{IsStable, future_poll-stable, stream_poll-stable}
use qapi_rs.Futures.Ownership.{held}
use qapi_rs.Futures.Runs.{response_of}
use qapi_rs.Futures.Shutdown.{drop_all-shared}
use qapi_rs.Service.{
  Phase, unborn, over, waiting, sending, awaiting, System, id_or_default, update, execute, locked,
  sent, finish, unless_held, begin, tag, next_oob_id, entered,
}
use qapi_rs.Service.Steps.{
  with_world, fresh, Reading, future, stream, let_go, drop_service, drop_events, Step, call, lock,
  write, reply, read, Reach, here, next,
}
use qapi_rs.Service.Entered.{Enters, locked-Enters}
use qapi_rs.Service.Serial.Invariant.{
  HasNoId, IsBusy, channel, Single, Serial, HasNoId-update, busy-update, channel-update,
  channel-update_self, fresh-Serial,
}
use qapi_rs.Service.Serial.Calls.{
  call-Serial, lock-Serial, write-Serial, reply-Serial, insert-succeeds, id_free,
}
use qapi_rs.Service.Serial.Halves.{table-short, read-Serial}

module _ {Any E : Type 0} (ops : AnyOps Any) where
  Step-Serial : {s u : System Any} → Step E ops s u → Serial s → Serial u
  Step-Serial {s} (call t e q) v = rw q (call-Serial t s e v)
  Step-Serial {s} (lock t id e free q) v = rw q (lock-Serial t id s e free v)
  Step-Serial {s} (write t id ch e q) v = rw q (write-Serial t ch id s e v)
  Step-Serial {s} (reply t id ch e h q) v = rw q (reply-Serial t ch id s e h v)
  Step-Serial {s} (read w r q) v = rw q (read-Serial ops s w r v)

  Reach-Serial : {s u : System Any} → Serial s → Reach E ops s u → Serial u
  Reach-Serial v here = v
  Reach-Serial v (next r st) = Step-Serial st (Reach-Serial v r)

  -- Without ids, in whatever order the calls, the sink, the replies and the two halves of the
  -- client act, as long as every call is driven to its end and the sink takes every command: the
  -- mutex is not poisoned, and a call that waits for the free sink finds its id free and, given the
  -- sink, goes on to send, with the sink and a new channel. That channel is then in the table under
  -- the call's id, and every other id has what it had; only if the table is abandoned, it is left
  -- as it is and the channel's sender is dropped.
  pub serial_insert_succeeds :
      (s : System Any) (t : ℕ) (id : Option ℕ)
      → Reach E ops (fresh false) s
      → s.tasks t ≡ waiting id
      → s.writer ≡ none
      → (s.world.shared.commands.poisoned ≡ false)
        × (lookup (id_or_default id) s.world.shared.commands.pending ≡ none)
        × ((command_insert (id_or_default id) s.world).1 ≡ ok s.world.next_channel)
        × Enters t id s
  serial_insert_succeeds s t id r e free =
      let v = Reach-Serial fresh-Serial r in
      let inserted = insert-succeeds s t id v e free in
      (v.safe, id_free s id v free, inserted, locked-Enters t id s v.safe inserted)

  -- Without ids, in whatever order the calls, the sink, the replies and the two halves of the
  -- client act, as long as every call is driven to its end and the sink takes every command: at
  -- most one call is between the insertion of its command and its reply, it is the one that holds
  -- the sink, and the table has at most one entry.
  pub serial_one_at_a_time :
      (s : System Any) (t u : ℕ)
      → Reach E ops (fresh false) s
      → IsBusy (s.tasks t)
      → IsBusy (s.tasks u)
      → (t ≡ u) × (s.writer ≡ some t) × (length s.world.shared.commands.pending ≤ 1)
  serial_one_at_a_time s t u r bt bu =
      let v = Reach-Serial fresh-Serial r in
      (some_injective (sym (v.holds t bt) ∙ v.holds u bu), v.holds t bt, table-short s v)

  -- Without ids, after a history in which every call was driven to its end or is still under way,
  -- a call is dropped that has the sink and whose command is still in the table, the table not
  -- being abandoned: it gives the sink back, the next call that is given the sink panics and
  -- poisons the mutex, and every later removal from the table panics too.
  pub dropped_call_poisons :
      (s : System Any) (t u ch : ℕ)
      → Reach E ops (fresh false) s
      → IsBusy (s.tasks t)
      → lookup 0 s.world.shared.commands.pending ≡ some ch
      → s.world.shared.commands.abandoned ≡ false
      → let s' = locked u none (finish t s) in
        ((finish t s).writer ≡ none)
        × ((command_insert 0 (finish t s).world).1 ≡ panic)
        × (s'.world.shared.commands.poisoned ≡ true)
        × ((id : ℕ) → (command_remove id s'.world).1 ≡ panic)
  unfolding finish unless_held locked command_insert command_remove
  dropped_call_poisons s t u ch r b l a =
      let v = Reach-Serial fresh-Serial r in
      let p = v.safe in
      let own = v.holds t b in (ground arith, ground arith, ground arith, λ id. ground arith)
