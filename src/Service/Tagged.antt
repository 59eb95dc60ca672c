-- ===== src/Service/Tagged.antt =====
-- `execute` of qapi/src/futures/mod.rs where the peer supports out-of-band execution: commands
-- run at once, told apart by the counter's ids.
mod Invariant
mod Calls
mod Halves
use qapi_rs.Prelude.{
  ℕ, ◌+◌, ◌%◌, ◌^◌, ◌≤◌, ◌<◌, ◌≡◌, ◌≢◌, refl, ap, sym, subst, ◌∙◌, ◌⊎◌, inl, inr, Bool, true, false,
  Option, none, some, [], ◌∷◌, ok, arith, if◌then◌else◌, ◌==◌, ==_iff, Bool-cases, if_intro,
  some_injective,
}
use qapi_rs.Futures.World.{World, CommandMap, lookup, insert, remove}
use qapi_rs.Futures.Shared
use qapi_rs.Futures.Shared.{command_insert, command_remove, release, service_stop, events_drop}
use qapi_rs.Futures.Events.{AnyOps, deliver}
use qapi_rs.Futures.Stable.{IsStable, future_poll-stable, stream_poll-stable}
use qapi_rs.Futures.Runs.{response_of}
use qapi_rs.Futures.Shutdown.{drop_all-shared}
use qapi_rs.Service.{
  Phase, unborn, over, waiting, sending, awaiting, System, id_or_default, update, execute, locked,
  sent, finish, set_phase, unless_held, begin, tag, next_oob_id, entered,
}
use qapi_rs.Service.Steps.{
  with_world, fresh, Reading, future, stream, let_go, drop_service, drop_events, Step, call, lock,
  write, reply, read, AnyStep, step, fail, abandon, ReachAny, here, next,
}
use qapi_rs.Service.Entered.{Enters, locked-Enters}
use qapi_rs.Service.Tagged.Invariant.{
  id_of, waits_with, HasId, id_of-waits_with, update-cases, Tagged, fresh-Tagged,
}
use qapi_rs.Service.Tagged.Calls.{
  execute-tagged, call-Tagged, lock-Tagged, write-Tagged, finish-Tagged, insert-succeeds, id_free,
}
use qapi_rs.Service.Tagged.Halves.{read-Tagged}

module _ {Any : Type 0} where
  abbrev Kept : System Any → ℕ → System Any → Type 0
  Kept s n u = Tagged u × (u.id_counter ≡ n + s.id_counter)

  command_insert_counter :
      (t : ℕ) (id : Option ℕ) (s : System Any) → (locked t id s).id_counter ≡ s.id_counter
  unfolding locked
  command_insert_counter t id s = ground arith

  module _ {E : Type 0} (ops : AnyOps Any) where
    abbrev is_call : {s u : System Any} → Step E ops s u → ℕ
    is_call (call t e q) = 1
    is_call (lock t id e free q) = 0
    is_call (write t id ch e q) = 0
    is_call (reply t id ch e h q) = 0
    is_call (read w r q) = 0

    abbrev is_any_call : {s u : System Any} → AnyStep E ops s u → ℕ
    is_any_call (step st) = is_call st
    is_any_call (fail t id ch e q) = 0
    is_any_call (abandon t q) = 0

    -- How many commands a history has made.
    unfoldable pub calls : {s u : System Any} → ReachAny E ops s u → ℕ
    calls here = 0
    calls (next r st) = is_any_call st + calls r

    Step-Tagged :
        {s u : System Any} (st : Step E ops s u)
        → is_call st + s.id_counter ≤ 2 ^ 32
        → Tagged s
        → Kept s (is_call st) u
    unfolding sent finish
    Step-Tagged {s} (call t e q) h v = rw q (
      call-Tagged t s (omega arith) v,
      rw (execute-tagged t s v.mode (omega arith)) (omega arith),
    )
    Step-Tagged {s} (lock t id e free q) h v =
        rw q (lock-Tagged t id s e v, command_insert_counter t id s ∙ omega arith)
    Step-Tagged {s} (write t none ch e q) h v = rw q (write-Tagged t ch none s e v, omega arith)
    Step-Tagged {s} (write t (some i) ch e q) h v =
        rw q (write-Tagged t ch (some i) s e v, omega arith)
    Step-Tagged {s} (reply t id ch e g q) h v = rw q (finish-Tagged t s v, omega arith)
    Step-Tagged {s} (read w r q) h v = rw q (read-Tagged ops s w r v, omega arith)

    AnyStep-Tagged :
        {s u : System Any} (st : AnyStep E ops s u)
        → is_any_call st + s.id_counter ≤ 2 ^ 32
        → Tagged s
        → Kept s (is_any_call st) u
    unfolding finish
    AnyStep-Tagged (step st) h v = Step-Tagged st h v
    AnyStep-Tagged {s} (fail t id ch e q) h v = rw q (finish-Tagged t s v, omega arith)
    AnyStep-Tagged {s} (abandon t q) h v = rw q (finish-Tagged t s v, omega arith)

    Reach-Tagged :
        {s u : System Any} (r : ReachAny E ops s u)
        → calls r + s.id_counter ≤ 2 ^ 32
        → Tagged s
        → Kept s (calls r) u
    unfolding calls
    Reach-Tagged here h v = (v, omega arith)
    Reach-Tagged (next r st) h v =
        let before = Reach-Tagged r (omega arith) v in
        let after = AnyStep-Tagged st (omega (arith, before.1)) before.0 in
        (after.0, omega (arith, before.1, after.1))

    -- With out-of-band support, in any history at all, failed writes and dropped calls included,
    -- that has made at most 2^32 commands: the mutex is not poisoned, and a call that waits for the
    -- sink finds its id free and goes on to send when it is given the sink, with a new channel. That
    -- channel is then in the table under the call's id, and every other id has what it had; only
    -- if the table is abandoned, it is left as it is and the channel's sender is dropped.
    pub tagged_insert_succeeds :
        (s : System Any) (r : ReachAny E ops (fresh true) s) (t : ℕ) (id : Option ℕ)
        → calls r ≤ 2 ^ 32
        → s.tasks t ≡ waiting id
        → (s.world.shared.commands.poisoned ≡ false)
          × (lookup (id_or_default id) s.world.shared.commands.pending ≡ none)
          × ((command_insert (id_or_default id) s.world).1 ≡ ok s.world.next_channel)
          × Enters t id s
    tagged_insert_succeeds s r t id h e =
        let v = (Reach-Tagged r (omega arith) fresh-Tagged).0 in
        let inserted = insert-succeeds s v t id e in
        (v.safe, id_free s v t id e, inserted, locked-Enters t id s v.safe inserted)

    -- With out-of-band support, in any history that has made at most 2^32 commands, failed writes
    -- and dropped calls included, no two calls in flight have one id.
    pub tagged_ids_distinct :
        (s : System Any) (r : ReachAny E ops (fresh true) s) (t u n : ℕ)
        → calls r ≤ 2 ^ 32
        → id_of (s.tasks t) ≡ some n
        → id_of (s.tasks u) ≡ some n
        → t ≡ u
    tagged_ids_distinct s r t u n h e f =
        (Reach-Tagged r (omega arith) fresh-Tagged).0.distinct t u n e f
