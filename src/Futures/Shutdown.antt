-- ===== src/Futures/Shutdown.antt =====
-- How the two halves of the client of qapi/src/futures/mod.rs end one another.
use qapi_rs.Prelude.{ℕ, ◌≡◌, refl, ap, Bool, true, false, List, [], ◌∷◌, ok, arith, ltb}
use qapi_rs.Qmp.{QmpMessage}
use qapi_rs.Futures.World.{World, CommandMap, dropped, woken_stop, effect, remove, drop_all}
use qapi_rs.Futures.Shared
use qapi_rs.Futures.Shared.{
  Poll, ready, pending, command_remove, command_insert, release, service_stop, events_drop,
  poll_next,
}
use qapi_rs.Futures.Events.{AnyOps, Input, deliver, future_poll}
use qapi_rs.Futures.Ownership.{Owned, settled, held, events_drop-Owned}
use qapi_rs.Futures.Runs.{Op, response_of, IsKept, run-kept, run, start, Owned-IsKept, start-Owned}

module _ {Any : Type 0} where
  -- The table is empty and takes no command any more.
  abbrev pub IsClosed : World Any → Type 0
  IsClosed w = (w.shared.commands.pending ≡ []) × (w.shared.commands.abandoned ≡ true)

  -- What is marked in the one is marked in the other: the reading half released, stopped, the
  -- table abandoned.
  abbrev Marks : World Any → World Any → Type 0
  Marks u w =
      (u.shared.abandoned ≡ true → w.shared.abandoned ≡ true)
      × (u.shared.stop ≡ true → w.shared.stop ≡ true)
      × (u.shared.commands.abandoned ≡ true → w.shared.commands.abandoned ≡ true)

  pub drop_all-shared : (m : CommandMap) (w : World Any) → (drop_all m w).shared ≡ w.shared
  unfolding drop_all
  drop_all-shared [] w = refl
  drop_all-shared ((k, ch) ∷ m) w = drop_all-shared m (effect (dropped ch) w)

module _ {Any : Type 0} (ops : AnyOps Any) where
  IsClosed-IsKept : IsKept ops IsClosed
  unfolding command_insert release service_stop events_drop deliver command_remove remove
      Shared.stop drop_all
  IsClosed-IsKept = record {
    inserts = λ id w v. ground arith;
    releases = λ w v. ground arith;
    service_stops = λ w v. ground arith;
    events_drops = λ w v. ground (arith, ap (λ m. drop_all m w) v.0);
    polls = λ alive. record {
      delivers = λ n res w a v. ground arith;
      wakes = λ w v. v;
      registers = λ w v. v;
      stops = λ w v. v;
    };
  }

  -- The three marks are only ever set.
  Marks-IsKept : (u : World Any) → IsKept ops (Marks u)
  unfolding command_insert release service_stop events_drop deliver command_remove Shared.stop
  Marks-IsKept u = record {
    inserts = λ id w v. ground arith;
    releases = λ w v. ground arith;
    service_stops = λ w v. ground arith;
    events_drops = λ w v. ground (arith, drop_all-shared w.shared.commands.pending w);
    polls = λ alive. record {
      delivers = λ n res w a v. ground arith;
      wakes = λ w v. v;
      registers = λ w v. v;
      stops = λ w v. ground arith;
    };
  }

  events_drop-IsClosed :
      (w : World Any) → w.shared.commands.poisoned ≡ false → IsClosed (events_drop w).0
  unfolding events_drop
  events_drop-IsClosed w h = ground arith

  release-ok : (w : World Any) → (release w).1 ≡ ok true → (release w).0.shared.abandoned ≡ true
  unfolding release
  release-ok w h = ground arith

  service_stop-stops :
      (w : World Any)
      → w.shared.commands.poisoned ≡ false
      → w.shared.abandoned ≡ true
      → ((service_stop w).0.shared.stop ≡ true) × ((service_stop w).0.log ≡ woken_stop ∷ w.log)
  unfolding service_stop Shared.stop
  service_stop-stops w p h = ground arith

  service_stop-abandons :
      (w : World Any)
      → w.shared.commands.poisoned ≡ false
      → (service_stop w).0.shared.commands.abandoned ≡ true
  unfolding service_stop Shared.stop
  service_stop-abandons w p = ground arith

  module _ {E : Type 0} where
    run-Marks : (os : List (Op Any E)) (u : World Any) → Marks u (run ops os u)
    run-Marks os u = run-kept ops (Marks-IsKept u) os u ((λ h. h), (λ h. h), (λ h. h))

    -- With no sender left in the table, every command has been settled after any later steps.
    pub closed_settles :
        (after : List (Op Any E)) (w : World Any)
        → Owned w
        → IsClosed w
        → (ch : ℕ) → ltb ch (run ops after w).next_channel ≡ true
        → settled ch (run ops after w).log ≡ 1
    unfolding held
    closed_settles after w o c ch made = ground (
      arith,
      run-kept ops (Owned-IsKept ops) after w o ch,
      made,
      ap (held ch) (run-kept ops IsClosed-IsKept after w c).0,
    )

    -- Once the reading half is dropped, and no panic had poisoned the table before, every command
    -- that was made before or is made afterwards has been settled exactly once: its reply was
    -- sent, or came back, or its sender was dropped, so that no caller waits for ever.
    events_drop_settles_all :
        (supports_oob : Bool) (before after : List (Op Any E)) (ch : ℕ)
        → (run ops before (start Any supports_oob)).shared.commands.poisoned ≡ false
        → ltb ch
            (run ops after (events_drop (run ops before (start Any supports_oob))).0).next_channel
          ≡ true
        → settled ch (run ops after (events_drop (run ops before (start Any supports_oob))).0).log
          ≡ 1
    events_drop_settles_all supports_oob before after ch p made =
        let u = run ops before (start Any supports_oob) in
        closed_settles after (events_drop u).0
          (events_drop-Owned u
            (run-kept ops (Owned-IsKept ops) before _ (start-Owned Any supports_oob)))
          (events_drop-IsClosed u p) ch made

    -- The service is dropped after the reading half was let go to its own task, with no panic
    -- having poisoned the table in between: that task is woken, and after whatever other steps
    -- follow, its next poll ends it without changing anything.
    pub release_then_drop_stops :
        (w : World Any) (between after : List (Op Any E)) (alive : ℕ → Bool)
        (input : Input (QmpMessage Any E Any))
        → (release w).1 ≡ ok true
        → (run ops between (release w).0).shared.commands.poisoned ≡ false
        → let u = run ops between (release w).0 in
          let v = run ops after (service_stop u).0 in
          ((service_stop u).0.log ≡ woken_stop ∷ u.log)
          × (future_poll ops response_of alive input v ≡ (v, ok (ready (ok tt))))
    unfolding future_poll poll_next
    release_then_drop_stops w between after alive input r p =
        let u = run ops between (release w).0 in
        let released = run-Marks between (release w).0 in
        let stops = service_stop-stops u p (released.0 (release-ok w r)) in
        let v = run ops after (service_stop u).0 in
        let stopped = run-Marks after (service_stop u).0 in (stops.1, rw (stopped.1 stops.0) refl)

    -- Once the service is dropped, and as long as no panic poisons the table, whatever other steps
    -- follow, a release changes nothing and fails: the reading half is never let go to a task
    -- that nobody could stop.
    drop_then_release_fails :
        (w : World Any) (between : List (Op Any E))
        → w.shared.commands.poisoned ≡ false
        → (run ops between (service_stop w).0).shared.commands.poisoned ≡ false
        → release (run ops between (service_stop w).0)
          ≡ (run ops between (service_stop w).0, ok false)
    unfolding release
    drop_then_release_fails w between p q =
        let kept = run-Marks between (service_stop w).0 in
        rw (q, kept.2 (service_stop-abandons w p))
