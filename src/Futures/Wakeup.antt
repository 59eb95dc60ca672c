-- ===== src/Futures/Wakeup.antt =====
-- `QapiShared::stop` and `QapiShared::poll_next` of qapi/src/futures/mod.rs on two threads, cut at
-- their accesses to the flag and to the waker, which run in any order. `AtomicWaker` of the
-- `futures` crate is a cell: `register` puts the task's waker in, and `wake` takes it out and
-- wakes the task.
use qapi_rs.Prelude.{◌≡◌, refl, Bool, true, false, ◌||◌, List, [], ◌∷◌, ◌++◌, arith, if◌then◌else◌}

-- Where the reading half is in a poll: before the first test of the flag, in what it polls, before
-- the waker is registered, before the second test, or back.
pub data PollerAt : Type 0 where
  first_test polling registering second_test : PollerAt
  returned_end returned_item returned_pending : PollerAt

-- Where `stop` is: before the store, before the wake, or done.
pub data StopperAt : Type 0 where
  storing waking done : StopperAt

-- `woken` is a wake of the task that the executor has not yet answered.
pub record Race : Type 0 where
  pub poller : PollerAt
  pub stopper : StopperAt
  pub stop : Bool
  pub registered : Bool
  pub woken : Bool

-- What the transport gives to a poll.
pub data Given : Type 0 where
  end_of_stream item nothing_yet : Given

abbrev after_inner : Given → Race → Race
after_inner end_of_stream s = record s { poller = returned_end; stop = true }
after_inner item s = record s { poller = returned_item }
after_inner nothing_yet s = record s { poller = registering }

-- The next access of `poll_next`, where the poll at `at` stands.
unfoldable poll_at : PollerAt → Given → Race → Race
poll_at first_test g s =
    if s.stop then record s { poller = returned_end } else record s { poller = polling }
poll_at polling g s = after_inner g s
poll_at registering g s = record s { poller = second_test; registered = true }
poll_at second_test g s =
    if s.stop then record s { poller = returned_end } else record s { poller = returned_pending }
poll_at returned_end g s = s
poll_at returned_item g s = s
poll_at returned_pending g s = s

-- The next access of `stop`.
unfoldable stop_at : StopperAt → Race → Race
stop_at storing s = record s { stopper = waking; stop = true }
stop_at waking s = record s { stopper = done; registered = false; woken = s.woken || s.registered }
stop_at done s = s

-- The executor polls the task again, which answers its wakes.
abbrev poll_again : PollerAt → Race → Race
poll_again returned_end s = s
poll_again returned_item s = record s { poller = first_test; woken = false }
poll_again returned_pending s = record s { poller = first_test; woken = false }
poll_again _ s = s

pub data Move : Type 0 where
  poller_moves : Given → Move
  stopper_moves executor_polls : Move

unfoldable pub move : Move → Race → Race
unfolding poll_at stop_at
move (poller_moves g) s = poll_at s.poller g s
move stopper_moves s = stop_at s.stopper s
move executor_polls s = poll_again s.poller s

unfoldable pub moves : List Move → Race → Race
unfolding move
moves [] s = s
moves (m ∷ ms) s = moves ms (move m s)

-- A poll begins while `stop` is about to.
abbrev pub at_first : Race
at_first = record {
  poller = first_test;
  stopper = storing;
  stop = false;
  registered = false;
  woken = false;
}

-- A poll that goes back to sleep, or is about to, has left its waker, unless `stop` has taken it.
abbrev Sleeps : PollerAt → StopperAt → Race → Type 0
Sleeps second_test storing s = s.registered ≡ true
Sleeps second_test waking s = s.stop ≡ true
Sleeps second_test done s = s.stop ≡ true
Sleeps returned_pending storing s = s.registered ≡ true
Sleeps returned_pending waking s = s.registered ≡ true
Sleeps returned_pending done s = s.woken ≡ true
Sleeps _ _ s = Unit

abbrev Stored : StopperAt → Race → Type 0
Stored storing s = Unit
Stored waking s = s.stop ≡ true
Stored done s = s.stop ≡ true

abbrev IsAwake : Race → Type 0
IsAwake s = Sleeps s.poller s.stopper s × Stored s.stopper s

abbrev race : PollerAt → StopperAt → Bool → Bool → Bool → Race
race p q stop registered woken = record {
  poller = p;
  stopper = q;
  stop = stop;
  registered = registered;
  woken = woken;
}

poll_at-IsAwake :
    (p : PollerAt) (q : StopperAt) (g : Given) (stop registered woken : Bool)
    → IsAwake (race p q stop registered woken)
    → IsAwake (poll_at p g (race p q stop registered woken))
unfolding poll_at
poll_at-IsAwake p q g stop registered woken h = ground arith

stop_at-IsAwake :
    (p : PollerAt) (q : StopperAt) (stop registered woken : Bool)
    → IsAwake (race p q stop registered woken)
    → IsAwake (stop_at q (race p q stop registered woken))
unfolding stop_at
stop_at-IsAwake p q stop registered woken h = ground arith

poll_again-IsAwake :
    (p : PollerAt) (q : StopperAt) (stop registered woken : Bool)
    → IsAwake (race p q stop registered woken)
    → IsAwake (poll_again p (race p q stop registered woken))
poll_again-IsAwake p q stop registered woken h = ground arith

move-IsAwake : (m : Move) (s : Race) → IsAwake s → IsAwake (move m s)
unfolding move
move-IsAwake (poller_moves g) s h =
    poll_at-IsAwake s.poller s.stopper g s.stop s.registered s.woken h
move-IsAwake stopper_moves s h = stop_at-IsAwake s.poller s.stopper s.stop s.registered s.woken h
move-IsAwake executor_polls s h =
    poll_again-IsAwake s.poller s.stopper s.stop s.registered s.woken h

moves-IsAwake : (ms : List Move) (s : Race) → IsAwake s → IsAwake (moves ms s)
unfolding moves
moves-IsAwake [] s h = h
moves-IsAwake (m ∷ ms) s h = moves-IsAwake ms (move m s) (move-IsAwake m s h)

moves-append : (ms ns : List Move) (s : Race) → moves (ms ++ ns) s ≡ moves ns (moves ms s)
unfolding moves
moves-append [] ns s = refl
moves-append (m ∷ ms) ns s = moves-append ms ns (move m s)

polled_again :
    (s : Race) (g : Given)
    → s.poller ≡ returned_pending
    → s.stop ≡ true
    → (moves (executor_polls ∷ poller_moves g ∷ []) s).poller ≡ returned_end
unfolding moves move poll_at
polled_again s g p h = rw (p, h) refl

-- However the accesses of a poll and of `stop` are interleaved, and however often the
-- executor polls again: once `stop` is done, a poll that has gone back to sleep without an
-- answer has been woken since, and the poll that answers that wake ends the stream at
-- its first test, whatever the transport would give. No wake is lost.
pub stop_wakes :
    (ms : List Move) (g : Given)
    → (moves ms at_first).poller ≡ returned_pending
    → (moves ms at_first).stopper ≡ done
    → ((moves ms at_first).woken ≡ true)
      × ((moves (ms ++ executor_polls ∷ poller_moves g ∷ []) at_first).poller ≡ returned_end)
stop_wakes ms g p q =
    let h = moves-IsAwake ms at_first (tt, tt) in
    let (sleeps, stored) = rw (p, q) at h in
    (
      sleeps,
      rw (moves-append ms (executor_polls ∷ poller_moves g ∷ []) at_first)
          (polled_again (moves ms at_first) g p stored),
    )
