-- ===== src/Service/Task/Answered.antt =====
-- A call through `QapiStream::execute` of qapi/src/futures/mod.rs from its first poll to its
-- answer.
use qapi_rs.Prelude.{
  ℕ, ◌%◌, ◌^◌, ◌≡◌, refl, ◌∙◌, Bool, true, false, Option, none, some, List, [], ◌∷◌, Outcome, ok,
  if◌then◌else◌, ==_iff,
}
use qapi_rs.Spec.{IoError, Response, result}
use qapi_rs.Qmp.{QmpMessage}
use qapi_rs.Client.{ExecuteError}
use qapi_rs.Futures.Shared.{Poll, ready, pending}
use qapi_rs.Futures.Events.{AnyOps, Input, message}
use qapi_rs.Futures.Routing.{Routes}
use qapi_rs.Service.{
  waiting, sending, awaiting, System, delivered, id_or_default, command_response, execute, locked,
}
use qapi_rs.Service.Task.{SinkPoll, Answers, task_poll, task_polls, unless_pending}
use qapi_rs.Service.Task.Polls.{
  Quiet, IsFree, Stands, HasReply, locked-Stands, sending-Quiet, written-Quiet, awaiting-Quiet,
  awaiting_reply, written_reply, replied_answers, waiting-locked,
}

-- What the polls find from the write on: events or nothing, then the reply, then one more poll.
pub data IsReplied {Any E : Type 0} (res : Response Any Any) : List (Answers Any E) → Type 0 where
  quiet :
      (sink : SinkPoll) (input : Input (QmpMessage Any E Any)) (later : List (Answers Any E))
      → Quiet input
      → IsReplied res later
      → IsReplied res ((sink, input) ∷ later)
  reply :
      (sink : SinkPoll) (a : Answers Any E) (later : List (Answers Any E))
      → IsReplied res ((sink, message (QmpMessage.response res)) ∷ a ∷ later)

-- What the polls find from the first on: the sink is busy for as long as it likes, then takes the
-- command, and the reply comes then or later.
pub data IsServed {Any E : Type 0} (res : Response Any Any) : List (Answers Any E) → Type 0 where
  busy :
      (input : Input (QmpMessage Any E Any)) (later : List (Answers Any E))
      → Quiet input
      → IsServed res later
      → IsServed res ((pending, input) ∷ later)
  taken :
      (input : Input (QmpMessage Any E Any)) (later : List (Answers Any E))
      → Quiet input
      → IsReplied res later
      → IsServed res ((ready (ok tt), input) ∷ later)
  taken_reply :
      (a : Answers Any E) (later : List (Answers Any E))
      → IsServed res ((ready (ok tt), message (QmpMessage.response res)) ∷ a ∷ later)

-- The id of the next call, 0 standing for none.
abbrev next_id : {Any : Type 0} → System Any → ℕ
next_id s = if s.world.shared.supports_oob then s.id_counter % 2 ^ 32 else 0

-- The id that the next call carries.
abbrev call_id : Bool → ℕ → Option ℕ
call_id true c = some (c % 2 ^ 32)
call_id false c = none

execute_phase :
    {Any : Type 0} (t : ℕ) (b : Bool) (s : System Any)
    → s.world.shared.supports_oob ≡ b
    → ((execute t s).tasks t ≡ waiting (call_id b s.id_counter))
      × ((execute t s).writer ≡ s.writer)
      × ((execute t s).world ≡ s.world)
      × (id_or_default (call_id b s.id_counter) ≡ next_id s)
unfolding execute
execute_phase t true s e = rw (e, (==_iff t t).1 refl) (refl, refl, refl, refl)
execute_phase t false s e = rw (e, (==_iff t t).1 refl) (refl, refl, refl, refl)

module _ {Any Ok : Type 0} (deserialize : Any → Outcome IoError Ok) (t : ℕ) where
  -- The task has ended with the reply's result, and nobody holds the sink.
  abbrev IsAnswered :
      Response Any Any
      → System Any × Outcome IoError (Poll (Outcome (ExecuteError Any) Ok))
      → Type 0
  IsAnswered res p =
      (p.0.writer ≡ none)
      × (p.1 ≡ ok (ready (command_response deserialize (delivered (result res)))))

  unless_pending-pending :
      (p later : System Any × Outcome IoError (Poll (Outcome (ExecuteError Any) Ok)))
      → p.1 ≡ ok pending
      → unless_pending deserialize t p later ≡ later
  unfolding unless_pending
  unless_pending-pending (s, r) later e = rw e refl

  unless_pending-ready :
      (p later : System Any × Outcome IoError (Poll (Outcome (ExecuteError Any) Ok)))
      (v : Outcome (ExecuteError Any) Ok)
      → p.1 ≡ ok (ready v)
      → unless_pending deserialize t p later ≡ (p.0, ok (ready v))
  unfolding unless_pending
  unless_pending-ready (s, r) later v e = rw e refl

  module _ {E : Type 0} (ops : AnyOps Any) where
    polls_pending :
        (a : Answers Any E) (later : List (Answers Any E)) (s : System Any)
        → (task_poll deserialize t ops a s).1 ≡ ok pending
        → task_polls deserialize t ops (a ∷ later) s
          ≡ task_polls deserialize t ops later (task_poll deserialize t ops a s).0
    unfolding task_polls
    polls_pending a later s e = unless_pending-pending _ _ e

    polls_ready :
        (a : Answers Any E) (later : List (Answers Any E)) (s : System Any)
        (v : Outcome (ExecuteError Any) Ok)
        → (task_poll deserialize t ops a s).1 ≡ ok (ready v)
        → task_polls deserialize t ops (a ∷ later) s
          ≡ ((task_poll deserialize t ops a s).0, ok (ready v))
    unfolding task_polls
    polls_ready a later s v e = unless_pending-ready _ _ v e

    module _ (oob : Bool) (n ch : ℕ) (id : Option ℕ) (res : Response Any Any)
        (r : Routes ops oob res n) where
      replied_polls :
          (a : Answers Any E) (later : List (Answers Any E)) (s : System Any)
          → HasReply deserialize t E ops oob n ch id res s
          → IsAnswered res (task_polls deserialize t ops (a ∷ later) s)
      replied_polls a later s h =
          let p = replied_answers deserialize t E ops oob n ch id a res s h in
          rw (polls_ready a later s _ p.1) (p.0, refl)

      awaiting_polls :
          (polls : List (Answers Any E)) (s : System Any)
          → IsReplied res polls
          → Stands deserialize t (awaiting id ch) oob n ch s
          → IsAnswered res (task_polls deserialize t ops polls s)
      awaiting_polls _ s (quiet sink input later q d) h =
          let p = awaiting-Quiet deserialize t E ops oob n ch id sink input s q h in
          rw (polls_pending (sink, input) later s p.1) (awaiting_polls later _ d p.0)
      awaiting_polls _ s (reply sink a later) h =
          let p = awaiting_reply deserialize t E ops oob n ch id sink res s r h in
          rw (polls_pending (sink, message (QmpMessage.response res)) (a ∷ later) s p.1)
            (replied_polls a later _ p.0)

      sending_polls :
          (polls : List (Answers Any E)) (s : System Any)
          → IsServed res polls
          → Stands deserialize t (sending id ch) oob n ch s
          → IsAnswered res (task_polls deserialize t ops polls s)
      sending_polls _ s (busy input later q d) h =
          let p = sending-Quiet deserialize t E ops oob n ch id input s q h in
          rw (polls_pending (pending, input) later s p.1) (sending_polls later _ d p.0)
      sending_polls _ s (taken input later q d) h =
          let p = written-Quiet deserialize t E ops oob n ch id input s q h in
          rw (polls_pending (ready (ok tt), input) later s p.1) (awaiting_polls later _ d p.0)
      sending_polls _ s (taken_reply a later) h =
          let p = written_reply deserialize t E ops oob n ch id res s r h in
          rw (polls_pending (ready (ok tt), message (QmpMessage.response res)) (a ∷ later) s p.1)
            (replied_polls a later _ p.0)

    waiting_polls :
        (id : Option ℕ) (polls : List (Answers Any E)) (res : Response Any Any) (s : System Any)
        → IsServed res polls
        → s.tasks t ≡ waiting id
        → s.writer ≡ none
        → IsFree (id_or_default id) s.world
        → Routes ops s.world.shared.supports_oob res (id_or_default id)
        → IsAnswered res (task_polls deserialize t ops polls s)
    unfolding task_polls
    waiting_polls id (a ∷ later) res s d h w f r =
        let ch = s.world.next_channel in
        let st = locked-Stands deserialize t id s f in
        rw
          (waiting-locked deserialize t E ops s.world.shared.supports_oob (id_or_default id) ch id a
            s h w st.0)
          (sending_polls s.world.shared.supports_oob (id_or_default id) ch id res r (a ∷ later)
            (locked t id s) d st)
    waiting_polls id [] res s d h w f r = elim d [ ]

    -- A task executes a command on a client that runs, with the sink free and the id that the call
    -- gets not taken. If every poll finds the transport with nothing or an event, the sink busy
    -- for as long as it likes and then ready, and the reply comes then or any number of polls
    -- later: the task returns that reply's result as the command's, and the sink is free again.
    pub execute_answers :
        (polls : List (Answers Any E)) (res : Response Any Any) (s : System Any)
        → IsServed res polls
        → s.writer ≡ none
        → IsFree (next_id s) s.world
        → Routes ops s.world.shared.supports_oob res (next_id s)
        → IsAnswered res (task_polls deserialize t ops polls (execute t s))
    execute_answers polls res s d w f r =
        let (h, u, v, n) = execute_phase t s.world.shared.supports_oob s refl in
        waiting_polls (call_id s.world.shared.supports_oob s.id_counter) polls res (execute t s) d h
          (u ∙ w) (rw (n, v) f) (rw (n, v) r)
