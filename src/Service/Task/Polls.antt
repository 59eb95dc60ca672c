-- ===== src/Service/Task/Polls.antt =====
-- The polls of `QapiStream::execute` of qapi/src/futures/mod.rs, one by one: what each leaves of
-- the call, the table and the sink.
use qapi_rs.Prelude.{
  ℕ, ◌≡◌, refl, Bool, false, Option, none, some, [], ◌∷◌, Outcome, ok, err, panic, arith, if_true,
  ==_iff,
}
use qapi_rs.Spec.{IoError, Response, result}
use qapi_rs.Qmp.{QmpMessage}
use qapi_rs.Futures.World.{World, CommandMap, lookup, insert}
use qapi_rs.Futures.Shared.{ready, pending, command_insert, command_remove, poll_next, on_poll}
use qapi_rs.Futures.Events.{
  AnyOps, Input, not_yet, eof, failed, message, handle_response, future_poll, deliver,
}
use qapi_rs.Futures.Routing.{Routes, response_id-Routes}
use qapi_rs.Service.{
  Phase, waiting, sending, awaiting, unless_held, System, delivered, id_or_default,
  command_response, locked, sent, finish,
}
use qapi_rs.Service.Stream.{receive, after_events}
use qapi_rs.Service.Task.{SinkPoll, Answers, receiver_of, events_arm, select_poll, task_poll}

-- A sink that has not failed.
abbrev Works : SinkPoll → Type 0
Works pending = Unit
Works (ready (ok done)) = Unit
Works (ready (err e)) = ⊥
Works (ready panic) = ⊥

-- A transport that has nothing, or an event.
abbrev pub Quiet : {Any E : Type 0} → Input (QmpMessage Any E Any) → Type 0
Quiet not_yet = Unit
Quiet eof = ⊥
Quiet (failed e) = ⊥
Quiet (message (QmpMessage.event e)) = Unit
Quiet (message (QmpMessage.response res)) = ⊥

-- The command is in the table of a running client, and nothing has come to its caller.
abbrev IsEntered : {Any : Type 0} → Bool → ℕ → ℕ → World Any → Type 0
IsEntered oob n ch w =
    (w.shared.commands.poisoned ≡ false)
    × (w.shared.stop ≡ false)
    × (w.shared.supports_oob ≡ oob)
    × (lookup n w.shared.commands.pending ≡ some ch)
    × (receive ch w.log ≡ none)

lookup-insert : (k ch : ℕ) (m : CommandMap) → lookup k (insert k ch m) ≡ some ch
unfolding lookup insert
lookup-insert k ch [] = ground arith
lookup-insert k ch ((j, c) ∷ m) = ground (arith, lookup-insert k ch m)

-- The client runs, the id that the call will have is free, and so is the channel it will make.
abbrev pub IsFree : {Any : Type 0} → ℕ → World Any → Type 0
IsFree n w =
    (w.shared.commands.poisoned ≡ false)
    × (w.shared.commands.abandoned ≡ false)
    × (w.shared.stop ≡ false)
    × (lookup n w.shared.commands.pending ≡ none)
    × (receive w.next_channel w.log ≡ none)

module _ {Any Ok : Type 0} (deserialize : Any → Outcome IoError Ok) (t : ℕ) where
  -- Where the call of task `t` stands, its command being under `n` on channel `ch`. Only the
  -- task itself may hold the sink.
  abbrev pub Stands : Phase → Bool → ℕ → ℕ → System Any → Type 0
  Stands p oob n ch s =
      (s.tasks t ≡ p) × IsEntered oob n ch s.world × (unless_held t s.writer ≡ none)

  sent-Stands :
      (oob : Bool) (n ch : ℕ) (id : Option ℕ) (s : System Any)
      → IsEntered oob n ch s.world
      → unless_held t s.writer ≡ none
      → Stands (awaiting id ch) oob n ch (sent t id ch s)
  unfolding sent unless_held
  sent-Stands oob n ch none s h u = ground (arith, h)
  sent-Stands oob n ch (some m) s h u = ground (arith, h)

  pub locked-Stands :
      (id : Option ℕ) (s : System Any)
      → IsFree (id_or_default id) s.world
      → Stands
          (sending id s.world.next_channel)
          s.world.shared.supports_oob
          (id_or_default id)
          s.world.next_channel
          (locked t id s)
  unfolding locked command_insert receive unless_held
  locked-Stands id s (p, a, st, l, r) =
      let i =
        lookup-insert (id_or_default id) s.world.next_channel s.world.shared.commands.pending in
      rw (p, a, l, (==_iff t t).1 refl) (refl, (refl, st, refl, i, r), refl)

  module _ (E : Type 0) (ops : AnyOps Any) (oob : Bool) (n ch : ℕ) where
    select-Quiet :
        (p : Phase) (input : Input (QmpMessage Any E Any)) (s : System Any)
        → Quiet input
        → Stands p oob n ch s
        → let r = select_poll deserialize t ops input (s, ok pending) in
          Stands p oob n ch r.0 × (r.1 ≡ ok pending)
    unfolding select_poll events_arm after_events future_poll poll_next on_poll receive
    select-Quiet p not_yet s q h = rw h.1.1 ((h.0, (h.1.0, refl, h.1.2, h.1.3, h.1.4), h.2), refl)
    select-Quiet p (message (QmpMessage.event e)) s q h =
        rw h.1.1 ((h.0, (h.1.0, refl, h.1.2, h.1.3, h.1.4), h.2), refl)
    select-Quiet p eof s q h = elim q [ ]
    select-Quiet p (failed e) s q h = elim q [ ]
    select-Quiet p (message (QmpMessage.response res)) s q h = elim q [ ]

    -- A poll before the write is done: the call has nothing, and the reading half neither.
    pub sending-Quiet :
        (id : Option ℕ) (input : Input (QmpMessage Any E Any)) (s : System Any)
        → Quiet input
        → Stands (sending id ch) oob n ch s
        → let r = task_poll deserialize t ops (pending, input) s in
          Stands (sending id ch) oob n ch r.0 × (r.1 ≡ ok pending)
    unfolding task_poll
    sending-Quiet id input s q h = rw h.0 (select-Quiet (sending id ch) input s q h)

    -- The poll in which the sink takes the command.
    pub written-Quiet :
        (id : Option ℕ) (input : Input (QmpMessage Any E Any)) (s : System Any)
        → Quiet input
        → Stands (sending id ch) oob n ch s
        → let r = task_poll deserialize t ops (ready (ok tt), input) s in
          Stands (awaiting id ch) oob n ch r.0 × (r.1 ≡ ok pending)
    unfolding task_poll
    written-Quiet id input s q h =
        rw (h.0, h.1.4)
          (select-Quiet (awaiting id ch) input (sent t id ch s) q
            (sent-Stands oob n ch id s h.1 h.2))

    -- A poll that waits for the reply.
    pub awaiting-Quiet :
        (id : Option ℕ) (sink : SinkPoll) (input : Input (QmpMessage Any E Any)) (s : System Any)
        → Quiet input
        → Stands (awaiting id ch) oob n ch s
        → let r = task_poll deserialize t ops (sink, input) s in
          Stands (awaiting id ch) oob n ch r.0 × (r.1 ≡ ok pending)
    unfolding task_poll
    awaiting-Quiet id sink input s q h = rw (h.0, h.1.4) (select-Quiet (awaiting id ch) input s q h)

    -- The reply has been read, and its result has come to the caller.
    abbrev pub HasReply : Option ℕ → Response Any Any → System Any → Type 0
    HasReply id res s =
        (s.tasks t ≡ awaiting id ch)
        × (receive ch s.world.log ≡ some (delivered (result res)))
        × (unless_held t s.writer ≡ none)

    -- What a poll finds that reads the reply: the call has nothing yet, and then its receiver has.
    select_reply :
        (id : Option ℕ) (res : Response Any Any) (s : System Any)
        → Routes ops oob res n
        → Stands (awaiting id ch) oob n ch s
        → let r =
            select_poll deserialize t {E = E} ops
              (message (QmpMessage.response res))
              (s, ok pending) in
          HasReply id res r.0 × (r.1 ≡ ok pending)
    unfolding select_poll events_arm after_events future_poll poll_next on_poll receive
        handle_response deliver command_remove receiver_of
    select_reply id res s r (h, (p, st, o, l, u), w) =
        rw (h, st, o, response_id-Routes ops oob res n r, p, l, (==_iff ch ch).1 refl)
          ((h, if_true _ _ ((==_iff ch ch).1 refl), w), refl)

    pub awaiting_reply :
        (id : Option ℕ) (sink : SinkPoll) (res : Response Any Any) (s : System Any)
        → Routes ops oob res n
        → Stands (awaiting id ch) oob n ch s
        → let r = task_poll deserialize t {E = E} ops (sink, message (QmpMessage.response res)) s in
          HasReply id res r.0 × (r.1 ≡ ok pending)
    unfolding task_poll
    awaiting_reply id sink res s r h = rw (h.0, h.1.4) (select_reply id res s r h)

    -- The reply may come in the very poll in which the sink takes the command.
    pub written_reply :
        (id : Option ℕ) (res : Response Any Any) (s : System Any)
        → Routes ops oob res n
        → Stands (sending id ch) oob n ch s
        → let r =
            task_poll deserialize t {E = E} ops
              (ready (ok tt), message (QmpMessage.response res))
              s in
          HasReply id res r.0 × (r.1 ≡ ok pending)
    unfolding task_poll
    written_reply id res s r h =
        rw (h.0, h.1.4) (select_reply id res (sent t id ch s) r (sent-Stands oob n ch id s h.1 h.2))

    -- The poll after the reply was read ends the task with it, and the sink is free.
    pub replied_answers :
        (id : Option ℕ) (a : Answers Any E) (res : Response Any Any) (s : System Any)
        → HasReply id res s
        → let r = task_poll deserialize t ops a s in
          (r.0.writer ≡ none)
          × (r.1 ≡ ok (ready (command_response deserialize (delivered (result res)))))
    unfolding task_poll select_poll finish
    replied_answers id a res s h = rw (h.0, h.1) (h.2, refl)

    -- The first poll takes the free sink, and goes on as one that has it already.
    pub waiting-locked :
        (id : Option ℕ) (a : Answers Any E) (s : System Any)
        → s.tasks t ≡ waiting id
        → s.writer ≡ none
        → (locked t id s).tasks t ≡ sending id ch
        → task_poll deserialize t ops a s ≡ task_poll deserialize t ops a (locked t id s)
    unfolding task_poll
    waiting-locked id a s h w e = simp (h, w, e)
