-- ===== src/Service.antt =====
-- `QapiService` of qapi/src/futures/mod.rs: any number of calls of `execute` in flight, cut where
-- the code awaits. `System` is what they share: the client's state, the counter of ids, and the
-- mutex around the sink with the task that holds it.
pub mod Steps
pub mod Serial
pub mod Tagged
pub mod Stream
pub mod Task
pub mod Sync
pub mod Tower
pub mod Heard
pub mod Own
pub mod Entered
use qapi_rs.Prelude.{
  ℕ, ◌+◌, ◌%◌, ◌^◌, ◌≡◌, Bool, true, false, Option, none, some, Outcome, ok, err, panic, ◌==◌,
  if◌then◌else◌, map_err, List, [], ◌∷◌,
}
use qapi_rs.Spec.{IoError, ErrorKind, Error}
use qapi_rs.Client.{ExecuteError, qapi, io}
use qapi_rs.Futures.World.{World, Reply}
use qapi_rs.Futures.Shared.{command_insert}

-- Where a call of `execute` stands: not made, waiting for the sink, sending, awaiting its reply,
-- or over. It keeps its id, and from the insertion on the channel of its receiver.
pub data Phase : Type 0 where
  unborn over : Phase
  waiting : Option ℕ → Phase
  sending awaiting : Option ℕ → ℕ → Phase

pub record System (Any : Type 0) : Type 0 where
  pub world : World Any
  pub id_counter : ℕ
  pub writer : Option ℕ
  pub tasks : ℕ → Phase

-- `Option::unwrap_or_default` of a `u32`.
abbrev pub id_or_default : Option ℕ → ℕ
id_or_default none = 0
id_or_default (some n) = n

abbrev pub update : (ℕ → Phase) → ℕ → Phase → ℕ → Phase
update f t p u = if t == u then p else f u

-- The holder of the sink once task `t` has let go of it.
unfoldable pub unless_held : ℕ → Option ℕ → Option ℕ
unless_held t none = none
unless_held t (some u) = if u == t then none else some u

-- What a receiver resolves to.
pub data Received (Any : Type 0) : Type 0 where
  delivered : Reply Any → Received Any
  cancelled : Received Any

module _ {Any : Type 0} where
  -- `command_response`; `deserialize` is the command's reply type's.
  unfoldable pub command_response :
      {Ok : Type 0} → (Any → Outcome IoError Ok) → Received Any → Outcome (ExecuteError Any) Ok
  command_response deserialize (delivered (ok res)) = map_err io (deserialize res)
  command_response deserialize (delivered (err e)) = err (qapi e)
  command_response deserialize (delivered panic) = panic
  command_response deserialize cancelled =
      err (io (record { kind = ErrorKind.unexpected_eof; message = "QAPI stream disconnected" }))

  abbrev pub set_phase : ℕ → Phase → System Any → System Any
  set_phase t p s = record s { tasks = update s.tasks t p }

  -- `next_oob_id`: a `usize` counter, wrapping, cast to `u32`.
  pub next_oob_id : System Any → ℕ × System Any
  next_oob_id s = (s.id_counter % 2 ^ 32, record s { id_counter = (s.id_counter + 1) % 2 ^ 64 })

  tag : ℕ × System Any → Option ℕ × System Any
  tag (n, s) = (some n, s)

  command_id : System Any → Option ℕ × System Any
  unfolding next_oob_id tag
  command_id s = if s.world.shared.supports_oob then tag (next_oob_id s) else (none, s)

  begin : ℕ → Option ℕ × System Any → System Any
  begin t (id, s) = set_phase t (waiting id) s

  -- `execute` up to its first await.
  unfoldable pub execute : ℕ → System Any → System Any
  unfolding command_id begin
  execute t s = begin t (command_id s)

  entered : ℕ → Option ℕ → World Any × Outcome IoError ℕ → System Any → System Any
  entered t id (w, ok ch) s = set_phase t (sending id ch) (record s { world = w; writer = some t })
  entered t id (w, err e) s = set_phase t over (record s { world = w })
  entered t id (w, panic) s = set_phase t over (record s { world = w })

  -- The sink's lock is given to the task: the command enters the table. A panic there unwinds
  -- the task, and with it the guard of the sink.
  unfoldable pub locked : ℕ → Option ℕ → System Any → System Any
  unfolding entered
  locked t id s = entered t id (command_insert (id_or_default id) s.world) s

  -- The command was written: the sink is kept until the reply only without ids.
  unfoldable pub sent : ℕ → Option ℕ → ℕ → System Any → System Any
  sent t (some n) ch s = set_phase t (awaiting (some n) ch) (record s { writer = none })
  sent t none ch s = set_phase t (awaiting none ch) s

  -- The task ends, by its reply or an error of the sink, or its future is dropped: the guard of
  -- the sink goes with it, and nothing else.
  unfoldable pub finish : ℕ → System Any → System Any
  finish t s = set_phase t over (record s { writer = unless_held t s.writer })
