-- ===== src/Service/Steps.antt =====
-- The steps of `execute` in qapi/src/futures/mod.rs, interleaved with the reading half, as a
-- relation: the scheduler and the peer choose.
use qapi_rs.Prelude.{ℕ, ◌≡◌, Bool, Option, none}
use qapi_rs.Qmp.{QmpMessage}
use qapi_rs.Futures.World.{World}
use qapi_rs.Futures.Shared.{release, service_stop, events_drop}
use qapi_rs.Futures.Events.{AnyOps, Input, future_poll, stream_poll}
use qapi_rs.Futures.Ownership.{held}
use qapi_rs.Futures.Runs.{response_of, start}
use qapi_rs.Service.{unborn, waiting, sending, awaiting, System, execute, locked, sent, finish}

module _ {Any : Type 0} where
  abbrev pub with_world : World Any → System Any → System Any
  with_world w s = record s { world = w }

  -- A client before any command: no task, the sink free.
  abbrev pub fresh : Bool → System Any
  fresh supports_oob = record {
    world = start Any supports_oob;
    id_counter = 0;
    writer = none;
    tasks = λ t. unborn;
  }

  module _ (E : Type 0) (ops : AnyOps Any) where
    -- What happens to the world under the reading half and the two drops.
    pub data Reading (w : World Any) (v : World Any) : Type 0 where
      future :
          (alive : ℕ → Bool) (input : Input (QmpMessage Any E Any))
          → v ≡ (future_poll ops response_of alive input w).0
          → Reading w v
      stream :
          (alive : ℕ → Bool) (input : Input (QmpMessage Any E Any))
          → v ≡ (stream_poll ops alive input w).0
          → Reading w v
      let_go : v ≡ (release w).0 → Reading w v
      drop_service : v ≡ (service_stop w).0 → Reading w v
      drop_events : v ≡ (events_drop w).0 → Reading w v

    -- The steps in which every call of `execute` is driven to its end and the sink works. A
    -- receiver resolves only when its sender has left the table.
    pub data Step (s u : System Any) : Type 0 where
      call : (t : ℕ) → s.tasks t ≡ unborn → u ≡ execute t s → Step s u
      lock :
          (t : ℕ) (id : Option ℕ)
          → s.tasks t ≡ waiting id
          → s.writer ≡ none
          → u ≡ locked t id s
          → Step s u
      write :
          (t : ℕ) (id : Option ℕ) (ch : ℕ)
          → s.tasks t ≡ sending id ch
          → u ≡ sent t id ch s
          → Step s u
      reply :
          (t : ℕ) (id : Option ℕ) (ch : ℕ)
          → s.tasks t ≡ awaiting id ch
          → held ch s.world.shared.commands.pending ≡ 0
          → u ≡ finish t s
          → Step s u
      read : (w : World Any) → Reading s.world w → u ≡ with_world w s → Step s u

    -- All steps: a write to the sink may also fail, and a call of `execute` may be dropped.
    pub data AnyStep (s u : System Any) : Type 0 where
      step : Step s u → AnyStep s u
      fail :
          (t : ℕ) (id : Option ℕ) (ch : ℕ)
          → s.tasks t ≡ sending id ch
          → u ≡ finish t s
          → AnyStep s u
      abandon : (t : ℕ) → u ≡ finish t s → AnyStep s u

    pub data Reach (s : System Any) : System Any → Type 0 where
      here : Reach s s
      next : {t u : System Any} → Reach s t → Step t u → Reach s u

    pub data ReachAny (s : System Any) : System Any → Type 0 where
      here : ReachAny s s
      next : {t u : System Any} → ReachAny s t → AnyStep t u → ReachAny s u
