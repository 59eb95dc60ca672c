-- ===== src/Service/Tagged/Halves.antt =====
-- The reading half of qapi/src/futures/mod.rs, and the two drops, next to calls with ids.
use qapi_rs.Prelude.{ℕ, ◌≡◌, refl, Bool, true, false, none, [], ◌∷◌, arith}
use qapi_rs.Futures.World.{World, CommandMap, lookup, remove}
use qapi_rs.Futures.Shared
use qapi_rs.Futures.Shared.{command_insert, command_remove, release, service_stop, events_drop}
use qapi_rs.Futures.Events.{AnyOps, deliver}
use qapi_rs.Futures.Stable.{IsStable, future_poll-stable, stream_poll-stable}
use qapi_rs.Futures.Runs.{response_of}
use qapi_rs.Futures.Shutdown.{drop_all-shared}
use qapi_rs.Service.{System}
use qapi_rs.Service.Steps.{with_world, Reading, future, stream, let_go, drop_service, drop_events}
use qapi_rs.Service.Tagged.Invariant.{Tagged}

lookup-remove-none : (k n : ℕ) (m : CommandMap) → lookup k m ≡ none → lookup k (remove n m) ≡ none
unfolding lookup remove
lookup-remove-none k n [] h = refl
lookup-remove-none k n ((j, ch) ∷ m) h = ground (arith, lookup-remove-none k n m)

-- The world as the reading half may leave it: no new id in the table.
record Forgets {Any : Type 0} (m : CommandMap) (w : World Any) : Type 0 where
  mode : w.shared.supports_oob ≡ true
  safe : w.shared.commands.poisoned ≡ false
  subset : (k : ℕ) → lookup k m ≡ none → lookup k w.shared.commands.pending ≡ none

module _ {Any : Type 0} (ops : AnyOps Any) (m : CommandMap) where
  Forgets-stable : (alive : ℕ → Bool) → IsStable ops alive (Forgets m)
  unfolding deliver command_remove
  Forgets-stable alive = record {
    delivers = λ n res w a v. record {
      mode = ground arith;
      safe = ground arith;
      subset =
          λ k h. ground (arith, lookup-remove-none k n w.shared.commands.pending, v.subset k h);
    };
    wakes = λ w v. record { mode = v.mode; safe = v.safe; subset = v.subset };
    registers = λ w v. record { mode = v.mode; safe = v.safe; subset = v.subset };
    stops = λ w v. record { mode = v.mode; safe = v.safe; subset = v.subset };
  }

  Reading-Forgets : {E : Type 0} (w v : World Any) → Reading E ops w v → Forgets m w → Forgets m v
  unfolding release service_stop events_drop Shared.stop lookup
  Reading-Forgets w v (future alive input e) k =
      rw e (future_poll-stable ops alive (Forgets-stable alive) response_of input w k)
  Reading-Forgets w v (stream alive input e) k =
      rw e (stream_poll-stable ops alive (Forgets-stable alive) input w k)
  Reading-Forgets w v (let_go e) k = record {
    mode = ground arith;
    safe = ground arith;
    subset = λ i h. ground (arith, k.subset i h);
  }
  Reading-Forgets w v (drop_service e) k = record {
    mode = ground arith;
    safe = ground arith;
    subset = λ i h. ground (arith, k.subset i h);
  }
  Reading-Forgets w v (drop_events e) k = record {
    mode = ground (arith, drop_all-shared w.shared.commands.pending w);
    safe = ground (arith, drop_all-shared w.shared.commands.pending w);
    subset = λ i h. ground (arith, k.subset i h);
  }

module _ {Any E : Type 0} (ops : AnyOps Any) where
  pub read-Tagged :
      (s : System Any) (w : World Any)
      → Reading E ops s.world w
      → Tagged s
      → Tagged (with_world w s)
  read-Tagged s w r v =
      let k =
        Reading-Forgets ops s.world.shared.commands.pending s.world w r
          (record { mode = v.mode; safe = v.safe; subset = λ k h. h }) in
      record {
        mode = k.mode;
        safe = k.safe;
        has_id = v.has_id;
        below = v.below;
        distinct = v.distinct;
        above = λ i h. k.subset i (v.above i h);
        clear = λ t n e. k.subset n (v.clear t n e);
      }
