-- ===== src/Service/Serial/Halves.antt =====
-- The reading half of qapi/src/futures/mod.rs, and the two drops, next to calls without ids.
use qapi_rs.Prelude.{ℕ, ◌≤◌, ◌≡◌, refl, ◌∙◌, ◌⊎◌, inl, inr, Bool, false, [], ◌∷◌, arith, length}
use qapi_rs.Futures.World.{World, CommandMap, remove}
use qapi_rs.Futures.Shared
use qapi_rs.Futures.Shared.{command_insert, command_remove, release, service_stop, events_drop}
use qapi_rs.Futures.Events.{AnyOps, deliver}
use qapi_rs.Futures.Stable.{IsStable, future_poll-stable, stream_poll-stable}
use qapi_rs.Futures.Runs.{response_of}
use qapi_rs.Futures.Shutdown.{drop_all-shared}
use qapi_rs.Service.{System}
use qapi_rs.Service.Steps.{with_world, Reading, future, stream, let_go, drop_service, drop_events}
use qapi_rs.Service.Serial.Invariant.{Serial}

-- The world as the reading half may leave it: its table as it was, or emptied.
record Shrinks {Any : Type 0} (m : CommandMap) (w : World Any) : Type 0 where
  mode : w.shared.supports_oob ≡ false
  safe : w.shared.commands.poisoned ≡ false
  table : (w.shared.commands.pending ≡ m) ⊎ (w.shared.commands.pending ≡ [])

remove-short : (n : ℕ) (m : CommandMap) → length m ≤ 1 → (remove n m ≡ m) ⊎ (remove n m ≡ [])
unfolding remove
remove-short n [] h = inl refl
remove-short n ((k, ch) ∷ []) h = ground arith
remove-short n ((k, ch) ∷ x ∷ m) h = absurd (omega arith)

module _ {Any : Type 0} (ops : AnyOps Any) where
  Shrinks-stable :
      (m : CommandMap) → length m ≤ 1 → (alive : ℕ → Bool) → IsStable ops alive (Shrinks m)
  unfolding deliver command_remove
  Shrinks-stable m h alive = record {
    delivers = λ n res w a v. ground (arith, remove-short n m h, remove-short n [] (omega arith));
    wakes = λ w v. record { mode = v.mode; safe = v.safe; table = v.table };
    registers = λ w v. record { mode = v.mode; safe = v.safe; table = v.table };
    stops = λ w v. record { mode = v.mode; safe = v.safe; table = v.table };
  }

  Reading-Shrinks :
      {E : Type 0} (m : CommandMap) (h : length m ≤ 1) (w v : World Any)
      → Reading E ops w v
      → Shrinks m w
      → Shrinks m v
  unfolding release service_stop events_drop Shared.stop
  Reading-Shrinks m h w v (future alive input e) k =
      rw e (future_poll-stable ops alive (Shrinks-stable m h alive) response_of input w k)
  Reading-Shrinks m h w v (stream alive input e) k =
      rw e (stream_poll-stable ops alive (Shrinks-stable m h alive) input w k)
  Reading-Shrinks m h w v (let_go e) k = ground arith
  Reading-Shrinks m h w v (drop_service e) k = ground arith
  Reading-Shrinks m h w v (drop_events e) k =
      ground (arith, drop_all-shared w.shared.commands.pending w)

module _ {Any : Type 0} where
  pub table-short : (s : System Any) → Serial s → length s.world.shared.commands.pending ≤ 1
  table-short s v = elim v.table [
    | inl empty ↦ rw empty (omega arith)
    | inr d ↦ rw d.entry (omega arith)
  ]

module _ {Any E : Type 0} (ops : AnyOps Any) where
  pub read-Serial :
      (s : System Any) (w : World Any)
      → Reading E ops s.world w
      → Serial s
      → Serial (with_world w s)
  read-Serial s w r v =
      let m = s.world.shared.commands.pending in
      let k =
        Reading-Shrinks ops m (table-short s v) s.world w r
          (record { mode = v.mode; safe = v.safe; table = inl refl }) in
      record {
        mode = k.mode;
        safe = k.safe;
        no_ids = v.no_ids;
        holds = v.holds;
        table = elim k.table [
          | inr empty ↦ inl empty
          | inl same ↦ elim v.table [
            | inl empty ↦ inl (same ∙ empty)
            | inr d ↦ inr (record {
              owner = d.owner;
              ch = d.ch;
              held_by = d.held_by;
              entry = same ∙ d.entry;
              receiver = d.receiver;
            })
          ]
        ];
      }
