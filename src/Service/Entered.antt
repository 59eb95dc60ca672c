-- ===== src/Service/Entered.antt =====
-- What `QapiService::execute` of qapi/src/futures/mod.rs has done when it has been given the sink:
-- its command stands in the table, or the table is abandoned and its sender is gone.
use qapi_rs.Prelude.{ℕ, ◌≡◌, Option, false, some, ◌∷◌, ok, arith, if◌then◌else◌, ◌==◌}
use qapi_rs.Futures.World.{created, dropped, lookup}
use qapi_rs.Futures.Shared.{command_insert}
use qapi_rs.Futures.Table.{lookup-insert}
use qapi_rs.Service.{sending, System, id_or_default, locked}

module _ {Any : Type 0} where
  -- The call goes on with the channel of its receiver, and holds the sink. Unless the table is
  -- abandoned, the table has that channel under the call's id, and under every other id what it
  -- had. Where it is abandoned it is left as it is, and the sender is dropped.
  abbrev pub Enters : ℕ → Option ℕ → System Any → Type 0
  Enters t id s =
      let ch = s.world.next_channel in
      let abandoned = s.world.shared.commands.abandoned in
      let u = locked t id s in
      (u.tasks t ≡ sending id ch)
      × (u.writer ≡ some t)
      × ((k : ℕ)
          → lookup k u.world.shared.commands.pending ≡ (
              if abandoned
              then lookup k s.world.shared.commands.pending
              else (if id_or_default id == k
                  then some ch
                  else lookup k s.world.shared.commands.pending)))
      × (u.world.log
          ≡ (if abandoned then dropped ch ∷ created ch ∷ s.world.log else created ch ∷ s.world.log))

  pub locked-Enters :
      (t : ℕ) (id : Option ℕ) (s : System Any)
      → s.world.shared.commands.poisoned ≡ false
      → (command_insert (id_or_default id) s.world).1 ≡ ok s.world.next_channel
      → Enters t id s
  unfolding locked command_insert
  locked-Enters t id s p e = (
    ground (arith, p, e),
    ground (arith, p, e),
    λ k. ground (
      arith,
      p,
      e,
      lookup-insert k (id_or_default id) s.world.next_channel s.world.shared.commands.pending,
    ),
    ground (arith, p, e),
  )
