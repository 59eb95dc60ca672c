-- ===== src/Futures/Table/Steps.antt =====
-- The locked steps of qapi/src/futures/mod.rs on the table of pending commands, against a table
-- without an order.
use qapi_rs.Prelude.{
  ℕ, ◌≡◌, ap, sym, subst, ◌∙◌, Option, none, some, [], Outcome, ok, panic, arith, if◌then◌else◌,
}
use qapi_rs.Spec.{IoError}
use qapi_rs.Futures.World.{World, lookup, insert, remove}
use qapi_rs.Futures.Shared
use qapi_rs.Futures.Shared.{command_remove, command_insert, release, service_stop, events_drop}
use qapi_rs.Futures.Events.{AnyOps}
use qapi_rs.Futures.Routing.{HasMap, remove-IsMap, HasMap-IsKept}
use qapi_rs.Futures.Table.{Table, table_of, find, take, enter, nothing_pending, ext, find_if}

module _ {Any : Type 0} (ops : AnyOps Any) where
  -- The pending commands of the world are the table.
  abbrev pub Stands : World Any → Table → Type 0
  Stands w t = (v : HasMap ops w) × (table_of w.shared.commands.pending v ≡ t)

  -- What the table is after a step under the lock, which a poisoned mutex prevents.
  abbrev pub locked : World Any → Table → Table → Table
  locked w t t' = if w.shared.commands.poisoned then t else t'

  stands :
      (w : World Any) (t : Table)
      → HasMap ops w
      → ((k : ℕ) → lookup k w.shared.commands.pending ≡ find k t)
      → Stands w t
  unfolding find
  stands w t v h = (v, ext _ _ h)

  lookup-command_insert :
      (w : World Any) (id k : ℕ)
      → let m = w.shared.commands.pending in
        lookup k (command_insert id w).0.shared.commands.pending ≡ (
          if w.shared.commands.poisoned
          then lookup k m
          else (if w.shared.commands.abandoned
              then lookup k m
              else lookup k (insert id w.next_channel m)))
  unfolding command_insert
  lookup-command_insert w id k = ground arith

  lookup-command_remove :
      (w : World Any) (id k : ℕ)
      → let m = w.shared.commands.pending in
        lookup k (command_remove id w).0.shared.commands.pending
        ≡ (if w.shared.commands.poisoned then lookup k m else lookup k (remove id m))
  unfolding command_remove
  lookup-command_remove w id k = ground arith

  lookup-events_drop :
      (w : World Any) (k : ℕ)
      → lookup k (events_drop w).0.shared.commands.pending
        ≡ (if w.shared.commands.poisoned then lookup k w.shared.commands.pending else lookup k [])
  unfolding events_drop
  lookup-events_drop w k = ground arith

  inserts :
      (w : World Any) (v : HasMap ops w) (id : ℕ)
      → let t = table_of w.shared.commands.pending v in
        Stands
          (command_insert id w).0
          (locked w t (if w.shared.commands.abandoned then t else enter id w.next_channel t))
  unfolding find enter
  inserts w v id =
      let t = table_of w.shared.commands.pending v in
      let t' = enter id w.next_channel t in
      stands (command_insert id w).0 _ ((HasMap-IsKept ops).inserts id w v) λ k.
        lookup-command_insert w id k
        ∙ sym (
            find_if k w.shared.commands.poisoned t (if w.shared.commands.abandoned then t else t')
            ∙ ap (λ o. if w.shared.commands.poisoned then find k t else o)
                (find_if k w.shared.commands.abandoned t t'))

  removes :
      (w : World Any) (v : HasMap ops w) (id : ℕ)
      → let t = table_of w.shared.commands.pending v in
        Stands (command_remove id w).0 (locked w t (take id t))
  unfolding find take command_remove
  removes w v id =
      let t = table_of w.shared.commands.pending v in
      stands (command_remove id w).0 _
        (ground (arith, v, remove-IsMap id w.shared.commands.pending v))
        λ k. lookup-command_remove w id k ∙ sym (find_if k w.shared.commands.poisoned t (take id t))

  drops :
      (w : World Any) (v : HasMap ops w)
      → let t = table_of w.shared.commands.pending v in
        Stands (events_drop w).0 (locked w t nothing_pending)
  unfolding find nothing_pending
  drops w v =
      let t = table_of w.shared.commands.pending v in
      stands (events_drop w).0 _ ((HasMap-IsKept ops).events_drops w v)
        λ k. lookup-events_drop w k ∙ sym (find_if k w.shared.commands.poisoned t nothing_pending)

  releases :
      (w : World Any) (v : HasMap ops w)
      → Stands (release w).0 (table_of w.shared.commands.pending v)
  unfolding find release
  releases w v = stands (release w).0 _ ((HasMap-IsKept ops).releases w v) λ k. ground arith

  service_stops :
      (w : World Any) (v : HasMap ops w)
      → Stands (service_stop w).0 (table_of w.shared.commands.pending v)
  unfolding find service_stop Shared.stop
  service_stops w v =
      stands (service_stop w).0 _ ((HasMap-IsKept ops).service_stops w v) λ k. ground arith

  -- An id that is taken already is a panic.
  abbrev pub entered : ℕ → Option ℕ → Outcome IoError ℕ
  entered ch none = ok ch
  entered ch (some prev) = panic

  abbrev pub Refines : World Any → ℕ → Table → Type 0
  Refines w id t =
      Stands (command_insert id w).0
        (locked w t (if w.shared.commands.abandoned then t else enter id w.next_channel t))
      × ((command_insert id w).1 ≡ (
          if w.shared.commands.poisoned
          then panic
          else (if w.shared.commands.abandoned
              then ok w.next_channel
              else entered w.next_channel (find id t))))
      × Stands (command_remove id w).0 (locked w t (take id t))
      × ((command_remove id w).1 ≡ (if w.shared.commands.poisoned then panic else ok (find id t)))
      × Stands (events_drop w).0 (locked w t nothing_pending)
      × Stands (release w).0 t
      × Stands (service_stop w).0 t

  command_insert-entered :
      (w : World Any) (id : ℕ)
      → (command_insert id w).1 ≡ (
          if w.shared.commands.poisoned
          then panic
          else (if w.shared.commands.abandoned
              then ok w.next_channel
              else entered w.next_channel (lookup id w.shared.commands.pending)))
  unfolding command_insert
  command_insert-entered w id = ground arith

  command_remove-found :
      (w : World Any) (id : ℕ)
      → (command_remove id w).1
        ≡ (if w.shared.commands.poisoned then panic else ok (lookup id w.shared.commands.pending))
  unfolding command_remove
  command_remove-found w id = ground arith

  -- The locked steps implement a table that knows no order: where the pending commands are a
  -- table, each step leaves the table that it should. While the mutex is poisoned none changes it,
  -- and an insertion and a removal panic. Otherwise an insertion enters its channel, unless the
  -- table is abandoned, and panics if the id was taken; a removal takes the id off and gives back
  -- what was found under it; the drop of the reading half leaves nothing pending; a release and the
  -- drop of the service change nothing.
  pub steps_refine_table : (w : World Any) (t : Table) (id : ℕ) → Stands w t → Refines w id t
  unfolding find
  steps_refine_table w t id (v, e) = subst (Refines w id) e (
    inserts w v id,
    command_insert-entered w id,
    removes w v id,
    command_remove-found w id,
    drops w v,
    releases w v,
    service_stops w v,
  )
