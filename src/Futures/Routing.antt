-- ===== src/Futures/Routing.antt =====
-- Where a reply goes: `handle_response` of qapi/src/futures/mod.rs against the table of pending
-- commands, seen as a map from ids to channels.
pub mod Errors
use qapi_rs.Prelude.{
  ℕ, ◌^◌, ◌<◌, ◌≤◌, ◌≡◌, ◌≢◌, refl, Bool, true, false, none, some, List, [], ◌∷◌, ok, err, arith,
  if◌then◌else◌, ◌==◌, Outcome, panic, Option-cases, Bool-cases, if_split, ltb, ◌⊎◌, inl, inr, ap,
  sym, ◌∙◌,
}
use qapi_rs.Spec.{ErrorKind, IoError, Response, id, result}
use qapi_rs.Futures.World.{World, CommandMap, ◌>>=◌, sent, refused, lookup, insert, remove}
use qapi_rs.Futures.Shared
use qapi_rs.Futures.Shared.{command_remove, command_insert, release, service_stop, events_drop}
use qapi_rs.Futures.Events.{
  AnyOps, numeric_id, deliver, route, response_id, u32_of, handle_response,
}
use qapi_rs.Futures.Runs.{Op, IsKept, run-kept, run, start}
use qapi_rs.Futures.Shutdown.{drop_all-shared}

-- No two entries of the map have one id.
abbrev pub Absent : ℕ → CommandMap → Type 0
Absent k [] = Unit
Absent k ((j, ch) ∷ m) = (j ≢ k) × Absent k m

abbrev pub IsMap : CommandMap → Type 0
IsMap [] = Unit
IsMap ((j, ch) ∷ m) = Absent j m × IsMap m

lookup-Absent : (k : ℕ) (m : CommandMap) → Absent k m → lookup k m ≡ none
unfolding lookup
lookup-Absent k [] a = refl
lookup-Absent k ((j, ch) ∷ m) a = ground (arith, lookup-Absent k m a.1)

Absent-insert : (k i ch : ℕ) (m : CommandMap) → i ≢ k → Absent k m → Absent k (insert i ch m)
unfolding insert
Absent-insert k i ch [] h a = (h, tt)
Absent-insert k i ch ((j, c) ∷ m) h a = ground (arith, Absent-insert k i ch m h a.1)

Absent-remove : (k i : ℕ) (m : CommandMap) → Absent k m → Absent k (remove i m)
unfolding remove
Absent-remove k i [] a = tt
Absent-remove k i ((j, c) ∷ m) a = ground (arith, Absent-remove k i m a.1)

pub insert-IsMap : (k ch : ℕ) (m : CommandMap) → IsMap m → IsMap (insert k ch m)
unfolding insert
insert-IsMap k ch [] v = (tt, tt)
insert-IsMap k ch ((j, c) ∷ m) v = ground (arith, insert-IsMap k ch m v.1, Absent-insert j k ch m)

pub remove-IsMap : (k : ℕ) (m : CommandMap) → IsMap m → IsMap (remove k m)
unfolding remove
remove-IsMap k [] v = tt
remove-IsMap k ((j, c) ∷ m) v = ground (arith, remove-IsMap k m v.1, Absent-remove j k m v.0)

pub lookup-remove :
    (i k : ℕ) (m : CommandMap)
    → IsMap m
    → lookup i (remove k m) ≡ (if k == i then none else lookup i m)
unfolding lookup remove
lookup-remove i k [] v = ground arith
lookup-remove i k ((j, c) ∷ m) v = ground (arith, lookup-Absent i m, lookup-remove i k m v.1)

pub remove-absent : (k : ℕ) (m : CommandMap) → lookup k m ≡ none → remove k m ≡ m
unfolding lookup remove
remove-absent k [] h = refl
remove-absent k ((j, c) ∷ m) h = ground (arith, remove-absent k m)

module _ {Any : Type 0} (ops : AnyOps Any) where
  abbrev pub HasMap : World Any → Type 0
  HasMap w = IsMap w.shared.commands.pending

  pub HasMap-IsKept : IsKept ops HasMap
  unfolding command_insert release service_stop events_drop deliver command_remove Shared.stop
  HasMap-IsKept = record {
    inserts = λ id w v. ground (arith, insert-IsMap id w.next_channel w.shared.commands.pending v);
    releases = λ w v. ground arith;
    service_stops = λ w v. ground arith;
    events_drops = λ w v. ground (arith, v, drop_all-shared w.shared.commands.pending w);
    polls = λ alive. record {
      delivers = λ n res w a v. ground (arith, v, remove-IsMap n w.shared.commands.pending v);
      wakes = λ w v. v;
      registers = λ w v. v;
      stops = λ w v. v;
    };
  }

  pub start-HasMap : (supports_oob : Bool) → HasMap (start Any supports_oob)
  unfolding Shared.new
  start-HasMap supports_oob = tt

  -- The id by which a reply is routed: out of band the number that it carries, otherwise 0, and
  -- then it must carry none.
  abbrev pub Routes : Bool → Response Any Any → ℕ → Type 0
  Routes true res n = (numeric_id ops (id res) ≡ some n) × (n < 2 ^ 32)
  Routes false res n = (numeric_id ops (id res) ≡ none) × (n ≡ 0)

  pub response_id-Routes :
      (supports_oob : Bool) (res : Response Any Any) (n : ℕ)
      → Routes supports_oob res n
      → response_id ops res supports_oob ≡ ok n
  unfolding response_id u32_of
  response_id-Routes true res n r = rw r.0 (ground arith)
  response_id-Routes false res n r = rw (r.0, r.1)

  module _ {E : Type 0} (os : List (Op Any E)) (supports_oob : Bool) (alive : ℕ → Bool) where
    -- After any history of a new client that left the table unpoisoned, a reply whose id is that
    -- of a pending command with a live receiver: its result is sent on that command's channel and
    -- on no other, the command leaves the table, all others stay as they were, and no error is
    -- reported.
    pub handle_response_delivers :
        (res : Response Any Any) (n ch : ℕ)
        → (run ops os (start Any supports_oob)).shared.commands.poisoned ≡ false
        → Routes (run ops os (start Any supports_oob)).shared.supports_oob res n
        → lookup n (run ops os (start Any supports_oob)).shared.commands.pending ≡ some ch
        → alive ch ≡ true
        → let w = run ops os (start Any supports_oob) in
          let (w', r) = handle_response ops alive res w in
          (r ≡ ok tt)
          × (w'.log ≡ sent ch (result res) ∷ w.log)
          × ((k : ℕ)
              → lookup k w'.shared.commands.pending
                ≡ (if n == k then none else lookup k w.shared.commands.pending))
    unfolding handle_response deliver command_remove
    handle_response_delivers res n ch p r l a =
        let w = run ops os (start Any supports_oob) in
        rw (response_id-Routes w.shared.supports_oob res n r, p, l, a)
          (
            refl,
            refl,
            λ k.
                lookup-remove k n w.shared.commands.pending
                  (run-kept ops HasMap-IsKept os _ (start-HasMap supports_oob)),
          )
