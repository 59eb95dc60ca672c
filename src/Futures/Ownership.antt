-- ===== src/Futures/Ownership.antt =====
-- Who owns the senders of qapi/src/futures/mod.rs: each channel that a command made is either
-- pending or has been settled (its value sent, or its sender dropped), and that exactly once.
use qapi_rs.Prelude.{
  ℕ, ◌+◌, ◌≡◌, refl, Bool, Option, none, some, List, [], ◌∷◌, arith, ◌==◌, ltb, if◌then◌else◌,
}
use qapi_rs.Spec.{Response}
use qapi_rs.Futures.World.{
  World, CommandMap, Effect, created, sent, refused, dropped, registered, woken_stop, woken_self,
  effect, ◌>>=◌, lookup, insert, remove, drop_all,
}
use qapi_rs.Futures.Shared.{command_remove, command_insert, release, service_stop, events_drop}
use qapi_rs.Futures.Events.{AnyOps, deliver}
use qapi_rs.Futures.Stable.{IsStable}

abbrev one : ℕ → ℕ → ℕ
one c d = if d == c then 1 else 0

abbrev one_of : ℕ → Option ℕ → ℕ
one_of c none = 0
one_of c (some d) = one c d

-- How often the map holds the channel's sender.
unfoldable pub held : ℕ → CommandMap → ℕ
held c [] = 0
held c ((k, d) ∷ m) = one c d + held c m

-- How often the channel's sender has been used up.
unfoldable pub settled : {Any : Type 0} → ℕ → List (Effect Any) → ℕ
settled c [] = 0
settled c (sent d r ∷ log) = one c d + settled c log
settled c (refused d r ∷ log) = one c d + settled c log
settled c (dropped d ∷ log) = one c d + settled c log
settled c (created d ∷ log) = settled c log
settled c (registered ∷ log) = settled c log
settled c (woken_stop ∷ log) = settled c log
settled c (woken_self ∷ log) = settled c log

held-remove : (c k : ℕ) (m : CommandMap) → held c m ≡ held c (remove k m) + one_of c (lookup k m)
unfolding held remove lookup
held-remove c k [] = omega arith
held-remove c k ((j, d) ∷ m) = ground (arith, held-remove c k m)

held-insert :
    (c k ch : ℕ) (m : CommandMap)
    → held c (insert k ch m) + one_of c (lookup k m) ≡ held c m + one c ch
unfolding held insert lookup
held-insert c k ch [] = omega arith
held-insert c k ch ((j, d) ∷ m) = ground (arith, held-insert c k ch m)

module _ {Any : Type 0} where
  -- Every channel made so far is pending or settled, once; no other channel is either.
  abbrev pub Owned : World Any → Type 0
  Owned w =
      (c : ℕ)
      → settled c w.log + held c w.shared.commands.pending ≡ (if ltb c w.next_channel then 1 else 0)

  pub drop_all-settled :
      (c : ℕ) (m : CommandMap) (w : World Any)
      → (settled c (drop_all m w).log ≡ settled c w.log + held c m)
        × ((drop_all m w).shared ≡ w.shared)
        × ((drop_all m w).next_channel ≡ w.next_channel)
  unfolding drop_all settled held
  drop_all-settled c [] w = (omega arith, refl, refl)
  drop_all-settled c ((k, d) ∷ m) w =
      let later = drop_all-settled c m (effect (dropped d) w) in
      (omega (arith, later.0), later.1, later.2)

  pub command_insert-Owned : (id : ℕ) (w : World Any) → Owned w → Owned (command_insert id w).0
  unfolding command_insert settled
  command_insert-Owned id w v c =
      ground (arith, v c, held-insert c id w.next_channel w.shared.commands.pending)

  pub release-Owned : (w : World Any) → Owned w → Owned (release w).0
  unfolding release
  release-Owned w v c = ground (arith, v c)

  pub service_stop-Owned : (w : World Any) → Owned w → Owned (service_stop w).0
  unfolding service_stop settled
  service_stop-Owned w v c = ground (arith, v c)

  pub events_drop-Owned : (w : World Any) → Owned w → Owned (events_drop w).0
  unfolding events_drop held
  events_drop-Owned w v c = ground (arith, v c, drop_all-settled c w.shared.commands.pending w)

  module _ (ops : AnyOps Any) (alive : ℕ → Bool) where
    deliver-Owned :
        (n : ℕ) (res : Response Any Any) (w : World Any)
        → Owned w
        → Owned ((command_remove n >>= deliver ops alive n res) w).0
    unfolding command_remove deliver settled
    deliver-Owned n res w v c = ground (arith, v c, held-remove c n w.shared.commands.pending)

    pub Owned-IsStable : IsStable ops alive Owned
    unfolding settled
    Owned-IsStable = record {
      delivers = λ n res w a. deliver-Owned n res w;
      wakes = λ w v. v;
      registers = λ w v. v;
      stops = λ w v. v;
    }
