-- ===== src/Service/Tagged/Invariant.antt =====
-- The state of `QapiService` in qapi/src/futures/mod.rs with several commands in flight under ids.
use qapi_rs.Prelude.{
  ℕ, ◌≤◌, ◌<◌, ◌≡◌, ◌≢◌, refl, subst, ◌⊎◌, inl, inr, true, false, Option, none, some, if◌then◌else◌,
  ◌==◌, ==_iff, Bool-cases,
}
use qapi_rs.Futures.World.{lookup}
use qapi_rs.Futures.Shared
use qapi_rs.Futures.Shared.{command_insert, command_remove, release, service_stop, events_drop}
use qapi_rs.Service.{Phase, unborn, over, waiting, sending, awaiting, System, update}
use qapi_rs.Service.Steps.{fresh}

-- The id that a call carries, and that of a call that has yet to enter the table.
abbrev pub id_of : Phase → Option ℕ
id_of unborn = none
id_of over = none
id_of (waiting id) = id
id_of (sending id ch) = id
id_of (awaiting id ch) = id

abbrev pub waits_with : Phase → Option ℕ
waits_with (waiting id) = id
waits_with p = none

abbrev pub HasId : Phase → Type 0
HasId (waiting id) = id ≢ none
HasId p = Unit

pub id_of-waits_with : (p : Phase) (k : ℕ) → waits_with p ≡ some k → id_of p ≡ some k
id_of-waits_with unborn k h = cc
id_of-waits_with over k h = cc
id_of-waits_with (waiting id) k h = h
id_of-waits_with (sending id ch) k h = cc
id_of-waits_with (awaiting id ch) k h = cc

pub update-cases :
    (P : Phase → Type 0) (f : ℕ → Phase) (t : ℕ) (p : Phase) (u : ℕ)
    → P (update f t p u)
    → ((t ≡ u) × P p) ⊎ ((t ≢ u) × P (f u))
update-cases P f t p u h = elim (Bool-cases (t == u)) [
  | inl e ↦ inl ((==_iff t u).0 e, subst (λ b. P (if b then p else f u)) e h)
  | inr e ↦ inr ((λ q. cc (e, (==_iff t u).1 q)), subst (λ b. P (if b then p else f u)) e h)
]

pub record Tagged {Any : Type 0} (s : System Any) : Type 0 where
  pub mode : s.world.shared.supports_oob ≡ true
  pub safe : s.world.shared.commands.poisoned ≡ false
  pub has_id : (t : ℕ) → HasId (s.tasks t)
  pub below : (t n : ℕ) → id_of (s.tasks t) ≡ some n → n < s.id_counter
  pub distinct : (t u n : ℕ) → id_of (s.tasks t) ≡ some n → id_of (s.tasks u) ≡ some n → t ≡ u
  pub above : (k : ℕ) → s.id_counter ≤ k → lookup k s.world.shared.commands.pending ≡ none
  pub clear :
      (t n : ℕ) → waits_with (s.tasks t) ≡ some n → lookup n s.world.shared.commands.pending ≡ none

module _ {Any : Type 0} where
  pub fresh-Tagged : Tagged (fresh {Any = Any} true)
  unfolding Shared.new lookup
  fresh-Tagged = record {
    mode = refl;
    safe = refl;
    has_id = λ t. tt;
    below = λ t n e. cc;
    distinct = λ t u n e f. cc;
    above = λ k h. refl;
    clear = λ t n e. refl;
  }
