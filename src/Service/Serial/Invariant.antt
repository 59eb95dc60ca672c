-- ===== src/Service/Serial/Invariant.antt =====
-- The state of `QapiService` in qapi/src/futures/mod.rs while the sink's lock keeps its commands
-- one at a time.
use qapi_rs.Prelude.{
  ℕ, ◌≡◌, ◌≢◌, refl, ap, ◌∙◌, ◌⊎◌, inl, inr, Bool, true, false, Option, none, some, [], ◌∷◌, arith,
  if◌then◌else◌, ◌==◌, ==_iff, Bool-cases, if_intro,
}
use qapi_rs.Futures.Shared
use qapi_rs.Futures.Shared.{command_insert, command_remove, release, service_stop, events_drop}
use qapi_rs.Service.{Phase, unborn, over, waiting, sending, awaiting, System, update}
use qapi_rs.Service.Steps.{fresh}

-- A call that works without ids.
abbrev pub HasNoId : Phase → Type 0
HasNoId unborn = Unit
HasNoId over = Unit
HasNoId (waiting id) = id ≡ none
HasNoId (sending id ch) = id ≡ none
HasNoId (awaiting id ch) = id ≡ none

-- A call that has taken the sink.
abbrev pub IsBusy : Phase → Type 0
IsBusy unborn = ⊥
IsBusy over = ⊥
IsBusy (waiting id) = ⊥
IsBusy (sending id ch) = Unit
IsBusy (awaiting id ch) = Unit

abbrev pub channel : Phase → Option ℕ
channel unborn = none
channel over = none
channel (waiting id) = none
channel (sending id ch) = some ch
channel (awaiting id ch) = some ch

-- The table is empty, or it holds the command of the one call that has the sink.
pub record Single {Any : Type 0} (s : System Any) : Type 0 where
  pub owner : ℕ
  pub ch : ℕ
  pub held_by : s.writer ≡ some owner
  pub entry : s.world.shared.commands.pending ≡ (0, ch) ∷ []
  pub receiver : channel (s.tasks owner) ≡ some ch

pub record Serial {Any : Type 0} (s : System Any) : Type 0 where
  pub mode : s.world.shared.supports_oob ≡ false
  pub safe : s.world.shared.commands.poisoned ≡ false
  pub no_ids : (t : ℕ) → HasNoId (s.tasks t)
  pub holds : (t : ℕ) → IsBusy (s.tasks t) → s.writer ≡ some t
  pub table : (s.world.shared.commands.pending ≡ []) ⊎ Single s

pub HasNoId-update :
    (f : ℕ → Phase) (t : ℕ) (p : Phase)
    → HasNoId p
    → ((u : ℕ) → HasNoId (f u))
    → (u : ℕ) → HasNoId (update f t p u)
HasNoId-update f t p hp h u = if_intro HasNoId (t == u) hp (h u)

IsBusy-if :
    (b : Bool) (p q : Phase)
    → IsBusy (if b then p else q)
    → ((b ≡ true) × IsBusy p) ⊎ ((b ≡ false) × IsBusy q)
IsBusy-if true p q h = inl (refl, h)
IsBusy-if false p q h = inr (refl, h)

-- What the calls own of the sink stays so when one of them changes phase.
pub busy-update :
    (f : ℕ → Phase) (t : ℕ) (p : Phase) (writer : Option ℕ)
    → (IsBusy p → writer ≡ some t)
    → ((u : ℕ) → t ≢ u → IsBusy (f u) → writer ≡ some u)
    → (u : ℕ) → IsBusy (update f t p u)
    → writer ≡ some u
busy-update f t p writer hp h u b = elim (IsBusy-if (t == u) p (f u) b) [
  | inl (e, bp) ↦ rw (← (==_iff t u).0 e) (hp bp)
  | inr (e, bf) ↦ h u (λ q. cc (e, (==_iff t u).1 q)) bf
]

pub channel-update :
    (f : ℕ → Phase) (t : ℕ) (p : Phase)
    → channel p ≡ channel (f t)
    → (o : ℕ) → channel (update f t p o) ≡ channel (f o)
channel-update f t p h o = elim (Bool-cases (t == o)) [
  | inl e ↦ rw e (h ∙ ap (λ u. channel (f u)) ((==_iff t o).0 e))
  | inr e ↦ rw e
]

pub channel-update_self : (f : ℕ → Phase) (t : ℕ) (p : Phase) → channel (update f t p t) ≡ channel p
channel-update_self f t p = ground arith

module _ {Any : Type 0} where
  pub fresh-Serial : Serial (fresh {Any = Any} false)
  unfolding Shared.new
  fresh-Serial = record {
    mode = refl;
    safe = refl;
    no_ids = λ t. tt;
    holds = λ t b. elim b [ ];
    table = inl refl;
  }
