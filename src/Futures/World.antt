-- ===== src/Futures/World.antt =====
-- The state behind qapi/src/futures/mod.rs: `QapiShared` with its mutex, and what the two halves
-- of the client have done to the channels and wakers of the `futures` crate, as a log.
-- A oneshot channel is known by a number; its sender lives in the table of pending commands.
use qapi_rs.Prelude.{
  ℕ, Bool, Option, none, some, List, [], ◌∷◌, Outcome, ok, err, panic, ◌==◌, if◌then◌else◌,
}
use qapi_rs.Spec.{IoError, Error}

-- What a channel carries: the reply, or the error that the peer reported.
abbrev pub Reply : Type 0 → Type 0
Reply Any = Outcome (Error Any) Any

-- `QapiCommandMap`: ids to channels. Only insertion, removal and clearing are used, so the order
-- of the map does not show.
abbrev pub CommandMap : Type 0
CommandMap = List (ℕ × ℕ)

-- `QapiSharedCommands` behind its mutex. The standard mutex is poisoned by a panic under it.
pub record QapiSharedCommands : Type 0 where
  pub pending : CommandMap
  pub abandoned : Bool
  pub poisoned : Bool

pub record QapiShared : Type 0 where
  pub commands : QapiSharedCommands
  pub stop : Bool
  pub abandoned : Bool
  pub supports_oob : Bool

-- What the program asks of the `futures` crate. A sender ends in one of three ways: its value is
-- taken, its value comes back because the receiver is gone, or it is dropped.
pub data Effect (Any : Type 0) : Type 0 where
  created : ℕ → Effect Any
  sent : ℕ → Reply Any → Effect Any
  refused : ℕ → Reply Any → Effect Any
  dropped : ℕ → Effect Any
  registered woken_stop woken_self : Effect Any

-- The newest effect first; channels below `next_channel` have been created.
pub record World (Any : Type 0) : Type 0 where
  pub shared : QapiShared
  pub next_channel : ℕ
  pub log : List (Effect Any)

-- `BTreeMap::get`, `insert` (which replaces) and `remove`.
unfoldable pub lookup : ℕ → CommandMap → Option ℕ
lookup k [] = none
lookup k ((j, ch) ∷ m) = if j == k then some ch else lookup k m

unfoldable pub insert : ℕ → ℕ → CommandMap → CommandMap
insert k ch [] = (k, ch) ∷ []
insert k ch ((j, c) ∷ m) = if j == k then (k, ch) ∷ m else (j, c) ∷ insert k ch m

unfoldable pub remove : ℕ → CommandMap → CommandMap
remove k [] = []
remove k ((j, c) ∷ m) = if j == k then m else (j, c) ∷ remove k m

-- A step of the program: the state that it leaves, and a value, an error or a panic.
abbrev pub Step : Type 0 → Type 0 → Type 0
Step Any A = World Any → World Any × Outcome IoError A

module _ {Any A B : Type 0} where
  abbrev continue_with :
      (A → World Any → World Any × Outcome IoError B)
      → World Any × Outcome IoError A
      → World Any × Outcome IoError B
  continue_with f (w, ok a) = f a w
  continue_with f (w, err e) = (w, err e)
  continue_with f (w, panic) = (w, panic)

  infixl 5 ◌>>=◌
  abbrev pub ◌>>=◌ :
      (World Any → World Any × Outcome IoError A)
      → (A → World Any → World Any × Outcome IoError B)
      → World Any
      → World Any × Outcome IoError B
  ◌>>=◌ m f w = continue_with f (m w)

module _ {Any : Type 0} where
  abbrev pub effect : Effect Any → World Any → World Any
  effect e w = record w { log = e ∷ w.log }

  abbrev pub set_commands : QapiSharedCommands → World Any → World Any
  set_commands c w = record w { shared = record (w.shared) { commands = c } }

  -- `self.commands.lock().unwrap()`, around what is done under the lock.
  abbrev pub with_lock :
      {A : Type 0}
      → (World Any → World Any × Outcome IoError A)
      → World Any
      → World Any × Outcome IoError A
  with_lock body w = if w.shared.commands.poisoned then (w, panic) else body w

  -- The senders of a map are dropped with it.
  unfoldable pub drop_all : CommandMap → World Any → World Any
  drop_all [] w = w
  drop_all ((k, ch) ∷ m) w = drop_all m (effect (dropped ch) w)
