-- ===== src/Futures/Table.antt =====
-- The table of pending commands of qapi/src/futures/mod.rs, a `BTreeMap`, as what it promises: ids
-- with channels, in no order. Two lists of entries are one table where every lookup agrees.
pub mod Steps
use mathlib.Core.Quot
use mathlib.Core.Quot.{Quot, Quot-set}
use qapi_rs.Prelude.{
  ℕ, ◌+◌, ◌≡◌, ◌≢◌, refl, ap, sym, ◌∙◌, Bool, true, false, Option, none, some, List, [], ◌∷◌, ok,
  err, panic, arith, if◌then◌else◌, ◌==◌, if_split,
}
use qapi_rs.Futures.World.{World, CommandMap, lookup, insert, remove, drop_all}
use qapi_rs.Futures.Shared
use qapi_rs.Futures.Shared.{command_remove, command_insert, release, service_stop, events_drop}
use qapi_rs.Futures.Events.{AnyOps}
use qapi_rs.Futures.Runs.{IsKept}
use qapi_rs.Futures.Routing.{
  IsMap, HasMap, insert-IsMap, remove-IsMap, lookup-remove, HasMap-IsKept,
}

abbrev Entries : Type 0
Entries = (m : CommandMap) × IsMap m

abbrev SameLookups : Entries → Entries → Type 0
SameLookups p q = (k : ℕ) → lookup k p.0 ≡ lookup k q.0

abbrev pub Table : Type 0
Table = Quot SameLookups

abbrev pub table_of : (m : CommandMap) → IsMap m → Table
table_of m v = Quot.mk (m, v)

pub lookup-insert :
    (i k ch : ℕ) (m : CommandMap)
    → lookup i (insert k ch m) ≡ (if k == i then some ch else lookup i m)
unfolding lookup insert
lookup-insert i k ch [] = ground arith
lookup-insert i k ch ((j, c) ∷ m) = ground (arith, lookup-insert i k ch m)

unfoldable pub find : ℕ → Table → Option ℕ
find k = Quot.lift (hlevel) (λ p. lookup k p.0) (λ p q h. h k)

unfoldable pub take : ℕ → Table → Table
take k =
    Quot.lift Quot-set (λ p. table_of (remove k p.0) (remove-IsMap k p.0 p.1))
      λ p q h. Quot.sound λ i. rw (lookup-remove i k p.0 p.1, lookup-remove i k q.0 q.1, h i) refl

unfoldable pub enter : ℕ → ℕ → Table → Table
enter k ch =
    Quot.lift Quot-set (λ p. table_of (insert k ch p.0) (insert-IsMap k ch p.0 p.1))
      λ p q h. Quot.sound λ i. rw (lookup-insert i k ch p.0, lookup-insert i k ch q.0, h i) refl

unfoldable pub nothing_pending : Table
nothing_pending = table_of [] tt

-- A table is its lookups.
pub ext : (x y : Table) → ((k : ℕ) → find k x ≡ find k y) → x ≡ y
unfolding find
ext = Quot.ind (λ _. hlevel Quot-set) λ p. Quot.ind (λ _. hlevel Quot-set) λ q. Quot.sound

find-take : (i k : ℕ) (t : Table) → find i (take k t) ≡ (if k == i then none else find i t)
unfolding find take
find-take i k = Quot.ind (λ _. hlevel) λ p. lookup-remove i k p.0 p.1

find-enter :
    (i k ch : ℕ) (t : Table) → find i (enter k ch t) ≡ (if k == i then some ch else find i t)
unfolding find enter
find-enter i k ch = Quot.ind (λ _. hlevel) λ p. lookup-insert i k ch p.0

-- A lookup goes into the branches of a test.
pub find_if :
    (k : ℕ) (b : Bool) (t u : Table)
    → find k (if b then t else u) ≡ (if b then find k t else find k u)
find_if k true t u = refl
find_if k false t u = refl

-- The order in which two ids are entered does not show, and what is entered under an id that was
-- free can be taken back.
enter_comm : (i j a b : ℕ) (t : Table) → i ≢ j → enter i a (enter j b t) ≡ enter j b (enter i a t)
enter_comm i j a b t h = ext _ _ λ k. ground (
  arith,
  find-enter k i a (enter j b t),
  find-enter k j b t,
  find-enter k j b (enter i a t),
  find-enter k i a t,
)

take-enter : (k ch : ℕ) (t : Table) → find k t ≡ none → take k (enter k ch t) ≡ t
take-enter k ch t h =
    ext _ _ λ i. ground (arith, find-take i k (enter k ch t), find-enter i k ch t, h)
