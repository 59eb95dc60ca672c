-- ===== src/Parser/Scopes.antt =====
-- Includes of parser/src/lib.rs in the scopes that keep their contexts.
use qapi_rs.Prelude.{
  ◌≡◌, ◌≢◌, refl, some, List, [], ◌∷◌, ◌++◌, Outcome, ok, err, panic, String, arith, ◌⊎◌, inl, inr,
}
use qapi_rs.Spec.{IoError}
use qapi_rs.Parser.Repo.{
  FilePath, join, all_but_last, parent, QemuFileRepo, push_context, pop_context, context,
  from_include, drop_context, opened, included, include,
}

-- Scopes in which includes are opened: one after the other, and one inside of the other.
pub data Scope : Type 0 where
  done : Scope
  including : FilePath → Scope → Scope → Scope

module _ (read_file : FilePath → Outcome IoError String) where
  abbrev Result : Type 0
  Result = QemuFileRepo × Outcome IoError (Unit {0})

  -- The `?` after a step.
  abbrev and_then : Result → (QemuFileRepo → Result) → Result
  and_then (r, ok d) k = k r
  and_then (r, err e) k = (r, err e)
  and_then (r, panic) k = (r, panic)

  abbrev inside : QemuFileRepo × Outcome IoError String → (QemuFileRepo → Result) → Result
  inside (r, ok text) body = drop_context (body r)
  inside (r, err e) body = (r, err e)
  inside (r, panic) body = (r, panic)

  -- Each include's context is kept for the scope inside of it, then dropped.
  pub visit : Scope → QemuFileRepo → Result
  visit done r = (r, ok tt)
  visit (including path within after) r =
      and_then (inside (include read_file path r) (visit within)) (visit after)

-- Every include of a scope names a file.
abbrev IsNamed : Scope → Type 0
IsNamed done = Unit
IsNamed (including path within after) = (path.components ≢ []) × IsNamed within × IsNamed after

-- A visit gives the repository back as it was, without a panic.
abbrev pub Restores : QemuFileRepo → QemuFileRepo × Outcome IoError (Unit {0}) → Type 0
Restores r t = (t.0 ≡ r) × (t.1 ≢ panic)

all_but_last-some :
    (c : String) (cs : List String) → (ds : List String) × (all_but_last (c ∷ cs) ≡ some ds)
unfolding all_but_last
all_but_last-some c [] = ([], refl)
all_but_last-some c (d ∷ ds) = let (es, e) = all_but_last-some d ds in (c ∷ es, rw e)

components-cases :
    (cs : List String) → (cs ≡ []) ⊎ ((d : String) × (ds : List String) × (cs ≡ d ∷ ds))
components-cases [] = inl refl
components-cases (d ∷ ds) = inr (d, ds, refl)

parent-some : (p : FilePath) → p.components ≢ [] → (d : FilePath) × (parent p ≡ some d)
unfolding parent
parent-some p h = elim (components-cases p.components) [
  | inl e ↦ absurd (h e)
  | inr (c, cs, e) ↦
      let (ds, f) = all_but_last-some c cs in
      (record { absolute = p.absolute; components = ds }, rw (parent, e, f))
]

append-named : (xs ys : List String) → ys ≢ [] → xs ++ ys ≢ []
append-named [] ys h e = h e
append-named (x ∷ xs) ys h e = cc

join-named : (base p : FilePath) → p.components ≢ [] → (join base p).components ≢ []
unfolding join
join-named base p h e = ground (arith, append-named base.components p.components h)

module _ (read_file : FilePath → Outcome IoError String)
    (total : (p : FilePath) → read_file p ≢ panic) where
  -- What an include comes to: its text, one directory further in, or an error and no change.
  data Included (r : QemuFileRepo) (t : QemuFileRepo × Outcome IoError String) : Type 0 where
    entered : (d : FilePath) (text : String) → t ≡ (push_context d r, ok text) → Included r t
    failed : (e : IoError) → t ≡ (r, err e) → Included r t

  opened-Included :
      (d p : FilePath) (ps : List FilePath) (o : Outcome IoError String)
      → o ≢ panic
      → Included (record { paths = p ∷ ps }) (opened read_file (record { paths = d ∷ p ∷ ps }) o)
  unfolding opened drop_context pop_context push_context
  opened-Included d p ps (ok text) h = entered d text refl
  opened-Included d p ps (err e) h = failed e refl
  opened-Included d p ps panic h = absurd (h refl)

  include-Included :
      (path p : FilePath) (ps : List FilePath)
      → path.components ≢ []
      → Included (record { paths = p ∷ ps }) (include read_file path (record { paths = p ∷ ps }))
  unfolding include included from_include context push_context
  include-Included path p ps h =
      let (d, e) = parent-some (join p path) (join-named p path h) in
      rw e (opened-Included d p ps (read_file (join p path)) (total (join p path)))

  drop_context-Restores :
      (d p : FilePath) (ps : List FilePath) (t : QemuFileRepo × Outcome IoError (Unit {0}))
      → Restores (record { paths = d ∷ p ∷ ps }) t
      → Restores (record { paths = p ∷ ps }) (drop_context t)
  unfolding drop_context pop_context
  drop_context-Restores d p ps (s, o) v = rw v.0 (refl, v.1)

  inside-Restores :
      (p : FilePath) (ps : List FilePath) (t : QemuFileRepo × Outcome IoError String)
      (body : QemuFileRepo → QemuFileRepo × Outcome IoError (Unit {0}))
      → Included (record { paths = p ∷ ps }) t
      → ((d : FilePath)
          → Restores (record { paths = d ∷ p ∷ ps }) (body (record { paths = d ∷ p ∷ ps })))
      → Restores (record { paths = p ∷ ps }) (inside read_file t body)
  unfolding push_context
  inside-Restores p ps t body (entered d text e) h =
      rw e (drop_context-Restores d p ps (body (record { paths = d ∷ p ∷ ps })) (h d))
  inside-Restores p ps t body (failed x e) h = rw e (refl, λ q. cc)

  and_then-Restores :
      (r : QemuFileRepo) (t : QemuFileRepo × Outcome IoError (Unit {0}))
      (k : QemuFileRepo → QemuFileRepo × Outcome IoError (Unit {0}))
      → Restores r t
      → Restores r (k r)
      → Restores r (and_then read_file t k)
  and_then-Restores r (s, ok d) k v w = rw v.0 w
  and_then-Restores r (s, err e) k v w = v
  and_then-Restores r (s, panic) k v w = v

  -- However includes are opened one after the other and inside of one another, from a repository
  -- with a directory to include from: if every include names a file and reading one never panics,
  -- then no push, pop or lookup panics, and afterwards the stack of directories is what it was,
  -- also where a file could not be read.
  pub visit-Restores :
      (n : Scope) (p : FilePath) (ps : List FilePath)
      → IsNamed n
      → Restores (record { paths = p ∷ ps }) (visit read_file n (record { paths = p ∷ ps }))
  unfolding visit
  visit-Restores done p ps v = (refl, λ e. cc)
  visit-Restores (including path within after) p ps v =
      let r : QemuFileRepo = record { paths = p ∷ ps } in
      and_then-Restores r (inside read_file (include read_file path r) (visit read_file within))
        (visit read_file after)
        (inside-Restores p ps (include read_file path r) (visit read_file within)
          (include-Included path p ps v.0) (λ d. visit-Restores within d (p ∷ ps) v.1))
        (visit-Restores after p ps v.2)
