-- ===== src/Codegen/Include/Entered.antt =====
-- `QemuFileRepo::include` as `include` of codegen/src/lib.rs meets it, and the end of its scope.
use qapi_rs.Prelude.{
  ◌≡◌, ◌≢◌, refl, String, Option, none, some, List, [], ◌∷◌, Outcome, ok, err, panic, arith,
}
use qapi_rs.Spec.{IoError}
use qapi_rs.Parser.Repo.{
  FilePath, QemuFileRepo, join, parent, push_context, pop_context, context, from_include, pushed,
  drop_context, opened, included, include,
}

-- A scope that ends with a value has had that value inside, and the directory it stood in is
-- taken off.
pub record Dropped {A : Type 0} (paths : List FilePath) (o : Outcome IoError A) (t : QemuFileRepo)
    (a : A) : Type 0 where
  pub value : o ≡ ok a
  pub back : (inside : FilePath) (s : QemuFileRepo) → paths ≡ inside ∷ s.paths → t ≡ s

pub drop_context-Dropped :
    {A : Type 0} (paths : List FilePath) (o : Outcome IoError A) (t : QemuFileRepo) (a : A)
    → drop_context (record { paths = paths }, o) ≡ (t, ok a)
    → Dropped paths o t a
unfolding drop_context pop_context
drop_context-Dropped [] o t a e = cc
drop_context-Dropped (p ∷ []) o t a e = cc
drop_context-Dropped (p ∷ q ∷ qs) o t a e = record { value = cc; back = λ inside s h. ground arith }

err≢ok : {f : IoError} {text : String} → ◌≢◌ {A = Outcome IoError String} (err f) (ok text)
err≢ok e = cc

module _ (read_file : FilePath → Outcome IoError String) where
  -- A name that has been opened: its file is read, and the repository stands in its directory.
  pub record Entered (directory name : FilePath) (s t : QemuFileRepo) (text : String) : Type 0 where
    pub inside : FilePath
    pub parent_of : parent (join directory name) ≡ some inside
    pub pushed_to : t ≡ push_context inside s
    pub read : read_file (join directory name) ≡ ok text

  opened-ok :
      (s t : QemuFileRepo) (o : Outcome IoError String) (text : String)
      → opened read_file s o ≡ (t, ok text)
      → (t ≡ s) × (o ≡ ok text)
  unfolding opened drop_context
  opened-ok s t (ok u) text e = (cc, cc)
  opened-ok s t (err f) text e =
      absurd (err≢ok (drop_context-Dropped s.paths (err f) t text e).value)
  opened-ok s t panic text e = cc

  included-Entered :
      (d name : FilePath) (s t : QemuFileRepo) (text : String) (o : Option FilePath)
      → parent (join d name) ≡ o
      → included read_file s (pushed s (join d name) o) ≡ (t, ok text)
      → Entered d name s t text
  unfolding included
  included-Entered d name s t text none p e = cc
  included-Entered d name s t text (some i) p e =
      let (same, read) = opened-ok (push_context i s) t (read_file (join d name)) text e in
      record { inside = i; parent_of = p; pushed_to = same; read = read }

  pub include-Entered :
      (d name : FilePath) (s t : QemuFileRepo) (text : String)
      → context s ≡ some d
      → include read_file name s ≡ (t, ok text)
      → Entered d name s t text
  unfolding include from_include
  include-Entered d name s t text c e =
      included-Entered d name s t text (parent (join d name)) refl (rw c at e)
