-- ===== src/Codegen/Frame.antt =====
-- What a step of codegen/src/lib.rs leaves alone, as a part of the context that is the same after it.
pub mod Untouched
pub mod Kept
use qapi_rs.Prelude.{
  ◌≡◌, refl, ◌∙◌, String, Bool, true, false, Option, none, some, List, [], ◌∷◌, Outcome, ok, err,
  panic, if◌then◌else◌,
}
use qapi_rs.Spec.{IoError}
use qapi_rs.Schema.Types.{Value}
use qapi_rs.Parser.Repo.{FilePath}
use qapi_rs.Codegen.{identifier, valuety}
use qapi_rs.Codegen.Context.{
  Context, Gen, continue_with, ◌>>=◌, return, check, unwrap, or_not_found, ident, field, gets,
  modify, each, Output, emit,
}

-- The step keeps that part of the context, whatever it comes to.
pub record Keeps {W P A : Type 0} (part : Context W → P) (g : Gen W A) : Type 0 where
  pub keeps : (c : Context W) → part (g c).0 ≡ part c

-- The files: the names that are due and the paths that have been read.
abbrev pub files : {W : Type 0} → Context W → List String × List FilePath
files c = (c.includes, c.included)

-- All but the output.
abbrev pub collected : {W : Type 0} → Context W → Context (Unit {0})
collected c = record {
  includes = c.includes;
  included = c.included;
  events = c.events;
  unions = c.unions;
  enums = c.enums;
  types = c.types;
  struct_discriminators = c.struct_discriminators;
  command_trait = c.command_trait;
  out = tt;
}

-- The part is not in the output.
abbrev pub IsApart : {W P : Type 0} → (Context W → P) → Type 0
IsApart {W} part = (c : Context W) (o : W) → part (record c { out = o }) ≡ part c

pub files-IsApart : {W : Type 0} → IsApart (files {W = W})
files-IsApart c o = refl

pub collected-IsApart : {W : Type 0} → IsApart (collected {W = W})
collected-IsApart c o = refl

module _ {W P : Type 0} {part : Context W → P} where
  continue_with-Keeps :
      {A B : Type 0} (k : A → Gen W B)
      → ((a : A) → Keeps part (k a))
      → (c : Context W) (t : Context W × Outcome IoError A) → part t.0 ≡ part c
      → part (continue_with k t).0 ≡ part c
  continue_with-Keeps k h c (d, ok a) s = (h a).keeps d ∙ s
  continue_with-Keeps k h c (d, err e) s = s
  continue_with-Keeps k h c (d, panic) s = s

  pub >>=-Keeps :
      {A B : Type 0} {m : Gen W A} {k : A → Gen W B}
      → Keeps part m
      → ((a : A) → Keeps part (k a))
      → Keeps part (m >>= k)
  >>=-Keeps a b = record { keeps = λ c. continue_with-Keeps _ b c _ (a.keeps c) }

  pub return-Keeps : {A : Type 0} (a : A) → Keeps part (return a)
  return-Keeps a = record { keeps = λ c. refl }

  pub gets-Keeps : {A : Type 0} (f : Context W → A) → Keeps part (gets f)
  gets-Keeps f = record { keeps = λ c. refl }

  pub modify-Keeps :
      (f : Context W → Context W) → ((c : Context W) → part (f c) ≡ part c) → Keeps part (modify f)
  modify-Keeps f h = record { keeps = h }

  pub check-Keeps : (b : Bool) → Keeps part (check b)
  unfolding check
  check-Keeps true = record { keeps = λ c. refl }
  check-Keeps false = record { keeps = λ c. refl }

  pub unwrap-Keeps : {A : Type 0} (o : Option A) → Keeps part (unwrap o)
  unwrap-Keeps none = record { keeps = λ c. refl }
  unwrap-Keeps (some a) = record { keeps = λ c. refl }

  pub ident-Keeps : (id : String) → Keeps part (ident id)
  unfolding ident
  ident-Keeps id = unwrap-Keeps (identifier id)

  pub field-Keeps : (v : Value) (b : Bool) (s : String) → Keeps part (field v b s)
  unfolding field
  field-Keeps v b s = unwrap-Keeps (valuety v b s)

  pub or_not_found-Keeps : {A : Type 0} (m : String) (o : Option A) → Keeps part (or_not_found m o)
  unfolding or_not_found
  or_not_found-Keeps m none = record { keeps = λ c. refl }
  or_not_found-Keeps m (some a) = record { keeps = λ c. refl }

  pub each-Keeps :
      {A : Type 0} (f : A → Gen W (Unit {0}))
      → ((a : A) → Keeps part (f a))
      → (l : List A) → Keeps part (each f l)
  unfolding each
  each-Keeps f h [] = record { keeps = λ c. refl }
  each-Keeps f h (a ∷ rest) = >>=-Keeps (h a) (λ done. each-Keeps f h rest)

  pub emit-Keeps : IsApart part → (x : Output W) (l : List String) → Keeps part (emit x l)
  unfolding emit
  emit-Keeps apart x l = each-Keeps _ (λ p. record { keeps = λ c. apart c _ }) l

  pub if-Keeps :
      {A : Type 0} {m k : Gen W A} (b : Bool)
      → Keeps part m
      → Keeps part k
      → Keeps part (if b then m else k)
  if-Keeps true p q = p
  if-Keeps false p q = q

pub ruleset frame = (
  >>=-Keeps, return-Keeps, gets-Keeps, check-Keeps, unwrap-Keeps, ident-Keeps, field-Keeps,
  or_not_found-Keeps, each-Keeps, emit-Keeps, if-Keeps,
)

pub ruleset files_frame = (frame, files-IsApart)

-- A loop that succeeds has succeeded in its first round, and in what follows.
module _ {W : Type 0} where
  pub each-ok :
      {A : Type 0} (k : A → Gen W (Unit {0})) (a : A) (rest : List A)
      (t : Context W × Outcome IoError (Unit {0})) (c : Context W)
      → continue_with (λ done. each k rest) t ≡ (c, ok tt)
      → (t ≡ (t.0, ok tt)) × (each k rest t.0 ≡ (c, ok tt))
  each-ok k a rest (d, ok u) c e = (refl, e)
  each-ok k a rest (d, err f) c e = cc
  each-ok k a rest (d, panic) c e = cc
