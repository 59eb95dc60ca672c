-- ===== src/Codegen/Include/Covers.antt =====
-- What a run of `include` of codegen/src/lib.rs comes to, where it succeeds: the files that it has
-- added to those that have been read, as a relation that its loops compose.
use mathlib.Core.List.{Memᴰ}
use mathlib.Core.List.Memᴰ
use qapi_rs.Prelude.{
  ℕ, ◌≡◌, refl, ◌∙◌, subst, String, true, some, List, [], ◌∷◌, ◌⊎◌, inl, inr, Outcome, ok,
}
use qapi_rs.Spec.{IoError}
use qapi_rs.Schema.Types.{Spec}
use qapi_rs.Parser.{Reader}
use qapi_rs.Parser.Repo.{FilePath, join, parent}
use qapi_rs.Codegen.Paths.{path_of, contains}
use qapi_rs.Codegen.Include.{Visit, entries}
use qapi_rs.Codegen.Include.Items.{names}

-- The file that a name stands for in a directory.
abbrev pub in_directory : FilePath → String → FilePath
in_directory directory name = join directory (path_of name)

module _ {E : Type 0} (read_file : FilePath → Outcome IoError String) (r : Reader Spec E)
    (items : ℕ) where
  -- An entry of the file `p` includes the file `q`: it names `q` from the directory of `p`.
  pub record Includes (p q : FilePath) : Type 0 where
    pub text : String
    pub directory : FilePath
    pub name : String
    pub read : read_file p ≡ ok text
    pub parent_of : parent p ≡ some directory
    pub named : Memᴰ name (names r items (entries text))
    pub target : in_directory directory name ≡ q

  -- The files that a file includes, and those that they include in turn.
  pub data Reaches (p : FilePath) : FilePath → Type 0 where
    here : Reaches p p
    beyond : {q t : FilePath} → Reaches p q → Includes q t → Reaches p t

  pub Reaches-first : {p q t : FilePath} → Includes p q → Reaches q t → Reaches p t
  Reaches-first i here = beyond here i
  Reaches-first i (beyond a j) = beyond (Reaches-first i a) j

  -- From `before` to `after`, the names have been included from the directory.
  pub record Covers {W : Type 0} (directory : FilePath) (list : List String)
      (before after : Visit W) : Type 0 where
    pub emptied : after.context.includes ≡ []
    pub restored : after.repo ≡ before.repo
    pub grows :
        (p : FilePath)
        → contains p before.context.included ≡ true
        → contains p after.context.included ≡ true
    pub reads :
        (i : String)
        → Memᴰ i list
        → contains (in_directory directory i) after.context.included ≡ true
    pub closed :
        (p : FilePath)
        → contains p after.context.included ≡ true
        → (contains p before.context.included ≡ true)
          ⊎ ((q : FilePath) → Includes p q → contains q after.context.included ≡ true)
    pub reached :
        (p : FilePath)
        → contains p after.context.included ≡ true
        → (contains p before.context.included ≡ true)
          ⊎ ((i : String) × Memᴰ i list × Reaches (in_directory directory i) p)

  module _ {W : Type 0} (d : FilePath) where
    pub Covers-nil :
        (s t : Visit W)
        → t.context.includes ≡ []
        → t.repo ≡ s.repo
        → t.context.included ≡ s.context.included
        → Covers d [] s t
    Covers-nil s t e p i = record {
      emptied = e;
      restored = p;
      grows = λ q m. rw i m;
      reads = λ n m. absurd (Memᴰ.not-nil m);
      closed = λ q m. inl (rw i at m);
      reached = λ q m. inl (rw i at m);
    }

    pub Covers-cons :
        (i : String) (is : List String) (s t u : Visit W)
        → Covers d (i ∷ []) s t
        → Covers d is t u
        → Covers d (i ∷ is) s u
    Covers-cons i is s t u a b = record {
      emptied = b.emptied;
      restored = b.restored ∙ a.restored;
      grows = λ p m. b.grows p (a.grows p m);
      reads = reads;
      closed = closed;
      reached = reached;
    }
      where
        reads :
            (j : String) → Memᴰ j (i ∷ is) → contains (in_directory d j) u.context.included ≡ true
        reads j (Memᴰ.head e) = b.grows (in_directory d j) (a.reads j (Memᴰ.head e))
        reads j (Memᴰ.tail m) = b.reads j m

        closed :
            (p : FilePath)
            → contains p u.context.included ≡ true
            → (contains p s.context.included ≡ true)
              ⊎ ((q : FilePath) → Includes p q → contains q u.context.included ≡ true)
        closed p m = elim (b.closed p m) [
          | inr all ↦ inr all
          | inl earlier ↦ elim (a.closed p earlier) [
            | inr all ↦ inr (λ q e. b.grows q (all q e))
            | inl first ↦ inl first
          ]
        ]

        reached :
            (p : FilePath)
            → contains p u.context.included ≡ true
            → (contains p s.context.included ≡ true)
              ⊎ ((j : String) × Memᴰ j (i ∷ is) × Reaches (in_directory d j) p)
        reached p m = elim (b.reached p m) [
          | inr (j, mj, path) ↦ inr (j, Memᴰ.tail mj, path)
          | inl earlier ↦ elim (a.reached p earlier) [
            | inl first ↦ inl first
            | inr (j, mj, path) ↦ inr (
              i,
              Memᴰ.head refl,
              subst (λ (k : String). Reaches (in_directory d k) p) (Memᴰ.eq_of_singleton mj) path,
            )
          ]
        ]
