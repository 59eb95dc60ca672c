-- ===== src/Codegen/Include/Reached.antt =====
-- `include` of codegen/src/lib.rs over a whole schema: which files it reads, and that it ends.
use mathlib.Core.List.{Memᴰ}
use mathlib.Core.List.Memᴰ
use qapi_rs.Prelude.{
  ℕ, ◌≡◌, ◌≢◌, refl, sym, ◌∙◌, ap, subst, String, true, Option, none, some, [], ◌∷◌, ◌⊎◌, inl, inr,
  Outcome, ok, arith, Bool-cases, some_injective, ok_injective,
}
use qapi_rs.Spec.{IoError}
use qapi_rs.Schema.Types.{Spec}
use qapi_rs.Parser.{Reader}
use qapi_rs.Parser.Repo.{FilePath, QemuFileRepo, parent, push_context}
use qapi_rs.Codegen.Paths.{path_eq, contains}
use qapi_rs.Codegen.Context.{Context}
use qapi_rs.Codegen.Include.{Visit, Run, entries, in_repo, closed}
use qapi_rs.Codegen.Include.Visited.{path_eq_iff, contains-head}
use qapi_rs.Codegen.Include.Items.{names}
use qapi_rs.Codegen.Include.Covers.{in_directory, Includes, Reaches, here, Reaches-first, Covers}
use qapi_rs.Codegen.Include.Entered.{drop_context-Dropped}

module _ {W : Type 0} where
  pub in_repo-ok :
      (repo : QemuFileRepo) (run : Option (Context W × Outcome IoError (Unit {0}))) (t : Visit W)
      → in_repo repo run ≡ some (t, ok tt)
      → (run ≡ some (t.context, ok tt)) × (t.repo ≡ repo)
  in_repo-ok repo none t e = cc
  in_repo-ok repo (some (c, result)) t e = (cc, cc)

  pub in_repo-total :
      (repo : QemuFileRepo) (run : Option (Context W × Outcome IoError (Unit {0})))
      → run ≢ none
      → in_repo repo run ≢ none
  in_repo-total repo none h e = h refl
  in_repo-total repo (some (c, result)) h e = cc

  -- The end of a scope that succeeds gives the outer repository back.
  pub closed-ok :
      (run : Run W) (t : Visit W)
      → closed run ≡ some (t, ok tt)
      → (m : Visit W) × (run ≡ some (m, ok tt))
        × (t.context ≡ m.context)
        × ((inside : FilePath) (s : QemuFileRepo) → m.repo ≡ push_context inside s → t.repo ≡ s)
  unfolding push_context
  closed-ok none t e = cc
  closed-ok (some (s, result)) t e =
      let d = drop_context-Dropped s.repo.paths result t.repo tt cc in
      (s, rw d.value, cc, λ inside r h. d.back inside r (ap (λ (q : QemuFileRepo). q.paths) h))

  pub closed-total : (run : Run W) → run ≢ none → closed run ≢ none
  closed-total none h e = h refl
  closed-total (some (s, result)) h e = cc

module _ {E : Type 0} (read_file : FilePath → Outcome IoError String) (r : Reader Spec E)
    (items : ℕ) where
  -- A file that is already there, and one whose includes have been covered.
  pub Covers-read :
      {W : Type 0} (d : FilePath) (path : String) (s t : Visit W)
      → s.context.includes ≡ []
      → contains (in_directory d path) s.context.included ≡ true
      → s ≡ t
      → Covers read_file r items d (path ∷ []) s t
  Covers-read d path s t n m e = subst (Covers read_file r items d (path ∷ []) s) e (record {
    emptied = n;
    restored = refl;
    grows = λ p h. h;
    reads = λ i h. rw (Memᴰ.eq_of_singleton h) m;
    closed = λ p h. inl h;
    reached = λ p h. inl h;
  })

  pub record Read {W : Type 0} (d : FilePath) (path : String) (s m t : Visit W) : Type 0 where
    pub inside : FilePath
    pub text : String
    pub before : Visit W
    pub read : read_file (in_directory d path) ≡ ok text
    pub parent_of : parent (in_directory d path) ≡ some inside
    pub marked : before.context.included ≡ in_directory d path ∷ s.context.included
    pub within : Covers read_file r items inside (names r items (entries text)) before m
    pub same : t.context ≡ m.context
    pub restored : t.repo ≡ s.repo

  module _ {W : Type 0} (d : FilePath) (path : String) (s m t : Visit W)
      (a : Read d path s m t) where
    first_or_earlier :
        (q : FilePath)
        → contains q a.before.context.included ≡ true
        → (q ≡ in_directory d path) ⊎ (contains q s.context.included ≡ true)
    first_or_earlier q h = elim (Bool-cases (path_eq q (in_directory d path))) [
      | inl e ↦ inl ((path_eq_iff q (in_directory d path)).0 e)
      | inr e ↦ inr (ground (arith, e, rw a.marked at h))
    ]

    includes_covered :
        (q : FilePath)
        → Includes read_file r items (in_directory d path) q
        → contains q t.context.included ≡ true
    includes_covered q i =
        let text_is : i.text ≡ a.text = ok_injective (sym i.read ∙ a.read) in
        let dir_is : i.directory ≡ a.inside = some_injective (sym i.parent_of ∙ a.parent_of) in
        rw (a.same, ← i.target, dir_is) (a.within.reads i.name (rw text_is at i.named))

    pub Covers-file : Covers read_file r items d (path ∷ []) s t
    Covers-file = record {
      emptied = rw a.same a.within.emptied;
      restored = a.restored;
      grows = λ q h. rw a.same (a.within.grows q (rw a.marked (ground (arith, h))));
      reads = λ i h.
          rw (Memᴰ.eq_of_singleton h, a.same)
            (a.within.grows (in_directory d path)
              (rw a.marked (contains-head (in_directory d path) s.context.included)));
      closed = closed_;
      reached = reached;
    }
      where
        closed_ :
            (q : FilePath)
            → contains q t.context.included ≡ true
            → (contains q s.context.included ≡ true)
              ⊎ ((u : FilePath)
                  → Includes read_file r items q u
                  → contains u t.context.included ≡ true)
        closed_ q h = elim (a.within.closed q (rw a.same at h)) [
          | inr all ↦ inr (λ u i. rw a.same (all u i))
          | inl earlier ↦ elim (first_or_earlier q earlier) [
            | inl e ↦ inr (λ u i. includes_covered u (rw e at i))
            | inr e ↦ inl e
          ]
        ]

        reached :
            (q : FilePath)
            → contains q t.context.included ≡ true
            → (contains q s.context.included ≡ true)
              ⊎ ((i : String) × Memᴰ i (path ∷ []) × Reaches read_file r items (in_directory d i) q)
        reached q h = elim (a.within.reached q (rw a.same at h)) [
          | inr (i, mi, on) ↦ inr (
            path,
            Memᴰ.head refl,
            Reaches-first read_file r items
                (record {
                  text = a.text;
                  directory = a.inside;
                  name = i;
                  read = a.read;
                  parent_of = a.parent_of;
                  named = mi;
                  target = refl;
                })
                on,
          )
          | inl earlier ↦ elim (first_or_earlier q earlier) [
            | inl e ↦ inr (path, Memᴰ.head refl, rw e here)
            | inr e ↦ inl e
          ]
        ]
