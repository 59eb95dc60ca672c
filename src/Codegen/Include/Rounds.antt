-- ===== src/Codegen/Include/Rounds.antt =====
-- The loops of `include` of codegen/src/lib.rs around the visit of one name: one after the other,
-- and while names are due.
use qapi_rs.Prelude.{
  ℕ, ◌<◌, ◌≡◌, ◌≢◌, refl, ◌∙◌, ap, subst, String, none, some, List, [], ◌∷◌, Outcome, ok, err,
  panic, arith,
}
use qapi_rs.Spec.{IoError}
use qapi_rs.Schema.Types.{Spec}
use qapi_rs.Parser.{Reader}
use qapi_rs.Parser.Repo.{FilePath, context}
use qapi_rs.Codegen.Include.{Visit, Run, and_then, visit_all, drained, on_due, rounds}
use qapi_rs.Codegen.Include.Visited.{unread, unread-grows}
use qapi_rs.Codegen.Include.Covers.{Covers, Covers-nil, Covers-cons}

module _ {W : Type 0} where
  pub and_then-ok :
      (k : Visit W → Run W) (run : Run W) (t : Visit W)
      → and_then k run ≡ some (t, ok tt)
      → (m : Visit W) × (run ≡ some (m, ok tt)) × (k m ≡ some (t, ok tt))
  and_then-ok k none t e = cc
  and_then-ok k (some (s, ok d)) t e = (s, refl, e)
  and_then-ok k (some (s, err f)) t e = cc
  and_then-ok k (some (s, panic)) t e = cc

  pub and_then-total :
      (k : Visit W → Run W) (run : Run W)
      → run ≢ none
      → ((m : Visit W) → run ≡ some (m, ok tt) → k m ≢ none)
      → and_then k run ≢ none
  and_then-total k none h f e = h refl
  and_then-total k (some (s, ok d)) h f e = f s refl e
  and_then-total k (some (s, err g)) h f e = cc
  and_then-total k (some (s, panic)) h f e = cc

  -- No name is due, and the repository stands in the directory.
  pub record Rests (d : FilePath) (s : Visit W) : Type 0 where
    pub none_due : s.context.includes ≡ []
    pub stands : context s.repo ≡ some d

  pub some-ok_injective :
      (s t : Visit W) → ◌≡◌ {A = Run W} (some (s, ok tt)) (some (t, ok tt)) → s ≡ t
  some-ok_injective s t e = cc

module _ {W E : Type 0} (read_file : FilePath → Outcome IoError String) (r : Reader Spec E)
    (items : ℕ) (visit : String → Visit W → Run W) (d : FilePath)
    (visit-Covers : (i : String) (s t : Visit W)
      → Rests d s
      → visit i s ≡ some (t, ok tt)
      → Covers read_file r items d (i ∷ []) s t) where
  Rests-after :
      (list : List String) (s t : Visit W)
      → Rests d s
      → Covers read_file r items d list s t
      → Rests d t
  Rests-after list s t q c = record {
    none_due = c.emptied;
    stands = ap context c.restored ∙ q.stands;
  }

  visit_all-Covers :
      (is : List String) (s t : Visit W)
      → Rests d s
      → visit_all visit is s ≡ some (t, ok tt)
      → Covers read_file r items d is s t
  unfolding visit_all
  visit_all-Covers [] s t q e =
      subst (Covers read_file r items d [] s) (some-ok_injective s t e)
        (Covers-nil read_file r items d s s q.none_due refl refl)
  visit_all-Covers (i ∷ is) s t q e =
      let (m, first, rest) = and_then-ok (visit_all visit is) (visit i s) t e in
      let a = visit-Covers i s m q first in
      Covers-cons read_file r items d i is s m t a
        (visit_all-Covers is m t (Rests-after (i ∷ []) s m q a) rest)

  on_due-Covers :
      (is : List String) (s t : Visit W)
      → context s.repo ≡ some d
      → s.context.includes ≡ is
      → on_due visit (rounds visit 1) is s ≡ some (t, ok tt)
      → Covers read_file r items d is (drained s) t
  unfolding rounds
  on_due-Covers [] s t q h e =
      subst (Covers read_file r items d [] (drained s)) (some-ok_injective s t e)
        (Covers-nil read_file r items d (drained s) s h refl refl)
  on_due-Covers (i ∷ is) s t q h e =
      let (m, all, again) =
        and_then-ok (rounds visit 1) (visit_all visit (i ∷ is) (drained s)) t e in
      let c =
        visit_all-Covers (i ∷ is) (drained s) m (record { none_due = refl; stands = q }) all in
      subst (Covers read_file r items d (i ∷ is) (drained s))
        (some-ok_injective m t (rw c.emptied at again)) c

  pub rounds-Covers :
      (s t : Visit W)
      → context s.repo ≡ some d
      → rounds visit 2 s ≡ some (t, ok tt)
      → Covers read_file r items d s.context.includes (drained s) t
  unfolding rounds
  rounds-Covers s t q e = on_due-Covers s.context.includes s t q refl e

  module _ (files : List FilePath) (n : ℕ)
      (visit-total : (i : String) (s : Visit W)
        → Rests d s
        → unread files s.context.included < n
        → visit i s ≢ none) where
    visit_all-total :
        (is : List String) (s : Visit W)
        → Rests d s
        → unread files s.context.included < n
        → visit_all visit is s ≢ none
    unfolding visit_all
    visit_all-total [] s q l = cc
    visit_all-total (i ∷ is) s q l =
        and_then-total (visit_all visit is) (visit i s) (visit-total i s q l) (λ m e.
          let c = visit-Covers i s m q e in
          let less = unread-grows files s.context.included m.context.included c.grows in
          visit_all-total is m (Rests-after (i ∷ []) s m q c) (omega (arith, less)))

    on_due-total :
        (is : List String) (s : Visit W)
        → context s.repo ≡ some d
        → unread files s.context.included < n
        → on_due visit (rounds visit 1) is s ≢ none
    unfolding rounds
    on_due-total [] s q l = cc
    on_due-total (i ∷ is) s q l =
        and_then-total (rounds visit 1) (visit_all visit (i ∷ is) (drained s))
          (visit_all-total (i ∷ is) (drained s) (record { none_due = refl; stands = q }) l)
          (λ m e.
            let c =
              visit_all-Covers (i ∷ is) (drained s) m (record { none_due = refl; stands = q }) e in
            rw c.emptied (λ f. cc))

    -- Two rounds are enough: the second has no name that is due.
    pub rounds-total :
        (s : Visit W)
        → context s.repo ≡ some d
        → unread files s.context.included < n
        → rounds visit 2 s ≢ none
    unfolding rounds
    rounds-total s q l = on_due-total s.context.includes s q l
