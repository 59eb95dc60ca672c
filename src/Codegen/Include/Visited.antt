-- ===== src/Codegen/Include/Visited.antt =====
-- The set of files that codegen/src/lib.rs has read, and how many of a list it has not.
use qapi_rs.Prelude.{
  ℕ, suc, ◌≤◌, ◌<◌, ◌≡◌, ◌↔◌, inl, inr, String, true, false, List, [], ◌∷◌, arith, Bool-cases,
  if◌then◌else◌,
}
use qapi_rs.Prelude.Text.{eq_iff}
use qapi_rs.Parser.Repo.{FilePath}
use qapi_rs.Codegen.Paths.{components_eq, path_eq, contains}

components_eq_iff : (cs ds : List String) → (components_eq cs ds ≡ true) ↔ (cs ≡ ds)
unfolding components_eq
components_eq_iff [] [] = ground arith
components_eq_iff [] (d ∷ ds) = ground arith
components_eq_iff (c ∷ cs) [] = ground arith
components_eq_iff (c ∷ cs) (d ∷ ds) = ground (arith, eq_iff c d, components_eq_iff cs ds)

pub path_eq_iff : (p q : FilePath) → (path_eq p q ≡ true) ↔ (p ≡ q)
unfolding path_eq
path_eq_iff p q = ground (arith, components_eq_iff p.components q.components)

pub contains-head : (p : FilePath) (ps : List FilePath) → contains p (p ∷ ps) ≡ true
contains-head p ps = ground (arith, path_eq_iff p p)

-- How many of the files are not among those that have been read.
unfoldable pub unread : List FilePath → List FilePath → ℕ
unread [] included = 0
unread (p ∷ ps) included =
    if contains p included then unread ps included else suc (unread ps included)

pub unread-grows :
    (files a b : List FilePath)
    → ((p : FilePath) → contains p a ≡ true → contains p b ≡ true)
    → unread files b ≤ unread files a
unfolding unread
unread-grows [] a b h = ground arith
unread-grows (p ∷ ps) a b h = ground (arith, unread-grows ps a b h, h p)

pub unread-mark :
    (files : List FilePath) (p : FilePath) (a : List FilePath)
    → contains p files ≡ true
    → contains p a ≡ false
    → unread files (p ∷ a) < unread files a
unfolding unread
unread-mark [] p a m h = cc
unread-mark (q ∷ qs) p a m h =
    let less = unread-grows qs a (p ∷ a) (λ r c. ground (arith, c)) in
    elim (Bool-cases (path_eq p q)) [
      | inl e ↦
          let same = (path_eq_iff p q).0 e in
          rw (← same) (ground (arith, less, contains-head p a, h))
      | inr e ↦
          ground
            (arith, unread-mark qs p a (ground (arith, m, e)) h, path_eq_iff p q, path_eq_iff q p)
    ]
