-- ===== src/Codegen/Include/Items.antt =====
-- The loop of codegen/src/lib.rs over the entries of a file: the includes that it collects.
use mathlib.Core.List.{append_assoc, append-nil}
use qapi_rs.Prelude.{
  ℕ, zero, suc, ◌≡◌, ◌≢◌, refl, sym, ◌∙◌, ap, subst, String, Bool, true, false, Option, none, some,
  List, [], ◌++◌, Outcome, ok, err, panic,
}
use qapi_rs.Spec.{IoError}
use qapi_rs.Schema.Types.{Spec}
use qapi_rs.Parser.{Parser, Reader, next}
use qapi_rs.Codegen.Context.{Context, Output}
use qapi_rs.Codegen.Process.{process}
use qapi_rs.Codegen.Frame.Untouched.{due, process-due}
use qapi_rs.Codegen.Include.{on_item, after_item, process_items}

module _ {E : Type 0} (r : Reader Spec E) where
  -- The names that the entries of a text include, up to the first that cannot be read.
  abbrev name_step : (Parser → List String) → Parser × Option (Outcome E Spec) → List String
  name_step k (p, none) = []
  name_step k (p, some (ok item)) = due item ++ k p
  name_step k (p, some (err e)) = []
  name_step k (p, some panic) = []

  pub names : ℕ → Parser → List String
  names zero p = []
  names (suc n) p = name_step (names n) (next r p)

  -- The entries of a text come to an end, or to an error, within the number of calls.
  abbrev ends_step : (Parser → Bool) → Parser × Option (Outcome E Spec) → Bool
  ends_step k (p, none) = true
  ends_step k (p, some (ok item)) = k p
  ends_step k (p, some (err e)) = true
  ends_step k (p, some panic) = true

  unfoldable pub ends : ℕ → Parser → Bool
  ends zero p = false
  ends (suc n) p = ends_step (ends n) (next r p)

module _ {W E : Type 0} (x : Output W) (r : Reader Spec E) (io_error : E → IoError) where
  after_item-ok :
      (k : Context W → Option (Context W × Outcome IoError (Unit {0})))
      (t : Context W × Outcome IoError (Unit {0})) (c : Context W)
      → after_item x r io_error k t ≡ some (c, ok tt)
      → k t.0 ≡ some (c, ok tt)
  after_item-ok k (d, ok u) c e = e
  after_item-ok k (d, err f) c e = cc
  after_item-ok k (d, panic) c e = cc

  on_item-due :
      (k : Parser → Context W → Option (Context W × Outcome IoError (Unit {0})))
      (is : Parser → List String) (c' : Context W)
      → ((p : Parser) (c : Context W)
          → k p c ≡ some (c', ok tt)
          → (c'.includes ≡ c.includes ++ is p) × (c'.included ≡ c.included))
      → (t : Parser × Option (Outcome E Spec)) (c : Context W)
      → on_item x r io_error k t c ≡ some (c', ok tt)
      → (c'.includes ≡ c.includes ++ name_step r is t) × (c'.included ≡ c.included)
  on_item-due k is c' h (p, none) c e =
      let s : c ≡ c' = cc in
      subst (λ (d : Context W). (d.includes ≡ c.includes ++ []) × (d.included ≡ c.included)) s
        (sym (append-nil c.includes), refl)
  on_item-due k is c' h (p, some (ok item)) c e =
      let (more, same) = h p (process x item c).0 (after_item-ok (k p) (process x item c) c' e) in
      let (due_, kept) = process-due x item c in
      (
        more ∙ ap (λ (l : List String). l ++ is p) due_ ∙ append_assoc c.includes (due item) (is p),
        same ∙ kept,
      )
  on_item-due k is c' h (p, some (err f)) c e = cc
  on_item-due k is c' h (p, some panic) c e = cc

  -- A run over the entries that succeeds has collected their includes, and no file is read by it.
  pub process_items-due :
      (n : ℕ) (p : Parser) (c c' : Context W)
      → process_items x r io_error n p c ≡ some (c', ok tt)
      → (c'.includes ≡ c.includes ++ names r n p) × (c'.included ≡ c.included)
  unfolding process_items names
  process_items-due zero p c c' e = cc
  process_items-due (suc n) p c c' e =
      on_item-due (process_items x r io_error n) (names r n) c'
        (λ q d f. process_items-due n q d c' f) (next r p) c e

  after_item-total :
      (k : Context W → Option (Context W × Outcome IoError (Unit {0})))
      → ((c : Context W) → k c ≢ none)
      → (t : Context W × Outcome IoError (Unit {0})) → after_item x r io_error k t ≢ none
  after_item-total k h (d, ok u) e = h d e
  after_item-total k h (d, err f) e = cc
  after_item-total k h (d, panic) e = cc

  on_item-total :
      (k : Parser → Context W → Option (Context W × Outcome IoError (Unit {0})))
      (is : Parser → Bool)
      → ((p : Parser) → is p ≡ true → (c : Context W) → k p c ≢ none)
      → (t : Parser × Option (Outcome E Spec)) (c : Context W) → ends_step r is t ≡ true
      → on_item x r io_error k t c ≢ none
  on_item-total k is h (p, none) c e f = cc
  on_item-total k is h (p, some (ok item)) c e f =
      after_item-total (k p) (h p e) (process x item c) f
  on_item-total k is h (p, some (err g)) c e f = cc
  on_item-total k is h (p, some panic) c e f = cc

  pub process_items-total :
      (n : ℕ) (p : Parser)
      → ends r n p ≡ true
      → (c : Context W) → process_items x r io_error n p c ≢ none
  unfolding process_items ends
  process_items-total zero p h c = cc
  process_items-total (suc n) p h c =
      on_item-total (process_items x r io_error n) (ends r n) (process_items-total n) (next r p) c h
