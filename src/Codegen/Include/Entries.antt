-- ===== src/Codegen/Include/Entries.antt =====
-- The loop of codegen/src/lib.rs over the entries of a file: what it has collected at its end.
use qapi_rs.Prelude.{ℕ, zero, suc, ◌≡◌, Option, none, some, List, [], ◌∷◌, Outcome, ok, err, panic}
use qapi_rs.Spec.{IoError}
use qapi_rs.Schema.Types.{Spec}
use qapi_rs.Parser.{Parser, Reader, next}
use qapi_rs.Codegen.Context.{Context, Output, continue_with, each}
use qapi_rs.Codegen.Process.{process}
use qapi_rs.Codegen.Process.Collected.{Collects, each-Collects}
use qapi_rs.Codegen.Include.{on_item, after_item, process_items}

-- The entries of a text, up to the first that cannot be read.
module _ {E : Type 0} (r : Reader Spec E) where
  abbrev spec_step : (Parser → List Spec) → Parser × Option (Outcome E Spec) → List Spec
  spec_step k (p, none) = []
  spec_step k (p, some (ok item)) = item ∷ k p
  spec_step k (p, some (err e)) = []
  spec_step k (p, some panic) = []

  pub specs : ℕ → Parser → List Spec
  specs zero p = []
  specs (suc n) p = spec_step (specs n) (next r p)

module _ {W E : Type 0} (x : Output W) (r : Reader Spec E) (io_error : E → IoError) where
  after_item-each :
      (k : Context W → Option (Context W × Outcome IoError (Unit {0}))) (s : List Spec)
      (d : Context W)
      → ((c : Context W) → k c ≡ some (d, ok tt) → each (process x) s c ≡ (d, ok tt))
      → (t : Context W × Outcome IoError (Unit {0})) → after_item x r io_error k t ≡ some (d, ok tt)
      → continue_with (λ done. each (process x) s) t ≡ (d, ok tt)
  after_item-each k s d h (c, ok u) e = h c e
  after_item-each k s d h (c, err f) e = cc
  after_item-each k s d h (c, panic) e = cc

  on_item-each :
      (k : Parser → Context W → Option (Context W × Outcome IoError (Unit {0})))
      (s : Parser → List Spec) (d : Context W)
      → ((p : Parser) (c : Context W)
          → k p c ≡ some (d, ok tt)
          → each (process x) (s p) c ≡ (d, ok tt))
      → (t : Parser × Option (Outcome E Spec)) (c : Context W)
      → on_item x r io_error k t c ≡ some (d, ok tt)
      → each (process x) (spec_step r s t) c ≡ (d, ok tt)
  unfolding each
  on_item-each k s d h (p, none) c e = cc
  on_item-each k s d h (p, some (ok item)) c e =
      after_item-each (k p) (s p) d (h p) (process x item c) e
  on_item-each k s d h (p, some (err f)) c e = cc
  on_item-each k s d h (p, some panic) c e = cc

  process_items-each :
      (n : ℕ) (p : Parser) (c d : Context W)
      → process_items x r io_error n p c ≡ some (d, ok tt)
      → each (process x) (specs r n p) c ≡ (d, ok tt)
  unfolding process_items specs
  process_items-each zero p c d e = cc
  process_items-each (suc n) p c d e =
      on_item-each (process_items x r io_error n) (specs r n) d
        (λ q b f. process_items-each n q b d f) (next r p) c e

  -- The entries of a file, once the loop over them has succeeded, however their text is written: a
  -- name stands in the maps of structs, enums and unions for the last entry of that kind and
  -- name, and for what it stood for before if there is none; the events, and the names that are
  -- to be included, are those of the entries, in their order, behind what was there.
  pub process_items-Collects :
      (n : ℕ) (p : Parser) (c d : Context W)
      → process_items x r io_error n p c ≡ some (d, ok tt)
      → Collects (specs r n p) c d
  process_items-Collects n p c d e =
      each-Collects x (specs r n p) c d (process_items-each n p c d e)
