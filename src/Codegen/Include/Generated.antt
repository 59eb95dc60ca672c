-- ===== src/Codegen/Include/Generated.antt =====
-- `codegen` of codegen/src/lib.rs from end to end: the files that it gives back, and that it ends.
use mathlib.Core.List.{Memᴰ}
use mathlib.Core.List.Memᴰ
use qapi_rs.Prelude.{
  ℕ, ◌≤◌, ◌<◌, ◌≡◌, ◌≢◌, refl, ap, ◌∙◌, subst, String, true, Option, none, some, List, [], ◌∷◌, inl,
  inr, ◌↔◌, Outcome, ok, err, panic, arith, length, some_injective,
}
use qapi_rs.Spec.{IoError}
use qapi_rs.Schema.Types.{Spec}
use qapi_rs.Parser.{Reader}
use qapi_rs.Parser.Repo.{FilePath, context}
use qapi_rs.Parser.Repo as Repo
use qapi_rs.Codegen.Paths.{contains}
use qapi_rs.Codegen.Context.{Context, Gen, new, continue_with, ◌>>=◌, gets, Output}
use qapi_rs.Codegen.Frame.{Keeps, files}
use qapi_rs.Codegen.Frame.Kept.{process_unions-Keeps, process_structs-Keeps, process_events-Keeps}
use qapi_rs.Codegen.Include.{Visit, Run, entries, with_context, generate, finished, codegen}
use qapi_rs.Codegen.Include.Visited.{unread}
use qapi_rs.Codegen.Include.Items.{ends}
use qapi_rs.Codegen.Include.Covers.{in_directory, Reaches, here, beyond, Covers}
use qapi_rs.Codegen.Include.Rounds.{Rests}
use qapi_rs.Codegen.Include.Schemas.{include-Covers, include-total}

unread-le_length : (files included : List FilePath) → unread files included ≤ length files
unfolding unread
unread-le_length [] included = omega arith
unread-le_length (p ∷ ps) included = ground (arith, unread-le_length ps included)

-- A step whose value is the list of the files that had been read before it.
abbrev Gives : {W : Type 0} → Gen W (List FilePath) → Type 0
Gives {W} g =
    (c c' : Context W) (included : List FilePath) → g c ≡ (c', ok included) → included ≡ c.included

module _ {W : Type 0} where
  continue_with-Gives :
      {A : Type 0} (k : A → Gen W (List FilePath))
      → ((a : A) → Gives (k a))
      → (c : Context W) (t : Context W × Outcome IoError A) → files t.0 ≡ files c
      → (c' : Context W) (included : List FilePath) → continue_with k t ≡ (c', ok included)
      → included ≡ c.included
  continue_with-Gives k h c (d, ok a) s c' included e = h a d c' included e ∙ ap (λ p. p.1) s
  continue_with-Gives k h c (d, err f) s c' included e = cc
  continue_with-Gives k h c (d, panic) s c' included e = cc

  >>=-Gives :
      {A : Type 0} (m : Gen W A) (k : A → Gen W (List FilePath))
      → Keeps files m
      → ((a : A) → Gives (k a))
      → Gives (m >>= k)
  >>=-Gives m k a b c c' included e = continue_with-Gives k b c (m c) (a.keeps c) c' included e

  gets-Gives : Gives {W = W} (gets (λ c. c.included))
  gets-Gives c c' included e = cc

  generate-Gives : (x : Output W) → Gives (generate x)
  unfolding generate
  generate-Gives x = >>=-Gives _ _ (process_unions-Keeps x) (λ a.
      >>=-Gives _ _ (process_structs-Keeps x)
        (λ b. >>=-Gives _ _ (process_events-Keeps x) (λ d. gets-Gives)))

  finished-ok :
      (x : Output W) (run : Run W) (c : Context W) (included : List FilePath)
      → finished x run ≡ some (c, ok included)
      → (t : Visit W) × (run ≡ some (t, ok tt)) × (included ≡ t.context.included)
  finished-ok x none c included e = cc
  finished-ok x (some (s, ok d)) c included e =
      (s, refl, generate-Gives x s.context c included (some_injective e))
  finished-ok x (some (s, err f)) c included e = cc
  finished-ok x (some (s, panic)) c included e = cc

  finished-total : (x : Output W) (run : Run W) → run ≢ none → finished x run ≢ none
  finished-total x none h e = h refl
  finished-total x (some (s, ok d)) h e = cc
  finished-total x (some (s, err f)) h e = cc
  finished-total x (some (s, panic)) h e = cc

with_context-ok :
    {W : Type 0} (t : Option (Context W × Outcome IoError (List FilePath))) (c : Option (Context W))
    (included : List FilePath)
    → with_context t ≡ some (c, ok included)
    → (d : Context W) × (t ≡ some (d, ok included))
with_context-ok none c included e = cc
with_context-ok (some (d, result)) c included e = (d, cc)

with_context-total :
    {W : Type 0} (t : Option (Context W × Outcome IoError (List FilePath)))
    → t ≢ none
    → with_context t ≢ none
with_context-total none h e = h refl
with_context-total (some (d, result)) h e = cc

module _ {W E : Type 0} (x : Output W) (read_file : FilePath → Outcome IoError String)
    (r : Reader Spec E) (io_error : E → IoError) (items depth : ℕ) (schema_path : FilePath)
    (command_trait : String) where
  abbrev start : W → Visit W
  start out = record { context = new out command_trait; repo = Repo.new schema_path }

  start-Rests : (out : W) → Rests schema_path (start out)
  unfolding context new
  start-Rests out = record { none_due = refl; stands = refl }

  -- A run of `codegen` that succeeds has covered the first file from nothing.
  codegen-Covers :
      (out : W) (c : Option (Context W)) (included : List FilePath)
      → codegen x read_file r io_error items depth schema_path (ok out) command_trait
        ≡ some (c, ok included)
      → (t : Visit W) × Covers read_file r items schema_path ("qapi-schema.json" ∷ []) (start out) t
        × (included ≡ t.context.included)
  unfolding codegen
  codegen-Covers out c included e =
      let (d, f) = with_context-ok _ c included e in
      let (t, run, same) = finished-ok x _ d included f in
      (
        t,
        include-Covers x read_file r io_error items depth schema_path "qapi-schema.json" (start out)
            t (start-Rests out) run,
        same,
      )

  -- Whatever the files hold: when `codegen` succeeds, the files that it gives back are those that the
  -- schema's first file reaches by includes, each named from the directory of the file that
  -- includes it, and no others.
  pub codegen_reads_reachable :
      (out : W) (c : Option (Context W)) (included : List FilePath)
      → codegen x read_file r io_error items depth schema_path (ok out) command_trait
        ≡ some (c, ok included)
      → (p : FilePath)
      → (contains p included ≡ true)
        ↔ Reaches read_file r items (in_directory schema_path "qapi-schema.json") p
  unfolding new
  codegen_reads_reachable out c included e p =
      let (t, covers, same) = codegen-Covers out c included e in
      (λ m. reached t covers p (rw same at m), λ m. rw same (complete t covers p m))
    where
      first : FilePath
      first = in_directory schema_path "qapi-schema.json"

      reached :
          (t : Visit W)
          → Covers read_file r items schema_path ("qapi-schema.json" ∷ []) (start out) t
          → (q : FilePath) → contains q t.context.included ≡ true
          → Reaches read_file r items first q
      reached t covers q m = elim (covers.reached q m) [
        | inl none_before ↦ cc
        | inr (i, mi, on) ↦
            subst (λ (j : String). Reaches read_file r items (in_directory schema_path j) q)
              (Memᴰ.eq_of_singleton mi) on
      ]

      complete :
          (t : Visit W)
          → Covers read_file r items schema_path ("qapi-schema.json" ∷ []) (start out) t
          → (q : FilePath) → Reaches read_file r items first q
          → contains q t.context.included ≡ true
      complete t covers q here = covers.reads "qapi-schema.json" (Memᴰ.head refl)
      complete t covers q (beyond {q = u} on i) = elim (covers.closed u (complete t covers u on)) [
        | inl none_before ↦ cc
        | inr all ↦ all q i
      ]

  -- If the readable files are among those of a list, shorter than the depth, and the entries of each
  -- come to an end or an error within `items` calls of the parser, then `codegen` comes to an end,
  -- in a result, an error or a panic: files that include each other do not make it loop.
  pub codegen_returns :
      (files : List FilePath)
      → ((p : FilePath) (text : String) → read_file p ≡ ok text → contains p files ≡ true)
      → ((p : FilePath) (text : String)
          → read_file p ≡ ok text
          → ends r items (entries text) ≡ true)
      → length files < depth
      → (created : Outcome IoError W)
      → codegen x read_file r io_error items depth schema_path created command_trait ≢ none
  unfolding codegen new
  codegen_returns files readable finite l (err f) = λ e. cc
  codegen_returns files readable finite l panic = λ e. cc
  codegen_returns files readable finite l (ok out) = with_context-total _ (
      finished-total x _ (
        include-total x read_file r io_error items files readable finite depth schema_path
          "qapi-schema.json" (start out) (start-Rests out)
          (omega (arith, l, unread-le_length files []))))
