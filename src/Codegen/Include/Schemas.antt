-- ===== src/Codegen/Include/Schemas.antt =====
-- `include` of codegen/src/lib.rs over a whole schema: which files it reads, and that it ends.
use qapi_rs.Prelude.{
  ℕ, zero, suc, ◌<◌, ◌≡◌, ◌≢◌, refl, sym, ◌∙◌, ap, subst, String, true, false, none, some, List, [],
  ◌∷◌, ◌++◌, inl, inr, Outcome, ok, err, panic, arith, Bool-cases, if_true, if_false,
}
use qapi_rs.Spec.{IoError}
use qapi_rs.Schema.Types.{Spec}
use qapi_rs.Parser.{Reader}
use qapi_rs.Parser.Repo.{FilePath, QemuFileRepo, context, push_context}
use qapi_rs.Parser.Repo as Repo
use qapi_rs.Codegen.Paths.{path_of, contains}
use qapi_rs.Codegen.Context.{Output}
use qapi_rs.Codegen.Include.{Visit, Run, rounds, entries, mark, on_file, visit_at, include, drained}
use qapi_rs.Codegen.Include.Visited.{unread, unread-mark}
use qapi_rs.Codegen.Include.Items.{names, ends, process_items-due, process_items-total}
use qapi_rs.Codegen.Include.Covers.{in_directory, Covers}
use qapi_rs.Codegen.Include.Rounds.{
  and_then-ok, and_then-total, Rests, some-ok_injective, rounds-Covers, rounds-total,
}
use qapi_rs.Codegen.Include.Entered.{include-Entered}
use qapi_rs.Codegen.Include.Reached.{
  in_repo-ok, in_repo-total, closed-ok, closed-total, Covers-read, Covers-file,
}

module _ {W E : Type 0} (x : Output W) (read_file : FilePath → Outcome IoError String)
    (r : Reader Spec E) (io_error : E → IoError) (items : ℕ) where
  on_file-Covers :
      (visit : String → Visit W → Run W)
      → ((d : FilePath) (i : String) (s t : Visit W)
          → Rests d s
          → visit i s ≡ some (t, ok tt)
          → Covers read_file r items d (i ∷ []) s t)
      → (d : FilePath) (path : String) (s t : Visit W) (o : QemuFileRepo × Outcome IoError String)
      → Rests d s
      → Repo.include read_file (path_of path) s.repo ≡ o
      → on_file x read_file r io_error items visit o (mark (in_directory d path) s.context)
        ≡ some (t, ok tt)
      → Covers read_file r items d (path ∷ []) s t
  unfolding context push_context
  on_file-Covers visit h d path s t (repo, err f) q o e = cc
  on_file-Covers visit h d path s t (repo, panic) q o e = cc
  on_file-Covers visit h d path s t (repo, ok text) q o e =
      let opened = include-Entered read_file d (path_of path) s.repo repo text q.stands o in
      let (m, body, same, back) = closed-ok _ t e in
      let (n, loop, due_rounds) = and_then-ok (rounds visit 2) _ m body in
      let (run, at) = in_repo-ok repo _ n loop in
      let (due, kept) =
        process_items-due x r io_error items (entries text) (mark (in_directory d path) s.context)
          n.context run in
      let stands : context n.repo ≡ some opened.inside = ap context (at ∙ opened.pushed_to) in
      let inner =
        rounds-Covers read_file r items visit opened.inside (h opened.inside) n m stands
          due_rounds in
      Covers-file read_file r items d path s m t (record {
        inside = opened.inside;
        text = text;
        before = drained n;
        read = opened.read;
        parent_of = opened.parent_of;
        marked = kept;
        within =
            subst (λ (l : List String). Covers read_file r items opened.inside l (drained n) m)
              (due ∙ ap (λ (l : List String). l ++ names r items (entries text)) q.none_due) inner;
        same = same;
        restored = back opened.inside s.repo (inner.restored ∙ at ∙ opened.pushed_to);
      })

  -- One name, to any depth.
  pub include-Covers :
      (depth : ℕ) (d : FilePath) (path : String) (s t : Visit W)
      → Rests d s
      → include x read_file r io_error items depth path s ≡ some (t, ok tt)
      → Covers read_file r items d (path ∷ []) s t
  unfolding include visit_at
  include-Covers zero d path s t q e = cc
  include-Covers (suc depth) d path s t q e =
      let at = rw q.stands at e in
      elim (Bool-cases (contains (in_directory d path) s.context.included)) [
        | inl known ↦
            Covers-read read_file r items d path s t q.none_due known
              (some-ok_injective s t (sym (if_true _ _ known) ∙ at))
        | inr fresh ↦
            on_file-Covers (include x read_file r io_error items depth)
              (λ d' i s' t'. include-Covers depth d' i s' t') d path s t _ q refl
              (sym (if_false _ _ fresh) ∙ at)
      ]

  module _ (files : List FilePath)
      (readable : (p : FilePath) (text : String) → read_file p ≡ ok text → contains p files ≡ true)
      (finite : (p : FilePath) (text : String)
        → read_file p ≡ ok text
        → ends r items (entries text) ≡ true) where
    on_file-total :
        (depth : ℕ)
        → ((d : FilePath) (i : String) (s : Visit W)
            → Rests d s
            → unread files s.context.included < depth
            → include x read_file r io_error items depth i s ≢ none)
        → (d : FilePath) (path : String) (s : Visit W) (o : QemuFileRepo × Outcome IoError String)
        → Rests d s
        → unread files s.context.included < suc depth
        → contains (in_directory d path) s.context.included ≡ false
        → Repo.include read_file (path_of path) s.repo ≡ o
        → on_file x read_file r io_error items
            (include x read_file r io_error items depth)
            o
            (mark (in_directory d path) s.context)
          ≢ none
    unfolding context push_context
    on_file-total depth h d path s (repo, err f) q l fresh o = λ e. cc
    on_file-total depth h d path s (repo, panic) q l fresh o = λ e. cc
    on_file-total depth h d path s (repo, ok text) q l fresh o =
        let opened = include-Entered read_file d (path_of path) s.repo repo text q.stands o in
        let p = in_directory d path in
        let less = unread-mark files p s.context.included (readable p text opened.read) fresh in
        closed-total _ (
          and_then-total _ _
            (in_repo-total repo _ (
              process_items-total x r io_error items (entries text) (finite p text opened.read)
                (mark p s.context)))
            (λ n loop.
              let (run, at) = in_repo-ok repo _ n loop in
              let (due, kept) =
                process_items-due x r io_error items (entries text) (mark p s.context) n.context
                  run in
              rounds-total read_file r items (include x read_file r io_error items depth)
                opened.inside (λ i s' t'. include-Covers depth opened.inside i s' t') files depth
                (h opened.inside) n (ap context (at ∙ opened.pushed_to))
                (rw kept (omega (arith, less)))))

    pub include-total :
        (depth : ℕ) (d : FilePath) (path : String) (s : Visit W)
        → Rests d s
        → unread files s.context.included < depth
        → include x read_file r io_error items depth path s ≢ none
    unfolding include visit_at
    include-total zero d path s q l = omega arith
    include-total (suc depth) d path s q l =
        elim (Bool-cases (contains (in_directory d path) s.context.included)) [
          | inl known ↦ rw (q.stands, known) (λ e. cc)
          | inr fresh ↦
              rw (q.stands, fresh)
                (on_file-total depth (λ d' i s' q' l'. include-total depth d' i s' q' l') d path s _
                  q l fresh refl)
        ]
