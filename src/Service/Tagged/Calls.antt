-- ===== src/Service/Tagged/Calls.antt =====
-- The phases of one call of `execute` in qapi/src/futures/mod.rs, with ids.
use qapi_rs.Prelude.{
  ℕ, ◌+◌, ◌%◌, ◌^◌, ◌≤◌, ◌<◌, ◌≡◌, ◌≢◌, refl, ap, sym, subst, ◌∙◌, inl, inr, true, false, Option,
  none, some, [], ◌∷◌, ok, arith, if◌then◌else◌, ◌==◌, if_intro, some_injective,
}
use qapi_rs.Futures.World.{World, CommandMap, lookup, insert}
use qapi_rs.Futures.Shared.{command_insert}
use qapi_rs.Service.{
  Phase, over, waiting, sending, awaiting, System, id_or_default, update, execute, locked, sent,
  finish, set_phase, unless_held, begin, tag, next_oob_id, entered,
}
use qapi_rs.Service.Tagged.Invariant.{
  id_of, waits_with, HasId, id_of-waits_with, update-cases, Tagged,
}

lookup-insert :
    (k n ch : ℕ) (m : CommandMap)
    → lookup k (insert n ch m) ≡ (if n == k then some ch else lookup k m)
unfolding lookup insert
lookup-insert k n ch [] = refl
lookup-insert k n ch ((j, c) ∷ m) = ground (arith, lookup-insert k n ch m)

module _ {Any : Type 0} where
  pub execute-tagged :
      (t : ℕ) (s : System Any)
      → s.world.shared.supports_oob ≡ true
      → s.id_counter < 2 ^ 32
      → execute t s ≡ record s {
        id_counter = s.id_counter + 1;
        tasks = update s.tasks t (waiting (some s.id_counter));
      }
  unfolding execute
  execute-tagged t s e h =
      let small : s.id_counter % 2 ^ 32 ≡ s.id_counter = omega arith in
      let big : (s.id_counter + 1) % 2 ^ 64 ≡ s.id_counter + 1 = omega arith in
      ap (λ b. begin t (if b then tag (next_oob_id s) else (none, s))) e
      ∙ ap
          (λ (n : ℕ). record s {
            id_counter = (s.id_counter + 1) % 2 ^ 64;
            tasks = update s.tasks t (waiting (some n));
          })
          small
      ∙ ap
          (λ (c : ℕ). record s {
            id_counter = c;
            tasks = update s.tasks t (waiting (some s.id_counter));
          })
          big

  pub call-Tagged :
      (t : ℕ) (s : System Any) → s.id_counter < 2 ^ 32 → Tagged s → Tagged (execute t s)
  call-Tagged t s h v =
      let c = s.id_counter in
      let p : Phase = waiting (some c) in
      rw (execute-tagged t s v.mode h) (record {
        mode = v.mode;
        safe = v.safe;
        has_id = λ u. if_intro HasId (t == u) (λ q. cc) (v.has_id u);
        below = λ u n e. elim (update-cases (λ q. id_of q ≡ some n) s.tasks t p u e) [
          | inl (_, q) ↦ let q' = some_injective q in omega arith
          | inr (_, q) ↦ omega (arith, v.below u n q)
        ];
        distinct = λ u w n e f. elim (update-cases (λ q. id_of q ≡ some n) s.tasks t p u e) [
          | inl (tu, q) ↦ elim (update-cases (λ q. id_of q ≡ some n) s.tasks t p w f) [
            | inl (tw, r) ↦ sym tu ∙ tw
            | inr (_, r) ↦ let q' = some_injective q in absurd (omega (arith, v.below w n r))
          ]
          | inr (_, q) ↦ elim (update-cases (λ q. id_of q ≡ some n) s.tasks t p w f) [
            | inl (_, r) ↦ let r' = some_injective r in absurd (omega (arith, v.below u n q))
            | inr (_, r) ↦ v.distinct u w n q r
          ]
        ];
        above = λ k g. v.above k (omega arith);
        clear = λ u n e. elim (update-cases (λ q. waits_with q ≡ some n) s.tasks t p u e) [
          | inl (_, q) ↦ let q' = some_injective q in v.above n (omega arith)
          | inr (_, q) ↦ v.clear u n q
        ];
      })

  -- A call that goes on, or ends, takes no id that it had not.
  record Moves (t : ℕ) (p : Phase) (s : System Any) : Type 0 where
    has_id : HasId p
    same : (n : ℕ) → id_of p ≡ some n → id_of (s.tasks t) ≡ some n
    not_waiting : (n : ℕ) → waits_with p ≡ some n → ⊥

  move-Tagged :
      (t : ℕ) (p : Phase) (w : World Any) (writer : Option ℕ) (s : System Any)
      → Moves t p s
      → w.shared.supports_oob ≡ true
      → w.shared.commands.poisoned ≡ false
      → ((k : ℕ) → s.id_counter ≤ k → lookup k w.shared.commands.pending ≡ none)
      → ((u n : ℕ)
          → t ≢ u
          → waits_with (s.tasks u) ≡ some n
          → lookup n w.shared.commands.pending ≡ none)
      → Tagged s
      → Tagged (set_phase t p (record s { world = w; writer = writer }))
  move-Tagged t p w writer s m mode safe above clear v = record {
    mode = mode;
    safe = safe;
    has_id = λ u. if_intro HasId (t == u) m.has_id (v.has_id u);
    below = λ u n e. v.below u n (carried u n e);
    distinct = λ u x n e f. v.distinct u x n (carried u n e) (carried x n f);
    above = above;
    clear = λ u n e. elim (update-cases (λ q. waits_with q ≡ some n) s.tasks t p u e) [
      | inl (_, q) ↦ absurd (m.not_waiting n q)
      | inr (ne, q) ↦ clear u n ne q
    ];
  }
    where
      carried : (u n : ℕ) → id_of (update s.tasks t p u) ≡ some n → id_of (s.tasks u) ≡ some n
      carried u n e = elim (update-cases (λ q. id_of q ≡ some n) s.tasks t p u e) [
        | inl (tu, q) ↦ subst (λ x. id_of (s.tasks x) ≡ some n) tu (m.same n q)
        | inr (_, q) ↦ q
      ]

  pub write-Tagged :
      (t ch : ℕ) (id : Option ℕ) (s : System Any)
      → s.tasks t ≡ sending id ch
      → Tagged s
      → Tagged (sent t id ch s)
  unfolding sent
  write-Tagged t ch none s e v =
      move-Tagged t (awaiting none ch) s.world s.writer s
        (record { has_id = tt; same = λ n q. cc; not_waiting = λ n q. cc }) v.mode v.safe v.above
        (λ u n ne q. v.clear u n q) v
  write-Tagged t ch (some i) s e v =
      move-Tagged t (awaiting (some i) ch) s.world none s
        (record { has_id = tt; same = λ n q. ap id_of e ∙ q; not_waiting = λ n q. cc }) v.mode
        v.safe v.above (λ u n ne q. v.clear u n q) v

  pub finish-Tagged : (t : ℕ) (s : System Any) → Tagged s → Tagged (finish t s)
  unfolding finish
  finish-Tagged t s v =
      move-Tagged t over s.world (unless_held t s.writer) s
        (record { has_id = tt; same = λ n q. cc; not_waiting = λ n q. cc }) v.mode v.safe v.above
        (λ u n ne q. v.clear u n q) v

  -- An insertion under an id that is not in the table succeeds and adds that id at most.
  record Inserted (n : ℕ) (w : World Any) : Type 0 where
    after : World Any
    inserts : command_insert n w ≡ (after, ok w.next_channel)
    mode : after.shared.supports_oob ≡ w.shared.supports_oob
    safe : after.shared.commands.poisoned ≡ false
    others :
        (k : ℕ)
        → n ≢ k
        → lookup k w.shared.commands.pending ≡ none
        → lookup k after.shared.commands.pending ≡ none

  insert-free :
      (n : ℕ) (w : World Any)
      → w.shared.commands.poisoned ≡ false
      → lookup n w.shared.commands.pending ≡ none
      → Inserted n w
  unfolding command_insert
  insert-free n w p e = record {
    after = (command_insert n w).0;
    inserts = ground arith;
    mode = ground arith;
    safe = ground arith;
    others = λ k ne h. ground (arith, lookup-insert k n w.next_channel w.shared.commands.pending);
  }

  locked-inserts :
      (t n : ℕ) (s : System Any) (i : Inserted n s.world)
      → locked t (some n) s
        ≡ set_phase t
            (sending (some n) s.world.next_channel)
            (record s { world = i.after; writer = some t })
  unfolding locked
  locked-inserts t n s i = ap (λ r. entered t (some n) r s) i.inserts

  pub lock-Tagged :
      (t : ℕ) (id : Option ℕ) (s : System Any)
      → s.tasks t ≡ waiting id
      → Tagged s
      → Tagged (locked t id s)
  lock-Tagged t none s e v = absurd (subst HasId e (v.has_id t) refl)
  lock-Tagged t (some n) s e v =
      let i = insert-free n s.world v.safe (v.clear t n (ap waits_with e)) in
      rw (locked-inserts t n s i) (
        move-Tagged t (sending (some n) s.world.next_channel) i.after (some t) s
          (record { has_id = tt; same = λ k q. ap id_of e ∙ q; not_waiting = λ k q. cc })
          (i.mode ∙ v.mode) i.safe
          (λ k g. i.others k (λ q. absurd (omega (arith, v.below t n (ap id_of e)))) (v.above k g))
          (λ u k ne q.
            i.others k
              (λ r. ne (
                v.distinct t u n (ap id_of e) (id_of-waits_with (s.tasks u) k q ∙ ap some (sym r))))
              (v.clear u k q))
          v)

  pub id_free :
      (s : System Any)
      → Tagged s
      → (t : ℕ) (id : Option ℕ) → s.tasks t ≡ waiting id
      → lookup (id_or_default id) s.world.shared.commands.pending ≡ none
  id_free s v t none e = absurd (subst HasId e (v.has_id t) refl)
  id_free s v t (some n) e = v.clear t n (ap waits_with e)

  pub insert-succeeds :
      (s : System Any)
      → Tagged s
      → (t : ℕ) (id : Option ℕ) → s.tasks t ≡ waiting id
      → (command_insert (id_or_default id) s.world).1 ≡ ok s.world.next_channel
  insert-succeeds s v t none e = absurd (subst HasId e (v.has_id t) refl)
  insert-succeeds s v t (some n) e =
      ap (λ r. r.1) (insert-free n s.world v.safe (v.clear t n (ap waits_with e))).inserts
