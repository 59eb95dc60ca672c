-- ===== src/Service/Serial/Calls.antt =====
-- The phases of one call of `execute` in qapi/src/futures/mod.rs, without ids.
use qapi_rs.Prelude.{
  ℕ, ◌≡◌, refl, ap, sym, subst, ◌∙◌, ◌⊎◌, inl, inr, false, Option, none, some, [], ◌∷◌, ok, arith,
  if◌then◌else◌, some_injective,
}
use qapi_rs.Futures.World.{World, lookup, insert}
use qapi_rs.Futures.Shared.{command_insert}
use qapi_rs.Futures.Ownership.{held}
use qapi_rs.Service.{
  Phase, unborn, over, waiting, sending, awaiting, System, id_or_default, update, execute, locked,
  sent, finish, unless_held, begin, tag, next_oob_id, entered,
}
use qapi_rs.Service.Serial.Invariant.{
  HasNoId, IsBusy, channel, Single, Serial, HasNoId-update, busy-update, channel-update,
  channel-update_self,
}

module _ {Any : Type 0} where
  execute-serial :
      (t : ℕ) (s : System Any)
      → s.world.shared.supports_oob ≡ false
      → execute t s ≡ record s { tasks = update s.tasks t (waiting none) }
  unfolding execute
  execute-serial t s e = ap (λ b. begin t (if b then tag (next_oob_id s) else (none, s))) e

  Single-keep :
      {w : World Any} {counter : ℕ} {writer : Option ℕ} (t : ℕ) (p : Phase) (f : ℕ → Phase)
      → channel p ≡ channel (f t)
      → (w.shared.commands.pending ≡ [])
        ⊎ Single (record { world = w; id_counter = counter; writer = writer; tasks = f })
      → (w.shared.commands.pending ≡ [])
        ⊎ Single (record { world = w; id_counter = counter; writer = writer; tasks = update f t p })
  Single-keep t p f h (inl empty) = inl empty
  Single-keep t p f h (inr d) = inr (record {
    owner = d.owner;
    ch = d.ch;
    held_by = d.held_by;
    entry = d.entry;
    receiver = channel-update f t p h d.owner ∙ d.receiver;
  })

  pub call-Serial : (t : ℕ) (s : System Any) → s.tasks t ≡ unborn → Serial s → Serial (execute t s)
  call-Serial t s e v = rw (execute-serial t s v.mode) (record {
    mode = v.mode;
    safe = v.safe;
    no_ids = HasNoId-update s.tasks t (waiting none) refl v.no_ids;
    holds = busy-update s.tasks t (waiting none) s.writer (λ b. elim b [ ]) (λ u h b. v.holds u b);
    table = Single-keep t (waiting none) s.tasks (sym (ap channel e)) v.table;
  })

  write-none :
      (t ch : ℕ) (s : System Any)
      → s.tasks t ≡ sending none ch
      → Serial s
      → Serial (sent t none ch s)
  unfolding sent
  write-none t ch s e v = record {
    mode = v.mode;
    safe = v.safe;
    no_ids = HasNoId-update s.tasks t (awaiting none ch) refl v.no_ids;
    holds =
        busy-update s.tasks t (awaiting none ch) s.writer (λ _. v.holds t (subst IsBusy (sym e) tt))
          (λ u h b. v.holds u b);
    table = Single-keep t (awaiting none ch) s.tasks (sym (ap channel e)) v.table;
  }

  pub write-Serial :
      (t ch : ℕ) (id : Option ℕ) (s : System Any)
      → s.tasks t ≡ sending id ch
      → Serial s
      → Serial (sent t id ch s)
  write-Serial t ch id s e v =
      let n = subst HasNoId e (v.no_ids t) in
      subst (λ i. Serial (sent t i ch s)) (sym n)
        (write-none t ch s (e ∙ ap (λ i. sending i ch) n) v)

  -- With the table empty, the insertion succeeds and leaves at most the new entry.
  record Inserted (w : World Any) : Type 0 where
    after : World Any
    inserts : command_insert 0 w ≡ (after, ok w.next_channel)
    mode : after.shared.supports_oob ≡ w.shared.supports_oob
    safe : after.shared.commands.poisoned ≡ false
    table :
        (after.shared.commands.pending ≡ [])
        ⊎ (after.shared.commands.pending ≡ (0, w.next_channel) ∷ [])

  insert-empty :
      (w : World Any)
      → w.shared.commands.poisoned ≡ false
      → w.shared.commands.pending ≡ []
      → Inserted w
  unfolding command_insert lookup insert
  insert-empty w p e = record {
    after = (command_insert 0 w).0;
    inserts = ground (arith, ap (lookup 0) e);
    mode = ground arith;
    safe = ground (arith, ap (lookup 0) e);
    table = ground (arith, ap (lookup 0) e, ap (insert 0 w.next_channel) e);
  }

  free-empty : (s : System Any) → s.writer ≡ none → Serial s → s.world.shared.commands.pending ≡ []
  free-empty s free v = elim v.table [ inl empty ↦ empty | inr d ↦ cc (d.held_by, free) ]

  locked-inserts :
      (t : ℕ) (s : System Any) (i : Inserted s.world)
      → locked t none s ≡ record s {
        world = i.after;
        writer = some t;
        tasks = update s.tasks t (sending none (s.world.next_channel));
      }
  unfolding locked
  locked-inserts t s i = ap (λ r. entered t none r s) i.inserts

  lock-none : (t : ℕ) (s : System Any) → s.writer ≡ none → Serial s → Serial (locked t none s)
  lock-none t s free v =
      let ch = s.world.next_channel in
      let i = insert-empty s.world v.safe (free-empty s free v) in
      rw (locked-inserts t s i) (record {
        mode = i.mode ∙ v.mode;
        safe = i.safe;
        no_ids = HasNoId-update s.tasks t (sending none ch) refl v.no_ids;
        holds =
            busy-update s.tasks t (sending none ch) (some t) (λ _. refl)
              (λ u h b. cc (v.holds u b, free));
        table = elim i.table [
          | inl empty ↦ inl empty
          | inr q ↦ inr (record {
            owner = t;
            ch = ch;
            held_by = refl;
            entry = q;
            receiver = channel-update_self s.tasks t (sending none ch);
          })
        ];
      })

  pub lock-Serial :
      (t : ℕ) (id : Option ℕ) (s : System Any)
      → s.tasks t ≡ waiting id
      → s.writer ≡ none
      → Serial s
      → Serial (locked t id s)
  lock-Serial t id s e free v =
      subst (λ i. Serial (locked t i s)) (sym (subst HasNoId e (v.no_ids t))) (lock-none t s free v)

  answered-empty :
      (t ch : ℕ) (id : Option ℕ) (s : System Any)
      → s.tasks t ≡ awaiting id ch
      → held ch s.world.shared.commands.pending ≡ 0
      → Serial s
      → s.world.shared.commands.pending ≡ []
  unfolding held
  answered-empty t ch id s e h v = elim v.table [
    | inl empty ↦ empty
    | inr d ↦
        let own = v.holds t (subst IsBusy (sym e) tt) in
        let same = some_injective (sym own ∙ d.held_by) in
        let ch_same =
          some_injective (sym (ap channel e) ∙ ap (λ u. channel (s.tasks u)) same ∙ d.receiver) in
        ground (arith, h, ch_same, ap (held ch) d.entry)
  ]

  pub reply-Serial :
      (t ch : ℕ) (id : Option ℕ) (s : System Any)
      → s.tasks t ≡ awaiting id ch
      → held ch s.world.shared.commands.pending ≡ 0
      → Serial s
      → Serial (finish t s)
  unfolding finish unless_held
  reply-Serial t ch id s e h v =
      let own = v.holds t (subst IsBusy (sym e) tt) in
      record {
        mode = v.mode;
        safe = v.safe;
        no_ids = HasNoId-update s.tasks t over tt v.no_ids;
        holds =
            busy-update s.tasks t over (unless_held t s.writer) (λ b. elim b [ ])
              (λ u ne b. absurd (ne (some_injective (sym own ∙ v.holds u b))));
        table = inl (answered-empty t ch id s e h v);
      }

  pub id_free :
      (s : System Any) (id : Option ℕ)
      → Serial s
      → s.writer ≡ none
      → lookup (id_or_default id) s.world.shared.commands.pending ≡ none
  unfolding lookup
  id_free s id v free = rw (free-empty s free v) refl

  pub insert-succeeds :
      (s : System Any) (t : ℕ) (id : Option ℕ)
      → Serial s
      → s.tasks t ≡ waiting id
      → s.writer ≡ none
      → (command_insert (id_or_default id) s.world).1 ≡ ok s.world.next_channel
  insert-succeeds s t id v e free =
      rw (subst HasNoId e (v.no_ids t))
        (ap (λ r. r.1) (insert-empty s.world v.safe (free-empty s free v)).inserts)
