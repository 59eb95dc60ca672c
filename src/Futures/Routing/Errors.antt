-- ===== src/Futures/Routing/Errors.antt =====
-- The errors of `handle_response` of qapi/src/futures/mod.rs: what has become of the reply and of
-- the pending commands.
use qapi_rs.Prelude.{
  ℕ, ◌^◌, ◌≤◌, ◌≡◌, ◌≢◌, refl, Bool, true, false, none, some, List, ◌∷◌, ok, err, arith,
  if◌then◌else◌, ◌==◌, Outcome, panic, Option-cases, Bool-cases, if_split, ltb, ◌⊎◌, inl, inr, ap,
  sym, ◌∙◌,
}
use qapi_rs.Spec.{ErrorKind, IoError, Response, id, result}
use qapi_rs.Futures.World.{World, ◌>>=◌, refused, lookup}
use qapi_rs.Futures.Shared.{command_remove}
use qapi_rs.Futures.Events.{
  AnyOps, numeric_id, deliver, route, response_id, u32_of, handle_response,
}
use qapi_rs.Futures.Runs.{Op, run-kept, run, start}
use qapi_rs.Futures.Routing.{
  IsMap, lookup-remove, remove-absent, Routes, HasMap-IsKept, start-HasMap,
}

module _ {Any : Type 0} (ops : AnyOps Any) where
  -- No id to route the reply by: out of band it carries no number, or none that is an id;
  -- otherwise it carries one.
  abbrev pub Unroutable : Bool → Response Any Any → Type 0
  Unroutable true res =
      (numeric_id ops (id res) ≡ none)
      ⊎ ((n : ℕ) × (numeric_id ops (id res) ≡ some n) × (2 ^ 32 ≤ n))
  Unroutable false res = (n : ℕ) × (numeric_id ops (id res) ≡ some n)

  -- `response_id` on every branch: an id that the reply is routed by, or invalid data.
  abbrev IsRouted : Bool → Response Any Any → Outcome IoError ℕ → Type 0
  IsRouted supports_oob res (ok n) = Routes ops supports_oob res n
  IsRouted supports_oob res (err e) =
      (e.kind ≡ ErrorKind.invalid_data) × Unroutable supports_oob res
  IsRouted supports_oob res panic = ⊥

  response_id-IsRouted :
      (supports_oob : Bool) (res : Response Any Any)
      → IsRouted supports_oob res (response_id ops res supports_oob)
  unfolding response_id u32_of
  response_id-IsRouted true res = elim (Option-cases (numeric_id ops (id res))) [
    | inl o ↦ rw o (refl, inl o)
    | inr (n, o) ↦ rw o (
        if_split (IsRouted true res) (ltb n (2 ^ 32)) (λ h. (o, ground (arith, h)))
          (λ h. (refl, inr (n, o, ground (arith, h)))))
  ]
  response_id-IsRouted false res = elim (Option-cases (numeric_id ops (id res))) [
    | inl o ↦ rw o (o, refl)
    | inr (n, o) ↦ rw o (refl, (n, o))
  ]

  module _ (alive : ℕ → Bool) (res : Response Any Any) where
    -- The reply's command was pending but its caller is gone: it is taken off, and its reply comes
    -- back.
    abbrev pub Refuses : World Any → World Any → Type 0
    Refuses w u =
        (n : ℕ) × (ch : ℕ) × Routes ops w.shared.supports_oob res n
        × (lookup n w.shared.commands.pending ≡ some ch)
        × (alive ch ≡ false)
        × (u.log ≡ refused ch (result res) ∷ w.log)
        × ((k : ℕ)
            → lookup k u.shared.commands.pending
              ≡ (if n == k then none else lookup k w.shared.commands.pending))

    -- There is no id to route it by, or no command is pending under the id.
    abbrev pub Unknown : World Any → Type 0
    Unknown w =
        Unroutable w.shared.supports_oob res
        ⊎ ((n : ℕ) × Routes ops w.shared.supports_oob res n
            × (lookup n w.shared.commands.pending ≡ none))

    -- A reply was reported as an error, and no live caller is worse off.
    abbrev Fails : World Any → World Any × Outcome IoError (Unit {0}) → Type 0
    Fails w (u, ok d) = Unit
    Fails w (u, err e) = (e.kind ≡ ErrorKind.invalid_data) × (((u ≡ w) × Unknown w) ⊎ Refuses w u)
    Fails w (u, panic) = Unit

    routed-Fails :
        (n : ℕ) (w : World Any)
        → IsMap w.shared.commands.pending
        → Routes ops w.shared.supports_oob res n
        → Fails w ((command_remove n >>= deliver ops alive n res) w)
    unfolding command_remove deliver
    routed-Fails n w v r = elim (Bool-cases w.shared.commands.poisoned) [
      | inl p ↦ rw p tt
      | inr p ↦ elim (Option-cases (lookup n w.shared.commands.pending)) [
        | inl l ↦ rw (p, l, remove-absent n _ l) (refl, inl (refl, inr (n, r, l)))
        | inr (ch, l) ↦ elim (Bool-cases (alive ch)) [
          | inl a ↦ rw (p, l, a) tt
          | inr a ↦
              rw (p, l, a)
                (
                  refl,
                  inr (n, ch, r, l, a, refl, λ k. lookup-remove k n w.shared.commands.pending v),
                )
        ]
      ]
    ]

    route-Fails :
        (r : Outcome IoError ℕ) (w : World Any)
        → IsMap w.shared.commands.pending
        → IsRouted w.shared.supports_oob res r
        → Fails w (route ops alive res r w)
    unfolding route
    route-Fails (ok n) w v r = routed-Fails n w v r
    route-Fails (err e) w v r = (r.0, inl (refl, inl r.1))
    route-Fails panic w v r = tt

    ok≢err : {d : Unit {0}} {e : IoError} → ◌≢◌ {A = Outcome IoError (Unit {0})} (ok d) (err e)
    ok≢err h = cc

    panic≢err : {e : IoError} → ◌≢◌ {A = Outcome IoError (Unit {0})} panic (err e)
    panic≢err h = cc

    err-injective :
        {e' : IoError} {e : IoError}
        → ◌≡◌ {A = Outcome IoError (Unit {0})} (err e') (err e)
        → e' ≡ e
    err-injective h = cc

    Fails-err :
        (w : World Any) (r : World Any × Outcome IoError (Unit {0})) (e : IoError)
        → Fails w r
        → r.1 ≡ err e
        → (e.kind ≡ ErrorKind.invalid_data) × (((r.0 ≡ w) × Unknown w) ⊎ Refuses w r.0)
    Fails-err w (u, ok d) e f h = absurd (ok≢err h)
    Fails-err w (u, panic) e f h = absurd (panic≢err h)
    Fails-err w (u, err e') e f h = (ap (λ e. e.kind) (sym (err-injective h)) ∙ f.0, f.1)

    -- After any history of a new client: when `handle_response` reports an error, it is invalid
    -- data. Either nothing has changed, and the reply carries no id to route it by or that of no
    -- pending command; or the caller of the pending command is gone: that command is taken off, its
    -- reply comes back, and all other commands stay as they were.
    pub handle_response_error :
        {E : Type 0} (os : List (Op Any E)) (supports_oob : Bool) (e : IoError)
        → (handle_response ops alive res (run ops os (start Any supports_oob))).1 ≡ err e
        → let w = run ops os (start Any supports_oob) in
          let u = (handle_response ops alive res w).0 in
          (e.kind ≡ ErrorKind.invalid_data) × (((u ≡ w) × Unknown w) ⊎ Refuses w u)
    unfolding handle_response
    handle_response_error os supports_oob e h =
        let w = run ops os (start Any supports_oob) in
        Fails-err w (handle_response ops alive res w) e
          (route-Fails (response_id ops res w.shared.supports_oob) w
            (run-kept ops (HasMap-IsKept ops) os _ (start-HasMap ops supports_oob))
            (response_id-IsRouted w.shared.supports_oob res))
          h
