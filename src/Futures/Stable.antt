-- ===== src/Futures/Stable.antt =====
-- What the polls of qapi/src/futures/mod.rs keep: a property that survives the delivery of the
-- replies that are admitted, and the three small writes, survives every poll of the reading half
-- that finds no other reply.
use qapi_rs.Prelude.{
  ℕ, ◌≡◌, refl, Option, none, some, Outcome, ok, err, panic, Option-cases, if_intro, if_split, inl,
  inr, Bool, false,
}
use qapi_rs.Spec.{IoError, Response}
use qapi_rs.Qmp.{QmpMessage}
use qapi_rs.Futures.World.{World, registered, woken_self, effect, ◌>>=◌}
use qapi_rs.Futures.Shared.{Poll, ready, pending, on_poll, poll_next, command_remove, store_stop}
use qapi_rs.Futures.Events.{
  AnyOps, Input, not_yet, eof, failed, message, deliver, route, after_reply, future_body,
  unwrap_or_done, stream_body, handle_response, response_id, future_poll, stream_poll,
}

-- `TryInto` of a QMP message, its error ignored as the future does.
abbrev pub response_of : {Any E : Type 0} → QmpMessage Any E Any → Option (Response Any Any)
response_of (QmpMessage.response res) = some res
response_of (QmpMessage.event e) = none

module _ {Any : Type 0} (ops : AnyOps Any) (alive : ℕ → Bool) where
  -- The replies that are admitted are those of `Admitted`, each with the id that it is routed by.
  pub record IsStableOn (Admitted : ℕ → Response Any Any → Type 0) (P : World Any → Type 0)
      : Type 0 where
    pub delivers :
        (n : ℕ) (res : Response Any Any) (w : World Any)
        → Admitted n res
        → P w
        → P ((command_remove n >>= deliver ops alive n res) w).0
    pub wakes : (w : World Any) → P w → P (effect woken_self w)
    pub registers : (w : World Any) → P w → P (effect registered w)
    pub stops : (w : World Any) → P w → P (store_stop w)

  -- A property that survives any reply.
  abbrev pub IsStable : (World Any → Type 0) → Type 0
  IsStable P = IsStableOn (λ n res. Unit) P

  -- What a poll of a client that is not stopped may find.
  abbrev pub Admits :
      (ℕ → Response Any Any → Type 0)
      → {M : Type 0} → (M → Option (Response Any Any))
      → Input M
      → World Any
      → Type 0
  Admits Admitted try_into not_yet w = Unit
  Admits Admitted try_into eof w = Unit
  Admits Admitted try_into (failed e) w = Unit
  Admits Admitted try_into (message m) w =
      (res : Response Any Any) (n : ℕ)
      → w.shared.stop ≡ false
      → try_into m ≡ some res
      → response_id ops res w.shared.supports_oob ≡ ok n
      → Admitted n res

  module _ {Admitted : ℕ → Response Any Any → Type 0} {P : World Any → Type 0}
      (s : IsStableOn Admitted P) where
    route-stable :
        (res : Response Any Any) (r : Outcome IoError ℕ) (w : World Any)
        → ((n : ℕ) → r ≡ ok n → Admitted n res)
        → P w
        → P (route ops alive res r w).0
    unfolding route
    route-stable res (ok n) w a v = s.delivers n res w (a n refl) v
    route-stable res (err e) w a v = v
    route-stable res panic w a v = v

    handle_response-stable :
        (res : Response Any Any) (w : World Any)
        → ((n : ℕ) → response_id ops res w.shared.supports_oob ≡ ok n → Admitted n res)
        → P w
        → P (handle_response ops alive res w).0
    unfolding handle_response
    handle_response-stable res w a v =
        route-stable res (response_id ops res w.shared.supports_oob) w a v

    after_reply-stable :
        (E : Type 0) (r : World Any × Outcome IoError (Unit {0}))
        → P r.0
        → P (after_reply ops {E = E} r).0
    unfolding after_reply
    after_reply-stable E (w, ok done) v = s.wakes w v
    after_reply-stable E (w, err e) v = v
    after_reply-stable E (w, panic) v = v

    on_poll-stable :
        {T : Type 0} (r : World Any × Outcome IoError (Poll (Option T))) → P r.0 → P (on_poll r).0
    unfolding on_poll
    on_poll-stable (w, ok (ready none)) v = s.stops w v
    on_poll-stable (w, ok (ready (some t))) v = v
    on_poll-stable {T} (w, ok pending) v =
        if_intro (λ (r : World Any × Outcome IoError (Poll (Option T))). P r.0) w.shared.stop
          (s.registers w v) (s.registers w v)
    on_poll-stable (w, err e) v = v
    on_poll-stable (w, panic) v = v

    poll_next-stable :
        {T : Type 0} (body : World Any → World Any × Outcome IoError (Poll (Option T)))
        (w : World Any)
        → P w
        → (w.shared.stop ≡ false → P (body w).0)
        → P (poll_next body w).0
    unfolding poll_next
    poll_next-stable {T} body w v b =
        if_split (λ (r : World Any × Outcome IoError (Poll (Option T))). P r.0) w.shared.stop
          (λ e. v) (λ e. on_poll-stable (body w) (b e))

    future_body-stable :
        {M : Type 0} (try_into : M → Option (Response Any Any)) (input : Input M) (w : World Any)
        → Admits Admitted try_into input w
        → P w
        → w.shared.stop ≡ false
        → P (future_body ops try_into alive input w).0
    unfolding future_body
    future_body-stable try_into not_yet w a v z = v
    future_body-stable try_into eof w a v z = v
    future_body-stable try_into (failed e) w a v z = v
    future_body-stable try_into (message m) w a v z = elim (Option-cases (try_into m)) [
      | inl e ↦ rw (e, future_body) (s.wakes w v)
      | inr (res, e) ↦
          rw (e, future_body)
            (after_reply-stable _ _ (handle_response-stable res w (λ n. a res n z e) v))
    ]

    unwrap_or_done-stable :
        (r : World Any × Outcome IoError (Poll (Option (Outcome IoError (Unit {0})))))
        → P r.0
        → P (unwrap_or_done ops r).0
    unfolding unwrap_or_done
    unwrap_or_done-stable (w, ok (ready none)) v = v
    unwrap_or_done-stable (w, ok (ready (some t))) v = v
    unwrap_or_done-stable (w, ok pending) v = v
    unwrap_or_done-stable (w, err e) v = v
    unwrap_or_done-stable (w, panic) v = v

    pub future_poll-stable_on :
        {M : Type 0} (try_into : M → Option (Response Any Any)) (input : Input M) (w : World Any)
        → Admits Admitted try_into input w
        → P w
        → P (future_poll ops try_into alive input w).0
    unfolding future_poll
    future_poll-stable_on try_into input w a v =
        unwrap_or_done-stable _ (poll_next-stable _ w v (future_body-stable try_into input w a v))

    stream_body-stable :
        {E : Type 0} (input : Input (QmpMessage Any E Any)) (w : World Any)
        → Admits Admitted response_of input w
        → P w
        → w.shared.stop ≡ false
        → P (stream_body ops alive input w).0
    unfolding stream_body
    stream_body-stable not_yet w a v z = v
    stream_body-stable eof w a v z = v
    stream_body-stable (failed e) w a v z = v
    stream_body-stable (message (QmpMessage.event e)) w a v z = v
    stream_body-stable (message (QmpMessage.response res)) w a v z =
        after_reply-stable _ _ (handle_response-stable res w (λ n. a res n z refl) v)

    pub stream_poll-stable_on :
        {E : Type 0} (input : Input (QmpMessage Any E Any)) (w : World Any)
        → Admits Admitted response_of input w
        → P w
        → P (stream_poll ops alive input w).0
    unfolding stream_poll
    stream_poll-stable_on input w a v = poll_next-stable _ w v (stream_body-stable input w a v)

  module _ {P : World Any → Type 0} (s : IsStable P) where
    pub future_poll-stable :
        {M : Type 0} (try_into : M → Option (Response Any Any)) (input : Input M) (w : World Any)
        → P w
        → P (future_poll ops try_into alive input w).0
    future_poll-stable try_into not_yet w v = future_poll-stable_on s try_into not_yet w tt v
    future_poll-stable try_into eof w v = future_poll-stable_on s try_into eof w tt v
    future_poll-stable try_into (failed e) w v = future_poll-stable_on s try_into (failed e) w tt v
    future_poll-stable try_into (message m) w v =
        future_poll-stable_on s try_into (message m) w (λ res n z e i. tt) v

    pub stream_poll-stable :
        {E : Type 0} (input : Input (QmpMessage Any E Any)) (w : World Any)
        → P w
        → P (stream_poll ops alive input w).0
    stream_poll-stable not_yet w v = stream_poll-stable_on s not_yet w tt v
    stream_poll-stable eof w v = stream_poll-stable_on s eof w tt v
    stream_poll-stable (failed e) w v = stream_poll-stable_on s (failed e) w tt v
    stream_poll-stable (message m) w v = stream_poll-stable_on s (message m) w (λ res n z e i. tt) v
