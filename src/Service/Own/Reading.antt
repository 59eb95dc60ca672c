-- ===== src/Service/Own/Reading.antt =====
-- The reading half of qapi/src/futures/mod.rs next to a call of `execute`: what it sends on the
-- call's channel it has heard under the call's id.
use mathlib.Core.List.{Memᴰ}
use qapi_rs.Prelude.{
  ℕ, ◌≡◌, refl, sym, true, false, List, [], ◌∷◌, ◌++◌, Outcome, ok, if◌then◌else◌, subst,
  some_injective,
}
use qapi_rs.Spec.{IoError, Response, result}
use qapi_rs.Qmp.{QmpMessage}
use qapi_rs.Futures.World.{World, Reply}
use qapi_rs.Futures.Events.{AnyOps, Input, not_yet, eof, failed, message, response_id}
use qapi_rs.Futures.Ownership.{
  Owned, release-Owned, service_stop-Owned, events_drop-Owned, Owned-IsStable,
}
use qapi_rs.Futures.Stable.{
  Admits, response_of, future_poll-stable, stream_poll-stable, future_poll-stable_on,
  stream_poll-stable_on,
}
use qapi_rs.Service.Steps.{Reading, future, stream, let_go, drop_service, drop_events}
use qapi_rs.Service.Heard.{routed, in_input, in_poll, in_reading}
use qapi_rs.Service.Own.{
  Own, Came-more, release-Own, service_stop-Own, events_drop-Own, Own-IsStableOn,
}

Memᴰ-left {ℓ} : {A : Type ℓ} {x : A} (xs ys : List A) → Memᴰ x xs → Memᴰ x (xs ++ ys)
Memᴰ-left [] ys m = elim m [ ]
Memᴰ-left (y ∷ xs) ys (Memᴰ.head e) = Memᴰ.head e
Memᴰ-left (y ∷ xs) ys (Memᴰ.tail m) = Memᴰ.tail (Memᴰ-left xs ys m)

Memᴰ-right {ℓ} : {A : Type ℓ} {x : A} (xs ys : List A) → Memᴰ x ys → Memᴰ x (xs ++ ys)
Memᴰ-right [] ys m = m
Memᴰ-right (y ∷ xs) ys m = Memᴰ.tail (Memᴰ-right xs ys m)

module _ {Any : Type 0} where
  Own-more :
      (start : ℕ) (hs more : List (ℕ × Reply Any)) (n ch : ℕ) (w : World Any)
      → Own start hs n ch w
      → Own start (more ++ hs) n ch w
  Own-more start hs more n ch w v = record {
    below = v.below;
    under = v.under;
    came = λ l. Came-more hs (more ++ hs) n ch w.log (λ x. Memᴰ-right more hs) (v.came l);
  }

  routed-Memᴰ :
      (res : Response Any Any) (r : Outcome IoError ℕ) (n : ℕ)
      → r ≡ ok n
      → Memᴰ (n, result res) (routed res r)
  unfolding routed
  routed-Memᴰ res r n e = rw e (Memᴰ.head refl)

  module _ (E : Type 0) (ops : AnyOps Any) where
    in_poll-Memᴰ :
        (w : World Any) (res : Response Any Any) (n : ℕ)
        → w.shared.stop ≡ false
        → response_id ops res w.shared.supports_oob ≡ ok n
        → Memᴰ (n, result res) (in_poll {E = E} ops w (message (QmpMessage.response res)))
    unfolding in_poll in_input
    in_poll-Memᴰ w res n z j =
        let q = routed-Memᴰ res (response_id ops res w.shared.supports_oob) n j in
        subst
          (λ b.
            Memᴰ (n, result res)
              (if b then [] else routed res (response_id ops res w.shared.supports_oob)))
          (sym z) q

    -- The replies that a poll finds are among those that it hears.
    in_poll-Admits :
        (input : Input (QmpMessage Any E Any)) (w : World Any) (hs : List (ℕ × Reply Any))
        → Admits ops
            (λ _. true)
            (λ k res. Memᴰ (k, result res) (in_poll ops w input ++ hs))
            response_of
            input
            w
    unfolding in_poll in_input
    in_poll-Admits not_yet w hs = tt
    in_poll-Admits eof w hs = tt
    in_poll-Admits (failed e) w hs = tt
    in_poll-Admits (message (QmpMessage.event e)) w hs = λ res n z i j. cc
    in_poll-Admits (message (QmpMessage.response r)) w hs = λ res n z i j.
        Memᴰ-left (in_poll {E = E} ops w (message (QmpMessage.response r))) hs (
          subst
            (λ x. Memᴰ (n, result res) (in_poll {E = E} ops w (message (QmpMessage.response x))))
            (sym (some_injective i)) (in_poll-Memᴰ w res n z j))

    pub Reading-Own :
        (start : ℕ) (hs : List (ℕ × Reply Any)) (n ch : ℕ) (w v : World Any) (r : Reading E ops w v)
        → Own start hs n ch w
        → Own start (in_reading ops r ++ hs) n ch v
    unfolding in_reading
    Reading-Own start hs n ch w v (future alive input e) o =
        let more = in_poll ops w input in
        rw e (
          future_poll-stable_on ops alive (Own-IsStableOn start (more ++ hs) n ch ops alive)
            response_of input w (in_poll-Admits input w hs) (Own-more start hs more n ch w o))
    Reading-Own start hs n ch w v (stream alive input e) o =
        let more = in_poll ops w input in
        rw e (
          stream_poll-stable_on ops alive (Own-IsStableOn start (more ++ hs) n ch ops alive) input w
            (in_poll-Admits input w hs) (Own-more start hs more n ch w o))
    Reading-Own start hs n ch w v (let_go e) o = rw e (release-Own start hs n ch w o)
    Reading-Own start hs n ch w v (drop_service e) o = rw e (service_stop-Own start hs n ch w o)
    Reading-Own start hs n ch w v (drop_events e) o = rw e (events_drop-Own start hs n ch w o)

    pub Reading-Owned : (w v : World Any) → Reading E ops w v → Owned w → Owned v
    Reading-Owned w v (future alive input e) o =
        rw e (future_poll-stable ops alive (Owned-IsStable ops alive) response_of input w o)
    Reading-Owned w v (stream alive input e) o =
        rw e (stream_poll-stable ops alive (Owned-IsStable ops alive) input w o)
    Reading-Owned w v (let_go e) o = rw e (release-Owned w o)
    Reading-Owned w v (drop_service e) o = rw e (service_stop-Owned w o)
    Reading-Owned w v (drop_events e) o = rw e (events_drop-Owned w o)
