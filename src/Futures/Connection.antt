-- ===== src/Futures/Connection.antt =====
-- The reading half of qapi/src/futures/mod.rs over its transport: the bytes of a peer's messages
-- go through the codec, and `Stream::poll_next` of `QapiEvents` is called on what comes out.
use mathlib.Core.List.{Memᴰ}
use qapi_rs.Prelude.{
  ℕ, ◌≡◌, ◌≢◌, refl, ap, sym, Bool, true, false, Option, none, some, List, [], ◌∷◌, ◌++◌, map,
  Outcome, ok, err, panic, arith, All, All-map, subst,
}
use qapi_rs.Spec.{IoError, Response, result}
use qapi_rs.Qmp.{QmpMessage}
use qapi_rs.Codec.{Bytes, ByteOps, IsDocumented, Json, parse, new}
use qapi_rs.Codec.Feed.{flat, feed}
use qapi_rs.Codec.Encode.{Writes, encode_all, feed-encode_listed}
use qapi_rs.Futures.World.{
  World, CommandMap, Effect, sent, registered, woken_self, effect, set_commands, lookup, remove,
}
use qapi_rs.Futures.Shared.{Poll, ready, pending, poll_next, on_poll, command_remove}
use qapi_rs.Futures.Events.{
  AnyOps, failed, message, deliver, after_reply, handle_response, stream_body, stream_poll,
}
use qapi_rs.Futures.Runs.{Op, run, run-kept, start}
use qapi_rs.Futures.Routing.{
  IsMap, Routes, response_id-Routes, lookup-remove, remove-IsMap, HasMap-IsKept, start-HasMap,
}

lookup-removed :
    (i k ch : ℕ) (m : CommandMap) → IsMap m → lookup i (remove k m) ≡ some ch → lookup i m ≡ some ch
lookup-removed i k ch m v h = ground (arith, lookup-remove i k m v, h)

removed-none :
    (i k : ℕ) (m : CommandMap) → IsMap m → lookup i m ≡ none → lookup i (remove k m) ≡ none
removed-none i k m v h = ground (arith, lookup-remove i k m v, h)

removed : (k : ℕ) (m : CommandMap) → IsMap m → lookup k (remove k m) ≡ none
removed k m v = ground (arith, lookup-remove k k m v)

module _ {Any : Type 0} where
  abbrev IsReady : World Any → Type 0
  IsReady w =
      (w.shared.stop ≡ false)
      × (w.shared.commands.poisoned ≡ false)
      × IsMap w.shared.commands.pending

  -- The world behind a reply.
  abbrev replied : ℕ → ℕ → Response Any Any → World Any → World Any
  replied n ch res w =
      let c = w.shared.commands in
      effect registered (
        effect woken_self (
          effect (sent ch (result res))
            (set_commands (record c { pending = remove n c.pending }) w)))

  -- What later polls leave of the world.
  abbrev Keeps : World Any → World Any → Type 0
  Keeps w w' =
      ((e : Effect Any) → Memᴰ e w.log → Memᴰ e w'.log)
      × ((k : ℕ)
          → lookup k w.shared.commands.pending ≡ none
          → lookup k w'.shared.commands.pending ≡ none)

module _ {Any : Type 0} (ops : AnyOps Any) (alive : ℕ → Bool) where
  stream_poll-response :
      (E : Type 0) (res : Response Any Any) (n ch : ℕ) (w : World Any)
      → IsReady w
      → Routes ops w.shared.supports_oob res n
      → lookup n w.shared.commands.pending ≡ some ch
      → alive ch ≡ true
      → stream_poll ops {E = E} alive (message (QmpMessage.response res)) w
        ≡ (replied n ch res w, ok pending)
  unfolding stream_poll poll_next on_poll stream_body after_reply handle_response deliver
      command_remove
  stream_poll-response E res n ch w (s, p, v) r l a =
      rw (s, response_id-Routes ops w.shared.supports_oob res n r, p, l, a) refl

module _ {Any E : Type 0} (ops : AnyOps Any) (alive : ℕ → Bool) where
  -- One poll for each frame that the transport gives. A panic ends the task.
  abbrev pub poll_each :
      List (Outcome IoError (QmpMessage Any E Any))
      → World Any
      → World Any × List (Outcome IoError (Poll (Option (Outcome IoError E))))
  poll_each [] w = (w, [])
  poll_each (ok m ∷ fs) w =
      let (w', r) = stream_poll ops alive (message m) w in
      let (w'', rs) = poll_each fs w' in (w'', r ∷ rs)
  poll_each (err e ∷ fs) w =
      let (w', r) = stream_poll ops alive (failed e) w in
      let (w'', rs) = poll_each fs w' in (w'', r ∷ rs)
  poll_each (panic ∷ fs) w = (w, panic ∷ [])

  -- Each reply, in the order in which they come, has the id of a command that is then pending and
  -- whose caller still waits.
  abbrev pub Answerable : Bool → CommandMap → List (QmpMessage Any E Any) → Type 0
  Answerable supports_oob m [] = Unit
  Answerable supports_oob m (QmpMessage.event e ∷ ms) = Answerable supports_oob m ms
  Answerable supports_oob m (QmpMessage.response res ∷ ms) =
      (n : ℕ) × (ch : ℕ) × Routes ops supports_oob res n
      × (lookup n m ≡ some ch)
      × (alive ch ≡ true)
      × Answerable supports_oob (remove n m) ms

  -- What a poll gives: an event as it is, and nothing for a reply.
  abbrev pub shown : QmpMessage Any E Any → Outcome IoError (Poll (Option (Outcome IoError E)))
  shown (QmpMessage.event e) = ok (ready (some (ok e)))
  shown (QmpMessage.response res) = ok pending

  -- A reply went to the channel that waited under its id, and the id is free.
  abbrev pub Settles : World Any → World Any → QmpMessage Any E Any → Type 0
  Settles w w' (QmpMessage.event e) = Unit
  Settles w w' (QmpMessage.response res) =
      (n : ℕ) × (ch : ℕ) × Routes ops w.shared.supports_oob res n
      × (lookup n w.shared.commands.pending ≡ some ch)
      × Memᴰ (sent ch (result res)) w'.log
      × (lookup n w'.shared.commands.pending ≡ none)

  stream_poll-event :
      (e : E) (w : World Any)
      → w.shared.stop ≡ false
      → stream_poll ops alive (message (QmpMessage.event e)) w ≡ (w, ok (ready (some (ok e))))
  unfolding stream_poll poll_next on_poll stream_body
  stream_poll-event e w s = rw s refl

  Settles-replied :
      (n ch : ℕ) (res : Response Any Any) (w w' : World Any)
      → IsReady w
      → (m : QmpMessage Any E Any) → Settles (replied n ch res w) w' m
      → Settles w w' m
  Settles-replied n ch res w w' v (QmpMessage.event e) s = tt
  Settles-replied n ch res w w' v (QmpMessage.response r) (k, c, routes, l, sent', gone) =
      (k, c, routes, lookup-removed k n c w.shared.commands.pending v.2 l, sent', gone)

  -- How a run over messages ends.
  abbrev Delivers :
      List (QmpMessage Any E Any)
      → World Any
      → World Any × List (Outcome IoError (Poll (Option (Outcome IoError E))))
      → Type 0
  Delivers ms w q = (q.1 ≡ map shown ms) × All (Settles w q.0) ms × Keeps w q.0

  Delivers-step :
      (m : QmpMessage Any E Any) (ms : List (QmpMessage Any E Any)) (w v : World Any)
      (r : Outcome IoError (Poll (Option (Outcome IoError E))))
      → stream_poll ops alive (message m) w ≡ (v, r)
      → let (u, rs) = poll_each (map ok ms) v in
        Delivers (m ∷ ms) w (u, r ∷ rs) → Delivers (m ∷ ms) w (poll_each (map ok (m ∷ ms)) w)
  Delivers-step m ms w v r e d =
      subst
        (λ p.
          Delivers (m ∷ ms) w ((poll_each (map ok ms) p.0).0, p.1 ∷ (poll_each (map ok ms) p.0).1))
        (sym e) d

  poll_each-Delivers :
      (ms : List (QmpMessage Any E Any)) (w : World Any)
      → IsReady w
      → Answerable w.shared.supports_oob w.shared.commands.pending ms
      → Delivers ms w (poll_each (map ok ms) w)
  poll_each-Delivers [] w v a = (refl, tt, ((λ e m. m), λ k l. l))
  poll_each-Delivers (QmpMessage.event e ∷ ms) w v a =
      let (same, all, keeps) = poll_each-Delivers ms w v a in
      Delivers-step (QmpMessage.event e) ms w w (ok (ready (some (ok e))))
        (stream_poll-event e w v.0)
        (ap (λ rs. ok (ready (some (ok e))) ∷ rs) same, (tt, all), keeps)
  poll_each-Delivers (QmpMessage.response res ∷ ms) w v (n, ch, r, l, al, a) =
      let m = w.shared.commands.pending in
      let v' : IsReady (replied n ch res w) = (v.0, v.1, remove-IsMap n m v.2) in
      let u = (poll_each (map ok ms) (replied n ch res w)).0 in
      let (same, all, keeps) = poll_each-Delivers ms (replied n ch res w) v' a in
      Delivers-step (QmpMessage.response res) ms w (replied n ch res w) (ok pending)
        (stream_poll-response ops alive E res n ch w v r l al)
        (
          ap (λ rs. ok pending ∷ rs) same,
          (
            (
              n,
              ch,
              r,
              l,
              keeps.0 (sent ch (result res)) (Memᴰ.tail (Memᴰ.tail (Memᴰ.head refl))),
              keeps.1 n (removed n m v.2),
            ),
            All-map (Settles-replied n ch res w u v) ms all,
          ),
          (
            λ e h. keeps.0 e (Memᴰ.tail (Memᴰ.tail (Memᴰ.tail h))),
            λ k h. keeps.1 k (removed-none k n m v.2 h),
          ),
        )

  -- The peer encodes messages one after the other, events among them, each reply with the id of a
  -- command that is then pending and whose caller waits, and the socket cuts the bytes anywhere.
  -- After any history of a new client that left it running and its mutex unpoisoned, one poll for
  -- each frame that the codec makes of the bytes: every event is given, in order, and no error or
  -- end; the result of every reply has been sent on the channel that waited under its id, and the
  -- id is free. The JSON writer appends a text without a line feed, from which the JSON reader gives
  -- each of the messages back, it never panics, and the byte routines behave as documented.
  pub replies_reach_callers :
      (x : ByteOps) (json : Json (QmpMessage Any E Any))
      (to_writer : QmpMessage Any E Any → Bytes → Bytes × Outcome IoError (Unit {0}))
      (text : QmpMessage Any E Any → Bytes) (supports_oob : Bool) (os : List (Op Any E))
      (ms : List (QmpMessage Any E Any)) (chunks : List Bytes)
      → IsDocumented x
      → Writes to_writer text
      → ((line : Bytes) → parse x json line ≢ panic)
      → All (λ m. json.from_slice (text m ++ b'\n' ∷ []) ≡ ok m) ms
      → (run ops os (start Any supports_oob)).shared.stop ≡ false
      → (run ops os (start Any supports_oob)).shared.commands.poisoned ≡ false
      → Answerable
          (run ops os (start Any supports_oob)).shared.supports_oob
          (run ops os (start Any supports_oob)).shared.commands.pending
          ms
      → flat chunks ≡ encode_all to_writer ms []
      → let w = run ops os (start Any supports_oob) in
        let (w', rs) = poll_each (feed x json new [] chunks).frames w in
        (rs ≡ map shown ms) × All (Settles w w') ms
  replies_reach_callers x json to_writer text supports_oob os ms chunks doc wr total back stop
        poisoned a e =
      let w = run ops os (start Any supports_oob) in
      let v : IsReady w =
        (stop, poisoned, run-kept ops (HasMap-IsKept ops) os _ (start-HasMap ops supports_oob)) in
      let (same, all, keeps) = poll_each-Delivers ms w v a in
      rw (feed-encode_listed to_writer text wr x json doc total ms back chunks e).0 (same, all)
