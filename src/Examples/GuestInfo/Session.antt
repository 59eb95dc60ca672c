-- ===== src/Examples/GuestInfo/Session.antt =====
-- A session of examples/src/bin/guest_info.rs with a guest agent.
use qapi_rs.Prelude.{
  ◌≡◌, ◌≢◌, refl, ap, sym, ◌∙◌, String, Option, none, some, [], ◌∷◌, ◌++◌, Outcome, ok, err, panic,
  map_err,
}
use qapi_rs.Prelude.Int.{ℤ}
use qapi_rs.Spec.{IoError, Response, Execute, result, from_command}
use qapi_rs.Codec.{Bytes, Absent}
use qapi_rs.Client.{ExecuteError, qapi}
use qapi_rs.Client.Wire.{Qapi, Writer}
use qapi_rs.Client.Lines.{decode_line-line}
use qapi_rs.Client.Handshake.{IsWriter, encode_line-text}
use qapi_rs.Client.QmpClient.{Never}
use qapi_rs.Client.QgaClient.{
  Client, new, execute, guest_sync, guest_sync_iff, compared, write_command, after_write, reply,
  read_response,
}
use qapi_rs.Examples.{expect, argument}
use qapi_rs.Examples.GuestInfo.{version_line, on_stream, main}

-- A reply of the agent on a line of its own: the command is answered with its result, and all
-- that is written is the command.
module _ {Any Args C : Type 0} (x : Writer Bytes (Execute Args Never))
    (json : Execute Args Never → Bytes)
    (from_slice : Bytes → Outcome IoError (Response Any C)) where
  abbrev Answered :
      Args
      → Response Any C
      → Bytes
      → Client Bytes
      → Client Bytes × Outcome (ExecuteError Any) C
      → Type 0
  Answered args res rest c r =
      (r.1 ≡ map_err qapi (result res))
      × (r.0.inner.r.unread ≡ rest)
      × (r.0.inner.w ≡ (c.inner.w ++ json (from_command args)) ++ b'\n' ∷ [])

  execute-Answered :
      (args : Args) (line rest : Bytes) (res : Response Any C) (c : Client Bytes)
      → IsWriter x json
      → Absent b'\n' line
      → from_slice (line ++ b'\n' ∷ []) ≡ ok res
      → c.inner.r.unread ≡ line ++ b'\n' ∷ rest
      → Answered args res rest c (execute from_slice x args c)
  unfolding execute write_command read_response after_write reply
  execute-Answered args line rest res c wr a p u =
      let w = (c.inner.w ++ json (from_command args)) ++ b'\n' ∷ [] in
      rw
        (
          encode_line-text x json (from_command args) c.inner.w wr,
          decode_line-line from_slice (record (c.inner) { w = w }) line rest u a,
          p,
        )
        (refl, refl, refl)

map_err-ok : {E F A : Type 0} (f : E → F) (r : Outcome E A) (v : A) → map_err f r ≡ ok v → r ≡ ok v
map_err-ok f (ok a) v e = cc
map_err-ok f (err e') v e = cc
map_err-ok f panic v e = cc

expect-ok :
    {E A B : Type 0} (r : Outcome E A) (a : A) (k : A → Option B) → r ≡ ok a → expect r k ≡ k a
unfolding expect
expect-ok r a k e = rw e refl

expect-fails :
    {E A B : Type 0} (r : Outcome E A) (k : A → Option B) → ((a : A) → r ≢ ok a) → expect r k ≡ none
unfolding expect
expect-fails (ok a) k h = absurd (h a refl)
expect-fails (err e) k h = refl
expect-fails panic k h = refl

module _ {Any Info Args : Type 0} (from_sync : Bytes → Outcome IoError (Response Any ℤ))
    (from_info : Bytes → Outcome IoError (Response Any Info))
    (x : Writer Bytes (Execute Args Never)) (json : Execute Args Never → Bytes)
    (guest_sync_args : ℤ → Args) (guest_info : Args) (version : Info → String)
    (wr : IsWriter x json) where
  -- A run with an agent that sends two replies, each on a line of its own.
  module _ (connect : String → Outcome IoError (Qapi Bytes)) (addr : String) (stream : Qapi Bytes)
      (sync_value : ℤ) (line more : Bytes) (synced : Response Any ℤ) (co : connect addr ≡ ok stream)
      (a : Absent b'\n' line) (p : from_sync (line ++ b'\n' ∷ []) ≡ ok synced)
      (u : stream.r.unread ≡ line ++ b'\n' ∷ more) where
    abbrev run : Option (Client Bytes × String)
    run =
        main from_sync from_info x guest_sync_args guest_info version connect sync_value (some addr)

    abbrev gs : Client Bytes × Outcome (ExecuteError Any) (Unit {0})
    gs = guest_sync from_sync x guest_sync_args sync_value (new stream)

    sync-Answered :
        Answered x json from_sync
          (guest_sync_args sync_value)
          synced
          more
          (new stream)
          (execute from_sync x (guest_sync_args sync_value) (new stream))
    sync-Answered =
        execute-Answered x json from_sync (guest_sync_args sync_value) line more synced (new stream)
          wr a p u

    -- If the first reply is anything but a success with the number that was sent, the program
    -- panics.
    main_panics : result synced ≢ ok sync_value → run ≡ none
    unfolding main on_stream argument
    main_panics h =
        expect-ok (connect addr) stream _ co
        ∙ expect-fails gs.1 _ (λ done q. h (
            map_err-ok qapi (result synced) sync_value (
              sym sync-Answered.0
              ∙ (guest_sync_iff from_sync x guest_sync_args sync_value (new stream)).0 q)))

    -- The program over a socket that connects, whose agent sends two replies, each on a line of
    -- its own, the first a success with the number that was sent and the second any success: it
    -- prints the version in the second, has written its two commands and nothing else, each on a
    -- line, and leaves the bytes behind the second reply.
    pub main_prints_version :
        (line' rest : Bytes) (res : Response Any Info) (info : Info)
        → result synced ≡ ok sync_value
        → Absent b'\n' line'
        → from_info (line' ++ b'\n' ∷ []) ≡ ok res
        → result res ≡ ok info
        → more ≡ line' ++ b'\n' ∷ rest
        → (c : Client Bytes) × (run
            ≡ some (c, version_line from_sync from_info x guest_sync_args guest_info version info))
          × (c.inner.r.unread ≡ rest)
          × (c.inner.w
              ≡ (((stream.w ++ json (from_command (guest_sync_args sync_value))) ++ b'\n' ∷ [])
                  ++ json (from_command guest_info))
                ++ b'\n' ∷ [])
    unfolding main on_stream argument guest_sync compared
    main_prints_version line' rest res info h a' p' i m =
        let iff = guest_sync_iff from_sync x guest_sync_args sync_value (new stream) in
        let d = execute from_info x guest_info gs.0 in
        let asked =
          execute-Answered x json from_info guest_info line' rest res gs.0 wr a' p'
            (sync-Answered.1 ∙ m) in
        (
          d.0,
          expect-ok (connect addr) stream _ co
              ∙ expect-ok gs.1 tt _ (iff.1 (sync-Answered.0 ∙ ap (λ r. map_err qapi r) h))
              ∙ expect-ok d.1 info _ (asked.0 ∙ ap (λ r. map_err qapi r) i),
          asked.1,
          asked.2 ∙ ap (λ w. (w ++ json (from_command guest_info)) ++ b'\n' ∷ []) sync-Answered.2,
        )
