-- ===== src/Examples/GuestInfo.antt =====
-- examples/src/bin/guest_info.rs: the handshake with a guest agent, and one command. The number of
-- the handshake, an address, is a parameter.
pub mod Session
use qapi_rs.Prelude.{
  ◌≡◌, ◌≢◌, refl, ap, ◌∙◌, String, Option, none, some, [], ◌∷◌, ◌++◌, Outcome, ok, err, panic,
  map_err,
}
use qapi_rs.Prelude.Int.{ℤ}
use qapi_rs.Prelude.Text.{concat}
use qapi_rs.Spec.{IoError, Response, Execute, result, from_command}
use qapi_rs.Codec.{Bytes, Absent}
use qapi_rs.Client.{ExecuteError, qapi}
use qapi_rs.Client.Wire.{Qapi, Writer, decode_line}
use qapi_rs.Client.Lines.{decode_line-line}
use qapi_rs.Client.Handshake.{IsWriter, encode_line-text}
use qapi_rs.Client.QmpClient.{Never}
use qapi_rs.Client.QgaClient.{
  Client, new, execute, guest_sync, guest_sync_iff, write_command, after_write, reply,
  read_response,
}
use qapi_rs.Examples.{expect, argument}

module _ {Any Info Args W : Type 0} (from_sync : Bytes → Outcome IoError (Response Any ℤ))
    (from_info : Bytes → Outcome IoError (Response Any Info)) (x : Writer W (Execute Args Never))
    (guest_sync_args : ℤ → Args) (guest_info : Args) (version : Info → String) where
  abbrev pub version_line : Info → String
  version_line info = concat ("Guest Agent version: " ∷ version info ∷ [])

  unfoldable pub on_stream : ℤ → Qapi W → Option (Client W × String)
  on_stream sync_value stream =
      let (c, synced) = guest_sync from_sync x guest_sync_args sync_value (new stream) in
      expect synced λ done.
        let (d, info) = execute from_info x guest_info c in
        expect info λ i. some (d, version_line i)

  -- `main`: what it prints.
  unfoldable pub main :
      (String → Outcome IoError (Qapi W)) → ℤ → Option String → Option (Client W × String)
  unfolding on_stream
  main connect sync_value arg =
      argument arg λ socket_addr. expect (connect socket_addr) (on_stream sync_value)
