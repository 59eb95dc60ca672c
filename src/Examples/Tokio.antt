-- ===== src/Examples/Tokio.antt =====
-- The programs of examples/src/bin over tokio: tokio_qmp_query.rs, tokio_qmp_events.rs and
-- tokio_guest_info.rs. What they await is a parameter, and so is how a value is printed.
use qapi_rs.Prelude.{
  String, Option, none, some, List, [], ◌∷◌, ◌++◌, Outcome, ok, err, panic, map_err,
}
use qapi_rs.Prelude.Int.{ℤ}
use qapi_rs.Prelude.Text.{concat}
use qapi_rs.Spec.{IoError}
use qapi_rs.Client.{ExecuteError, io_error_of_execute}
use qapi_rs.Qmp.{QapiCapabilities}
use qapi_rs.Transport.{QapiStream}
use qapi_rs.Transport.Qmp.{QmpStreamNegotiation}

-- What a program has printed, and how it has come on: a value, an error that `main` returns, or
-- a panic.
abbrev Program : Type 0 → Type 0
Program A = List String × Outcome IoError A

abbrev after : {B : Type 0} → List String → Program B → Program B
after out (later, r) = (out ++ later, r)

module _ {A B : Type 0} where
  infixl 5 ◌>>=◌
  abbrev ◌>>=◌ : Program A → (A → Program B) → Program B
  ◌>>=◌ (out, ok a) f = after out (f a)
  ◌>>=◌ (out, err e) f = (out, err e)
  ◌>>=◌ (out, panic) f = (out, panic)

infixl 5 ◌>>◌
abbrev ◌>>◌ : {B : Type 0} → Program (Unit {0}) → Program B → Program B
◌>>◌ m k = m >>= λ done. k

abbrev print : List String → Program (Unit {0})
print pieces = (concat pieces ∷ [], ok tt)

-- `.await?`
abbrev await_ : {A : Type 0} → Outcome IoError A → Program A
await_ r = ([], r)

abbrev await_command : {Any A : Type 0} → Outcome (ExecuteError Any) A → Program A
await_command r = ([], map_err io_error_of_execute r)

-- `args().nth(1).expect(…)`
abbrev argument : Option String → Program String
argument none = ([], panic)
argument (some a) = ([], ok a)

module _ {S W Any Version : Type 0} (show_capabilities : QapiCapabilities Any Version → String)
    (negotiate : QmpStreamNegotiation S W Any Version → Outcome IoError (QapiStream S W))
    (open_uds : String → Outcome IoError (QmpStreamNegotiation S W Any Version)) where
  -- How both programs of QMP begin.
  connect : Option String → Program (QapiStream S W)
  connect arg = do
    socket_addr ← argument arg
    stream ← await_ (open_uds socket_addr)
    print (show_capabilities stream.capabilities ∷ [])
    await_ (negotiate stream)

  -- `main` of tokio_qmp_query.rs
  qmp_query :
      {Client Handle Status : Type 0}
      → (QapiStream S W → Client × Handle)
      → (Client → Outcome (ExecuteError Any) Status)
      → (Client → Handle → Outcome IoError (Unit {0}))
      → (Status → String)
      → Option String
      → Program (Unit {0})
  unfolding connect
  qmp_query spawn_tokio query_status join show_status arg = do
    stream ← connect arg
    let (qmp, handle) = spawn_tokio stream
    status ← await_command (query_status qmp)
    print ("VCPU status: " ∷ show_status status ∷ [])
    await_ (join qmp handle)

  -- The loop of tokio_qmp_events.rs, over what the stream gives until its end.
  event_loop :
      {Event : Type 0} → (Event → String) → List (Outcome IoError Event) → Program (Unit {0})
  event_loop show_event [] = ([], ok tt)
  event_loop show_event (r ∷ rs) =
      let rest = event_loop show_event rs in
      await_ r >>= λ event. print ("Got event " ∷ show_event event ∷ []) >> rest

  -- `main` of tokio_qmp_events.rs
  qmp_events :
      {Event : Type 0}
      → (QapiStream S W → List (Outcome IoError Event))
      → (Event → String)
      → Option String
      → Program (Unit {0})
  unfolding connect event_loop
  qmp_events events show_event arg = do stream ← connect arg; event_loop show_event (events stream)

-- `main` of tokio_guest_info.rs; the number of the handshake, an address, is a parameter.
guest_info :
    {Any Stream Client Handle Info : Type 0}
    → (String → Outcome IoError Stream)
    → (Stream → Client × Handle)
    → (ℤ → Client → Outcome (ExecuteError Any) (Unit {0}))
    → (Client → Outcome (ExecuteError Any) Info)
    → (Client → Handle → Outcome IoError (Unit {0}))
    → (Info → String)
    → ℤ
    → Option String
    → Program (Unit {0})
guest_info open_uds spawn_tokio guest_sync guest_info_of join version sync_value arg = do
  socket_addr ← argument arg
  stream ← await_ (open_uds socket_addr)
  let (qga, handle) = spawn_tokio stream
  await_command (guest_sync sync_value qga)
  info ← await_command (guest_info_of qga)
  print ("Guest Agent version: " ∷ version info ∷ [])
  await_ (join qga handle)
