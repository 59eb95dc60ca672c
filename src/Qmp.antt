-- ===== src/Qmp.antt =====
-- qmp/src/lib.rs: the messages of the QEMU Machine Protocol and the greeting's capabilities.
-- `Event`, `VersionInfo` and the command types come from the generated file: type parameters.
use qapi_rs.Prelude.{
  ◌≡◌, refl, Bool, true, false, Option, none, some, List, [], ◌∷◌, Outcome, any, String,
}
use qapi_rs.Spec.{IoError, ErrorKind, Response}

pub data QmpMessage (Any Event C : Type 0) : Type 0 where
  event : Event → QmpMessage Any Event C
  response : Response Any C → QmpMessage Any Event C

-- `TryFrom<QmpMessage<C>> for Response<C>`
abbrev try_from : {Any Event C : Type 0} → QmpMessage Any Event C → Outcome IoError (Response Any C)
try_from (response res) = Outcome.ok res
try_from (event e) =
    Outcome.err (record {
      kind = ErrorKind.invalid_data;
      message = "QMP event where a response was expected";
    })

pub data QmpCapability (Any : Type 0) : Type 0 where
  out_of_band : QmpCapability Any
  unknown : Any → QmpCapability Any

-- The QMP schema's `QMPCapability`: its one value.
pub data KnownCapability : Type 0 where
  oob : KnownCapability

pub record Qmp (Any VersionInfo : Type 0) : Type 0 where
  pub version : VersionInfo
  pub capabilities : List (QmpCapability Any)

-- The greeting, `QapiCapabilities`.
pub record QapiCapabilities (Any VersionInfo : Type 0) : Type 0 where
  pub qmp : Qmp Any VersionInfo

-- The generated command `device_add`, and `device_add::new`; how a map is collected of the
-- properties is a parameter.
record DeviceAdd (Dictionary : Type 0) : Type 0 where
  driver : String
  id : Option String
  bus : Option String
  arguments : Dictionary

abbrev new_device :
    {Any Dictionary : Type 0}
    → (List (String × Any) → Dictionary)
    → String
    → Option String
    → Option String
    → List (String × Any)
    → DeviceAdd Dictionary
new_device collect driver id bus props = record {
  driver = driver;
  id = id;
  bus = bus;
  arguments = collect props;
}

push_known : Option KnownCapability → List KnownCapability → List KnownCapability
push_known none ks = ks
push_known (some k) ks = k ∷ ks

module _ {Any : Type 0} where
  abbrev is_oob : QmpCapability Any → Bool
  is_oob out_of_band = true
  is_oob (unknown a) = false

  known : QmpCapability Any → Option KnownCapability
  known out_of_band = some oob
  known (unknown a) = none

  known_of : List (QmpCapability Any) → List KnownCapability
  unfolding known push_known
  known_of [] = []
  known_of (c ∷ cs) = push_known (known c) (known_of cs)

  module _ {VersionInfo : Type 0} where
    pub supports_oob : QapiCapabilities Any VersionInfo → Bool
    supports_oob g = any is_oob g.qmp.capabilities

    -- `QapiCapabilities::capabilities`, as the list that its iterator runs through.
    unfoldable pub capabilities : QapiCapabilities Any VersionInfo → List KnownCapability
    unfolding known_of
    capabilities g = known_of g.qmp.capabilities

abbrev pub same_capability : KnownCapability → Bool
same_capability oob = true

known_of-is_oob :
    {Any : Type 0} (cs : List (QmpCapability Any))
    → any same_capability (known_of cs) ≡ any is_oob cs
unfolding known_of
known_of-is_oob [] = refl
known_of-is_oob (out_of_band ∷ cs) = refl
known_of-is_oob (unknown a ∷ cs) = known_of-is_oob cs

-- The test that the asynchronous client makes on the greeting, whether `oob` is among the
-- capabilities listed, agrees with `supports_oob` on every greeting.
pub supports_oob-capabilities :
    {Any VersionInfo : Type 0} (g : QapiCapabilities Any VersionInfo)
    → any same_capability (capabilities g) ≡ supports_oob g
unfolding supports_oob capabilities
supports_oob-capabilities g = known_of-is_oob g.qmp.capabilities
