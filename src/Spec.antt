-- ===== src/Spec.antt =====
-- spec/src/lib.rs: what both protocols share, the error and response types and the commands.
-- A JSON value is serde_json's, so its type is a parameter `Any`.
pub mod Enum
pub mod Base64
pub mod ErrorSerde
use qapi_rs.Prelude.{ℕ, String, Option, Bool, none, some, Outcome}

pub data ErrorClass : Type 0 where
  generic_error command_not_found device_not_active device_not_found kvm_missing_cap : ErrorClass

-- The kinds of `std::io::ErrorKind` that the program uses.
pub data ErrorKind : Type 0 where
  other invalid_input invalid_data not_found unexpected_eof : ErrorKind

-- `std::io::Error`. A kind and a message, or one that a library made.
pub record IoError : Type 0 where
  pub kind : ErrorKind
  pub message : String

-- `From<ErrorClass> for io::ErrorKind`
kind_of_class : ErrorClass → ErrorKind
kind_of_class generic_error = other
kind_of_class command_not_found = invalid_input
kind_of_class device_not_active = other
kind_of_class device_not_found = not_found
kind_of_class kvm_missing_cap = other

pub record Error (Any : Type 0) : Type 0 where
  pub class : ErrorClass
  pub desc : String
  pub id : Option Any

pub record ResponseValue (Any C : Type 0) : Type 0 where
  pub return_ : C
  pub id : Option Any

pub data Response (Any C : Type 0) : Type 0 where
  err : Error Any → Response Any C
  ok : ResponseValue Any C → Response Any C

pub record Execute (C I : Type 0) : Type 0 where
  pub arguments : C
  pub id : Option I

pub record ExecuteOob (C I : Type 0) : Type 0 where
  pub arguments : C
  pub id : I

pub record Timestamp : Type 0 where
  pub seconds : ℕ
  pub microseconds : ℕ

-- A command's type has its name and whether it may run out of band.
pub record Command : Type 1 where
  pub Args : Type 0
  pub Reply : Type 0
  pub name : String
  pub allow_oob : Bool

-- `serialize_command_name`, onto a serializer of strings.
abbrev serialize_command_name : {S : Type 0} → (String → S) → Command → S
serialize_command_name serialize c = serialize c.name

-- An event's type has its name.
record Event : Type 1 where
  Payload : Type 0
  name : String

-- The type of what is never there, which cannot be read either.
pub data Never : Type 0 where

abbrev deserialize_never : {E : Type 0} → (String → E) → Outcome E Never
deserialize_never custom = Outcome.err (custom "Cannot instantiate Never type")

module _ {Any : Type 0} where
  -- `From<Error> for io::Error`
  abbrev pub io_error_of : Error Any → IoError
  unfolding kind_of_class
  io_error_of e = record { kind = kind_of_class e.class; message = e.desc }

  -- `Display for Error`
  abbrev display : Error Any → String
  display e = e.desc

  module _ {C : Type 0} where
    unfoldable pub result : Response Any C → Outcome (Error Any) C
    result (Response.ok v) = Outcome.ok v.return_
    result (Response.err e) = Outcome.err e

    unfoldable pub id : Response Any C → Option Any
    id (Response.err e) = e.id
    id (Response.ok v) = v.id

module _ {C I : Type 0} where
  abbrev new : C → Option I → Execute C I
  new arguments id = record { arguments = arguments; id = id }

  with_command : C → Execute C I
  with_command arguments = record { arguments = arguments; id = none }

  abbrev with_id : C → I → Execute C I
  with_id arguments id = record { arguments = arguments; id = some id }

  -- `From<C> for Execute<C, I>`
  unfoldable pub from_command : C → Execute C I
  unfolding with_command
  from_command command = with_command command

  abbrev new_oob : C → I → ExecuteOob C I
  new_oob arguments id = record { arguments = arguments; id = id }
