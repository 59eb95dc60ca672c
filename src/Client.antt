-- ===== src/Client.antt =====
-- qapi/src/lib.rs: the error of an executed command, and the blocking clients of both protocols.
pub mod Wire
pub mod Lines
pub mod QmpClient
pub mod QgaClient
pub mod Replies
pub mod Stream
pub mod Handshake
use qapi_rs.Prelude.{String, ◌⊎◌, inl, inr}
use qapi_rs.Spec.{IoError, Error, io_error_of}

pub data ExecuteError (Any : Type 0) : Type 0 where
  qapi : Error Any → ExecuteError Any
  io : IoError → ExecuteError Any

module _ {Any : Type 0} where
  -- `Display for ExecuteError`: both errors print their description.
  abbrev display : ExecuteError Any → String
  display (qapi e) = e.desc
  display (io e) = e.message

  -- `source`: the error inside.
  abbrev source : ExecuteError Any → Error Any ⊎ IoError
  source (qapi e) = inl e
  source (io e) = inr e

  -- `From<io::Error>` and `From<Error>`, which `?` uses.
  abbrev from_io : IoError → ExecuteError Any
  from_io e = io e

  abbrev from_error : Error Any → ExecuteError Any
  from_error e = qapi e

  -- `From<ExecuteError> for io::Error`
  unfoldable pub io_error_of_execute : ExecuteError Any → IoError
  io_error_of_execute (qapi e) = io_error_of e
  io_error_of_execute (io e) = e
