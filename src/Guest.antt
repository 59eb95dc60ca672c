-- ===== src/Guest.antt =====
-- qga/src/lib.rs: what `guest-exec-status` says of a process in the guest. The struct is of the
-- generated file: the fields that this code reads.
use qapi_rs.Prelude.{
  ◌+◌, ◌≡◌, String, Bool, true, false, not, ◌||◌, Option, none, some, [], ◌∷◌, Outcome, ok, err,
  ◌↔◌, ◌⊎◌, arith, if◌then◌else◌,
}
use qapi_rs.Prelude.Int.{ℤ, pos, negsuc, same_int, same_int_iff}
use qapi_rs.Prelude.Text.{concat, show}
use qapi_rs.Spec.{IoError, ErrorKind}
use qapi_rs.Codec.{Bytes}

data GuestShutdownMode : Type 0 where
  halt powerdown reboot : GuestShutdownMode

pub record GuestExecStatus : Type 0 where
  pub exited : Bool
  pub exitcode : Option ℤ
  pub signal : Option ℤ
  pub err_data : Option Bytes

-- `self.exitcode != Some(0)`, and `is_some`
abbrev is_zero : Option ℤ → Bool
is_zero none = false
is_zero (some n) = same_int n (pos 0)

abbrev is_some : Option ℤ → Bool
is_some none = false
is_some (some n) = true

-- `result`
unfoldable pub result : GuestExecStatus → Outcome GuestExecStatus GuestExecStatus
result s =
    if s.exited
    then (if not (is_zero s.exitcode) || is_some s.signal then err s else ok s)
    else ok s

abbrev show_int : ℤ → String
show_int (pos n) = show n
show_int (negsuc n) = concat ("-" ∷ show (n + 1) ∷ [])

-- `message`; `from_utf8` is `str::from_utf8`, none where the bytes are no text.
module _ (from_utf8 : Bytes → Option String) where
  abbrev on_text : Option String → String × String
  on_text none = ("", "")
  on_text (some data_) = (": ", data_)

  abbrev error_text : Option Bytes → String × String
  error_text none = ("", "")
  error_text (some s) = on_text (from_utf8 s)

  abbrev signal_text : Option ℤ → String
  signal_text none = ""
  signal_text (some n) = concat (" (terminated by signal " ∷ show_int n ∷ ")" ∷ [])

  abbrev exit_text : GuestExecStatus → Option ℤ → String
  exit_text s (some code) = concat (
      "guest process exited with code "
      ∷ show_int code
      ∷ signal_text s.signal
      ∷ (error_text s.err_data).0
      ∷ (error_text s.err_data).1
      ∷ [])
  exit_text s none =
      if s.exited
      then concat (
          "guest process exited"
          ∷ signal_text s.signal
          ∷ (error_text s.err_data).0
          ∷ (error_text s.err_data).1
          ∷ [])
      else "guest process is still running"

  abbrev message : GuestExecStatus → String
  message s = exit_text s s.exitcode

  -- `From<GuestExecStatus> for io::Error`, through `Display`.
  abbrev io_error_of_status : GuestExecStatus → IoError
  io_error_of_status s = record { kind = ErrorKind.other; message = message s }

-- A process that has not failed: it is running, or it has exited with code 0 and no signal.
abbrev pub IsWell : GuestExecStatus → Type 0
IsWell s = (s.exited ≡ false) ⊎ ((s.exitcode ≡ some (pos 0)) × (s.signal ≡ none))

result-parts :
    (exited : Bool) (exitcode signal : Option ℤ) (data_ : Option Bytes)
    → let s : GuestExecStatus = record {
      exited = exited;
      exitcode = exitcode;
      signal = signal;
      err_data = data_;
    } in
      ((result s ≡ ok s) ↔ IsWell s) × ((result s ≡ err s) ↔ (IsWell s → ⊥))
unfolding result
result-parts exited none signal data_ = ground arith
result-parts exited (some n) signal data_ = ground (arith, same_int_iff n (pos 0))

-- On every status: `result` gives the status back as a success exactly if the process is running
-- or has exited with code 0 and without a signal, and gives it back as an error exactly in all
-- other cases, an exit without a code among them.
result_iff :
    (s : GuestExecStatus) → ((result s ≡ ok s) ↔ IsWell s) × ((result s ≡ err s) ↔ (IsWell s → ⊥))
result_iff s = result-parts s.exited s.exitcode s.signal s.err_data
