-- ===== src/Service/Sync.antt =====
-- `QapiService::guest_sync` of qapi/src/futures/mod.rs: what becomes of the answer of the command
-- that it executes.
use qapi_rs.Prelude.{Outcome, ok, err, panic, if◌then◌else◌}
use qapi_rs.Prelude.Int.{ℤ, same_int}
use qapi_rs.Spec.{ErrorKind}
use qapi_rs.Client.{ExecuteError, io}

abbrev guest_sync :
    {Any : Type 0} → ℤ → Outcome (ExecuteError Any) ℤ → Outcome (ExecuteError Any) (Unit {0})
guest_sync id (ok res) =
    if same_int res id
    then ok tt
    else err (io (record { kind = ErrorKind.invalid_data; message = "QGA sync failed" }))
guest_sync id (err e) = err e
guest_sync id panic = panic
