-- ===== src/Client/QgaClient.antt =====
-- `qga_impl` of qapi/src/lib.rs: the blocking guest agent client. Its loop in `read_response`
-- returns in its first round on every path.
use qapi_rs.Prelude.{
  Option, none, some, Outcome, ok, err, panic, map_err, ◌↔◌, ◌≡◌, arith, if◌then◌else◌,
}
use qapi_rs.Prelude.Int.{ℤ, same_int, same_int_iff}
use qapi_rs.Spec.{IoError, ErrorKind, Response, result, Execute}
use qapi_rs.Codec.{Bytes}
use qapi_rs.Client.{ExecuteError, qapi, io}
use qapi_rs.Client.Wire
use qapi_rs.Client.Wire.{Reader, Qapi, Writer, decode_line, encode_line}
use qapi_rs.Client.QmpClient.{Never}

-- The struct `Qga`.
pub record Client (W : Type 0) : Type 0 where
  pub inner : Qapi W

module _ {W : Type 0} where
  -- `Qga::new`
  abbrev pub new : Qapi W → Client W
  new inner = record { inner = inner }

  -- `from_stream`: `buffered` is a `BufReader` over a clone of the socket.
  abbrev from_stream : (W → Reader) → W → Client W
  from_stream buffered s = new (Wire.new (buffered s) s)

  -- `into_inner`, `inner` and `inner_mut`, with what is done through it: the stream, of two halves.
  abbrev into_inner : Client W → Reader × W
  into_inner c = (c.inner.r, c.inner.w)

  abbrev inner : Client W → Reader × W
  inner c = (c.inner.r, c.inner.w)

  abbrev inner_mut : {A : Type 0} → (Reader × W → (Reader × W) × A) → Client W → Client W × A
  inner_mut f c =
      let (halves, a) = f (c.inner.r, c.inner.w) in
      (record c { inner = record (c.inner) { r = halves.0; w = halves.1 } }, a)

  abbrev set_inner : Qapi W → Client W → Client W
  set_inner q c = record c { inner = q }

  unfoldable pub write_command :
      {Args : Type 0}
      → Writer W (Execute Args Never)
      → Args
      → Client W
      → Client W × Outcome IoError (Unit {0})
  write_command x args c =
      let (inner, r) = Wire.write_command x args c.inner in (set_inner inner c, r)

unfoldable pub reply :
    {Any C : Type 0} → Outcome IoError (Option (Response Any C)) → Outcome (ExecuteError Any) C
reply (err e) = err (io e)
reply panic = panic
reply (ok none) =
    err (io (record { kind = ErrorKind.unexpected_eof; message = "expected command response" }))
reply (ok (some r)) = map_err qapi (result r)

module _ {Any W C : Type 0} (from_slice : Bytes → Outcome IoError (Response Any C)) where
  unfoldable pub read_response : Client W → Client W × Outcome (ExecuteError Any) C
  unfolding reply
  read_response c = let (q, line) = decode_line from_slice c.inner in (set_inner q c, reply line)

  unfoldable pub after_write :
      Client W × Outcome IoError (Unit {0}) → Client W × Outcome (ExecuteError Any) C
  after_write (c, ok done) = read_response c
  after_write (c, err e) = (c, err (io e))
  after_write (c, panic) = (c, panic)

  -- `execute`
  unfoldable pub execute :
      {Args : Type 0}
      → Writer W (Execute Args Never)
      → Args
      → Client W
      → Client W × Outcome (ExecuteError Any) C
  unfolding after_write
  execute x args c = after_write (write_command x args c)

compare_sync :
    {Any : Type 0} → ℤ → Outcome (ExecuteError Any) ℤ → Outcome (ExecuteError Any) (Unit {0})
compare_sync id (ok r) =
    if same_int r id
    then ok tt
    else err
        (io (record { kind = ErrorKind.invalid_data; message = "guest-sync handshake failed" }))
compare_sync id (err e) = err e
compare_sync id panic = panic

unfoldable pub compared :
    {Any W : Type 0}
    → ℤ
    → Client W × Outcome (ExecuteError Any) ℤ
    → Client W × Outcome (ExecuteError Any) (Unit {0})
unfolding compare_sync
compared id (c, r) = (c, compare_sync id r)

compare_sync_iff :
    {Any : Type 0} (id : ℤ) (r : Outcome (ExecuteError Any) ℤ)
    → (compare_sync id r ≡ ok tt) ↔ (r ≡ ok id)
unfolding compare_sync
compare_sync_iff id (ok r) = ground (arith, same_int_iff r id)
compare_sync_iff id (err e) = ((λ h. cc), (λ h. cc))
compare_sync_iff id panic = ((λ h. cc), (λ h. cc))

-- `guest_sync`: the peer must answer with the number that it was sent. `guest_sync` is the
-- command's constructor, over an `i64`.
module _ {Any W Args : Type 0} (from_slice : Bytes → Outcome IoError (Response Any ℤ)) where
  unfoldable pub guest_sync :
      Writer W (Execute Args Never)
      → (ℤ → Args)
      → ℤ
      → Client W
      → Client W × Outcome (ExecuteError Any) (Unit {0})
  unfolding compared
  guest_sync x guest_sync_args id c = compared id (execute from_slice x (guest_sync_args id) c)

  -- The handshake succeeds exactly when the command that it sends is answered with the very number
  -- that was sent.
  pub guest_sync_iff :
      (x : Writer W (Execute Args Never)) (guest_sync_args : ℤ → Args) (id : ℤ) (c : Client W)
      → ((guest_sync x guest_sync_args id c).1 ≡ ok tt)
        ↔ ((execute from_slice x (guest_sync_args id) c).1 ≡ ok id)
  unfolding guest_sync
  guest_sync_iff x guest_sync_args id c =
      compare_sync_iff id (execute from_slice x (guest_sync_args id) c).1
