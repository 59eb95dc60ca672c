-- ===== src/Client/Stream.antt =====
-- `mod stream` of qapi/src/lib.rs: two halves as one connection. `Read`, `BufRead` and `Write` of the
-- halves are parameters.
use qapi_rs.Prelude.{ℕ, Outcome}
use qapi_rs.Spec.{IoError}
use qapi_rs.Codec.{Bytes}

record Stream (R W : Type 0) : Type 0 where
  r : R
  w : W

module _ {R W : Type 0} where
  -- `Stream::new` and `into_inner`
  abbrev new : R → W → Stream R W
  new r w = record { r = r; w = w }

  abbrev into_inner : Stream R W → R × W
  into_inner s = (s.r, s.w)

  -- The accessors, and what is done through the mutable ones.
  abbrev get_ref_read : Stream R W → R
  get_ref_read s = s.r

  abbrev get_ref_write : Stream R W → W
  get_ref_write s = s.w

  abbrev get_mut_read : {A : Type 0} → (R → R × A) → Stream R W → Stream R W × A
  get_mut_read f s = let (r, a) = f s.r in (record s { r = r }, a)

  abbrev get_mut_write : {A : Type 0} → (W → W × A) → Stream R W → Stream R W × A
  get_mut_write f s = let (w, a) = f s.w in (record s { w = w }, a)

  -- What is read comes from the one half, what is written goes to the other.
  abbrev read :
      (ℕ → R → R × Outcome IoError Bytes) → ℕ → Stream R W → Stream R W × Outcome IoError Bytes
  read half n = get_mut_read (half n)

  abbrev fill_buf :
      (R → R × Outcome IoError Bytes) → Stream R W → Stream R W × Outcome IoError Bytes
  fill_buf half = get_mut_read half

  abbrev consume : (ℕ → R → R) → ℕ → Stream R W → Stream R W
  consume half amt s = record s { r = half amt s.r }

  abbrev write :
      (Bytes → W → W × Outcome IoError ℕ) → Bytes → Stream R W → Stream R W × Outcome IoError ℕ
  write half buf = get_mut_write (half buf)

  abbrev flush :
      (W → W × Outcome IoError (Unit {0})) → Stream R W → Stream R W × Outcome IoError (Unit {0})
  flush half = get_mut_write half
