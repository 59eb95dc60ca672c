-- ===== src/Examples.antt =====
-- The programs of examples/src/bin. A socket, what its peer sends, and what serde_json reads and
-- writes are parameters; so is how a value is printed. `none` is a panic.
pub mod QmpQuery
pub mod GuestInfo
pub mod Tokio
use qapi_rs.Prelude.{Option, none, some, Outcome, ok, err, panic}

-- `expect` and `unwrap`, with what follows.
unfoldable pub expect : {E A B : Type 0} → Outcome E A → (A → Option B) → Option B
expect (ok a) k = k a
expect (err e) k = none
expect panic k = none

-- The same of a call of a client. A call always has an answer.
unfoldable pub expect_answer :
    {E S A B : Type 0} → S × Option (Outcome E A) → (S → A → Option B) → Option B
expect_answer (s, some (ok a)) k = k s a
expect_answer (s, some (err e)) k = none
expect_answer (s, some panic) k = none
expect_answer (s, none) k = none

-- `args().nth(1).expect(…)`
unfoldable pub argument : {A B : Type 0} → Option A → (A → Option B) → Option B
argument none k = none
argument (some a) k = k a
