-- ===== src/Client/Replies.antt =====
-- The loop of `read_response` in the QMP client of qapi/src/lib.rs, over the lines of the peer.
use mathlib.Core.List.{append_assoc, append-nil}
use qapi_rs.Prelude.{
  ℕ, zero, suc, ◌<◌, ◌≤◌, ◌≡◌, ◌≢◌, refl, ap, sym, ◌∙◌, Option, none, some, List, [], ◌∷◌, ◌++◌,
  Outcome, ok, err, panic, map_err, arith, length, length-append,
}
use qapi_rs.Spec.{IoError, Response, result}
use qapi_rs.Qmp.{QmpMessage, event, response}
use qapi_rs.Codec.{Bytes, Absent}
use qapi_rs.Client.{ExecuteError, qapi}
use qapi_rs.Client.Wire.{Qapi, decode_line}
use qapi_rs.Client.Lines.{decode_line-line, decode_line-shorter}
use qapi_rs.Client.QmpClient.{Client, on_line, read_response, set_inner, queue, enough}

-- Lines, each with the event that it holds; the bytes of such lines.
abbrev pub text : {Event : Type 0} → List (Bytes × Event) → Bytes
text [] = []
text ((line, e) ∷ es) = line ++ b'\n' ∷ text es

abbrev pub events_of : {Event : Type 0} → List (Bytes × Event) → List Event
events_of [] = []
events_of ((line, e) ∷ es) = e ∷ events_of es

abbrev pub EventLines :
    {Any Event C : Type 0}
    → (Bytes → Outcome IoError (QmpMessage Any Event C))
    → List (Bytes × Event)
    → Type 0
EventLines from_slice [] = Unit
EventLines from_slice ((line, e) ∷ es) =
    Absent b'\n' line × (from_slice (line ++ b'\n' ∷ []) ≡ ok (event e)) × EventLines from_slice es

text-length : {Event : Type 0} (es : List (Bytes × Event)) → length es ≤ length (text es)
text-length [] = omega arith
text-length ((line, e) ∷ es) = omega (arith, text-length es, length-append line (b'\n' ∷ text es))

module _ {Any W Event C : Type 0}
    (from_slice : Bytes → Outcome IoError (QmpMessage Any Event C)) where
  on_line-ends :
      (again : Client W Event → Client W Event × Option (Outcome (ExecuteError Any) C))
      (c : Client W Event) (q : Qapi W) (line : Outcome IoError (Option (QmpMessage Any Event C)))
      → ((e : Event) → line ≡ ok (some (event e)) → (again (queue e (set_inner q c))).1 ≢ none)
      → (on_line from_slice again c (q, line)).1 ≢ none
  unfolding on_line
  on_line-ends again c q (ok none) h = λ x. cc
  on_line-ends again c q (ok (some (event e))) h = h e refl
  on_line-ends again c q (ok (some (response r))) h = λ x. cc
  on_line-ends again c q (err e) h = λ x. cc
  on_line-ends again c q panic h = λ x. cc

  read_response-ends :
      (fuel : ℕ) (c : Client W Event)
      → length c.inner.r.unread < fuel
      → (read_response from_slice fuel c).1 ≢ none
  unfolding read_response
  read_response-ends zero c h = absurd (omega arith)
  read_response-ends (suc fuel) c h =
      on_line-ends (read_response from_slice fuel) c (decode_line from_slice c.inner).0
        (decode_line from_slice c.inner).1
        λ e q.
          read_response-ends fuel (queue e (set_inner (decode_line from_slice c.inner).0 c))
            (omega (arith, decode_line-shorter from_slice c.inner (event e) q))

  -- The loop of `read_response` always ends: a round for each byte still to come, and one more,
  -- are enough for an answer, whatever the peer sends.
  pub read_response_total : (c : Client W Event) → (read_response from_slice (enough c) c).1 ≢ none
  read_response_total c = read_response-ends (suc (length c.inner.r.unread)) c (omega arith)

  -- What a call leaves, at the reply: its answer, the events before it behind those in the
  -- queue, and the bytes after it unread.
  abbrev pub Answered :
      Client W Event
      → List Event
      → Response Any C
      → Bytes
      → Client W Event × Option (Outcome (ExecuteError Any) C)
      → Type 0
  Answered c es res rest r =
      (r.1 ≡ some (map_err qapi (result res)))
      × (r.0.event_queue ≡ c.event_queue ++ es)
      × (r.0.inner.r.unread ≡ rest)

  read_response-Answered :
      (fuel : ℕ) (es : List (Bytes × Event)) (line rest : Bytes) (res : Response Any C)
      (c : Client W Event)
      → length es < fuel
      → EventLines from_slice es
      → Absent b'\n' line
      → from_slice (line ++ b'\n' ∷ []) ≡ ok (response res)
      → c.inner.r.unread ≡ text es ++ (line ++ b'\n' ∷ rest)
      → Answered c (events_of es) res rest (read_response from_slice fuel c)
  unfolding read_response on_line
  read_response-Answered zero es line rest res c h v a p u = absurd (omega arith)
  read_response-Answered (suc fuel) [] line rest res c h v a p u =
      rw (read_response, decode_line-line from_slice c.inner line rest u a, p)
        (refl, sym (append-nil c.event_queue), refl)
  read_response-Answered (suc fuel) ((l, e) ∷ es) line rest res c h v a p u =
      let later = text es ++ (line ++ b'\n' ∷ rest) in
      let q : Qapi W = record (c.inner) {
        r = record (c.inner.r) { unread = later };
        buffer = l ++ b'\n' ∷ [];
      } in
      let ih =
        read_response-Answered fuel es line rest res (queue e (set_inner q c)) (omega arith) v.2 a p
          refl in
      rw
        (
          read_response,
          decode_line-line from_slice c.inner l later
              (u ∙ append_assoc l (b'\n' ∷ text es) (line ++ b'\n' ∷ rest)) v.0,
          v.1,
        )
        (ih.0, ih.1 ∙ append_assoc c.event_queue (e ∷ []) (events_of es), ih.2)

  -- A reply on a line of its own behind any number of lines of events: `read_response` answers
  -- with the reply's result, the events stand in the queue in the order in which they came, behind
  -- those that were there, none lost, and the bytes behind the reply are left for the next call.
  pub read_response_separates :
      (es : List (Bytes × Event)) (line rest : Bytes) (res : Response Any C) (c : Client W Event)
      → EventLines from_slice es
      → Absent b'\n' line
      → from_slice (line ++ b'\n' ∷ []) ≡ ok (response res)
      → c.inner.r.unread ≡ text es ++ (line ++ b'\n' ∷ rest)
      → Answered c (events_of es) res rest (read_response from_slice (enough c) c)
  read_response_separates es line rest res c v a p u =
      read_response-Answered (enough c) es line rest res c
        (omega (arith, ap length u, text-length es, length-append (text es) (line ++ b'\n' ∷ rest)))
        v a p u
