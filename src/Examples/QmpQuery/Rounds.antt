-- ===== src/Examples/QmpQuery/Rounds.antt =====
-- The loop of examples/src/bin/qmp_query.rs: what it prints of what its peer sends.
use mathlib.Core.List.{append_assoc, append-nil}
use qapi_rs.Prelude.{
  ◌≡◌, refl, ap, sym, ◌∙◌, String, Option, some, List, [], ◌∷◌, ◌++◌, map, Outcome, ok, map_ok,
  map_err, length,
}
use qapi_rs.Spec.{IoError, Response, Execute, result}
use qapi_rs.Qmp.{QmpMessage, response}
use qapi_rs.Codec.{Bytes, Absent}
use qapi_rs.Client.{qapi, io_error_of_execute}
use qapi_rs.Client.Wire.{Writer}
use qapi_rs.Client.QmpClient.{Client, Never, execute, nop}
use qapi_rs.Client.Replies.{text, events_of, EventLines}
use qapi_rs.Client.Handshake.{IsWriter, execute-Answered, map_answer-some}
use qapi_rs.Examples.{expect_answer}
use qapi_rs.Examples.QmpQuery.{Commands, Shows, Reads, event_line, round, rounds}

-- What a peer sends between two commands: lines of events, then the line of a reply.
pub record Exchange (Any Event C : Type 0) : Type 0 where
  pub events : List (Bytes × Event)
  pub line : Bytes
  pub reply : Response Any C

abbrev pub bytes_of : {Any Event C : Type 0} → Exchange Any Event C → Bytes → Bytes
bytes_of ex rest = text ex.events ++ (ex.line ++ b'\n' ∷ rest)

-- The exchange is read as what it stands for, and its reply is a success with the value.
abbrev pub Gives :
    {Any Event C : Type 0}
    → (Bytes → Outcome IoError (QmpMessage Any Event C))
    → Exchange Any Event C
    → C
    → Type 0
Gives from_slice ex v =
    EventLines from_slice ex.events
    × Absent b'\n' ex.line
    × (from_slice (ex.line ++ b'\n' ∷ []) ≡ ok (response ex.reply))
    × (result ex.reply ≡ ok v)

abbrev pub GiveAll :
    {Any Event C : Type 0}
    → (Bytes → Outcome IoError (QmpMessage Any Event C))
    → List (Exchange Any Event C)
    → Type 0
GiveAll from_slice [] = Unit
GiveAll {C = C} from_slice (ex ∷ exs) = ((v : C) × Gives from_slice ex v) × GiveAll from_slice exs

abbrev pub bytes_of_all : {Any Event C : Type 0} → List (Exchange Any Event C) → Bytes → Bytes
bytes_of_all [] rest = rest
bytes_of_all (ex ∷ exs) rest = bytes_of ex (bytes_of_all exs rest)

abbrev pub events_of_all : {Any Event C : Type 0} → List (Exchange Any Event C) → List Event
events_of_all [] = []
events_of_all (ex ∷ exs) = events_of ex.events ++ events_of_all exs

map-append : {A B : Type 0} (f : A → B) (xs ys : List A) → map f (xs ++ ys) ≡ map f xs ++ map f ys
map-append f [] ys = refl
map-append f (x ∷ xs) ys = ap (λ (zs : List _). f x ∷ zs) (map-append f xs ys)

pub expect_answer-ok :
    {E S A B : Type 0} (p : S × Option (Outcome E A)) (a : A) (k : S → A → Option B)
    → p.1 ≡ some (ok a)
    → expect_answer p k ≡ k p.0 a
unfolding expect_answer
expect_answer-ok (s, o) a k e = rw e refl

module _ {Any Event Version Caps Status VersionInfo Args : Type 0}
    (shows : Shows Any Version Status Event)
    (reads : Reads Any Event Version Caps Status VersionInfo)
    (x : Writer Bytes (Execute Args Never)) (json : Execute Args Never → Bytes)
    (commands : Commands Args) (wr : IsWriter x json) where
  -- The events that are to be printed, behind what was printed.
  abbrev pub Prints : List String → List Event → Bytes → Client Bytes Event × List String → Type 0
  Prints out es rest (d, printed) =
      (printed ≡ out ++ map (event_line shows reads x commands) es)
      × (d.event_queue ≡ [])
      × (d.inner.r.unread ≡ rest)

  round-Prints :
      (ex : Exchange Any Event VersionInfo) (v : VersionInfo) (rest : Bytes)
      (c : Client Bytes Event) (out : List String)
      → Gives reads.version ex v
      → c.inner.r.unread ≡ bytes_of ex rest
      → (d : Client Bytes Event × List String) × (round shows reads x commands c out ≡ some d)
        × Prints out (c.event_queue ++ events_of ex.events) rest d
  unfolding round nop expect_answer io_error_of_execute
  round-Prints ex v rest c out (es, a, p, gives) u =
      let q = execute reads.version x commands.query_version c in
      let (answer, written) =
        execute-Answered x json reads.version commands.query_version ex.events ex.line rest ex.reply
          c wr es a p u in
      let replied : q.1 ≡ some (ok v) = answer.0 ∙ ap (λ r. some (map_err qapi r)) gives in
      (
        (
          record (q.0) { event_queue = [] },
          out ++ map (event_line shows reads x commands) q.0.event_queue,
        ),
        rw
            (map_answer-some (λ r. map_ok (λ _. tt) (map_err io_error_of_execute r)) q (ok v)
              replied)
            refl,
        (ap (λ fs. out ++ map (event_line shows reads x commands) fs) answer.1, refl, answer.2),
      )

  -- The lines of a second round behind those of the first.
  lines-join :
      (out : List String) (q es all : List Event)
      → let f = event_line shows reads x commands in
        (out ++ map f (q ++ es)) ++ map f all ≡ out ++ map f (q ++ (es ++ all))
  lines-join out q es all =
      let f = event_line shows reads x commands in
      append_assoc out (map f (q ++ es)) (map f all)
      ∙ ap (λ zs. out ++ zs)
          (sym (map-append f (q ++ es) all) ∙ ap (λ zs. map f zs) (append_assoc q es all))

  pub rounds-Prints :
      (ex : Exchange Any Event VersionInfo) (exs : List (Exchange Any Event VersionInfo))
      (rest : Bytes) (c : Client Bytes Event) (out : List String)
      → GiveAll reads.version (ex ∷ exs)
      → c.inner.r.unread ≡ bytes_of_all (ex ∷ exs) rest
      → (d : Client Bytes Event × List String) × (rounds shows reads x commands
            (length (ex ∷ exs))
            c
            out
          ≡ some d)
        × Prints out (c.event_queue ++ events_of_all (ex ∷ exs)) rest d
  unfolding rounds
  rounds-Prints ex [] rest c out ((v, g), _) u =
      let (d, e, (printed, queue, left)) = round-Prints ex v rest c out g u in
      (d, rw (rounds, e) refl, (rw (append-nil (events_of ex.events)) printed, queue, left))
  rounds-Prints ex (ex' ∷ exs) rest c out ((v, g), gs) u =
      let f = event_line shows reads x commands in
      let (d, e, (printed, queue, left)) =
        round-Prints ex v (bytes_of_all (ex' ∷ exs) rest) c out g u in
      let (d', e', (printed', queue', left')) = rounds-Prints ex' exs rest d.0 d.1 gs left in
      let all = events_of_all (ex' ∷ exs) in
      (
        d',
        rw (rounds, e) e',
        (
          printed'
              ∙ ap (λ qs. d.1 ++ map f (qs ++ all)) queue
              ∙ ap (λ o. o ++ map f all) printed
              ∙ lines-join out c.event_queue (events_of ex.events) all,
          queue',
          left',
        ),
      )
