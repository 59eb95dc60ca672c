-- ===== src/Codec/Feed.antt =====
-- The codec of qapi/src/futures/codec.rs over a whole connection. `Framed` of tokio-util calls
-- `decode` until it asks for more, then appends what the socket gave, and ends its stream at the
-- first error of `decode`: `feed` is that protocol. `decode_all` is the codec called on and on in
-- the same way, also past an error.
use mathlib.Core.List.{append_assoc, append-nil, map-append}
use qapi_rs.Prelude.{
  ℕ, zero, suc, ◌<◌, ◌≡◌, refl, ap, ◌∙◌, List, [], ◌∷◌, ◌++◌, map, arith, length, length-append,
  replicate, any, Bool, true, false, ◌||◌, if◌then◌else◌, Bool-cases, if_true, subst, sym, Option,
  none, some, Outcome, ok, err, panic, map_ok, ◌≢◌, inl, inr,
}
use qapi_rs.Spec.{IoError}
use qapi_rs.Codec.{
  Bytes, Absent, ByteOps, IsDocumented, Json, JsonLinesCodec, Decoded, parse, priv_decode,
  priv_decode_eof, new,
}
use qapi_rs.Codec.Scan.{scan, scan-Absent, scan_line, scan-Absent_rest, scan-append}
use qapi_rs.Codec.Decode.{
  IsSearched, start-IsSearched, whole-IsSearched, IsSearched-append, Yields, priv_decode_first_line,
}

abbrev Frame : Type 0 → Type 0
Frame D = Outcome IoError D

pub record Drained (D : Type 0) : Type 0 where
  pub frames : List (Frame D)
  pub codec : JsonLinesCodec
  pub buf : Bytes

abbrev pub flat : List Bytes → Bytes
flat [] = []
flat (c ∷ cs) = c ++ flat cs

module _ {D : Type 0} where
  abbrev pub is_failure : Frame D → Bool
  is_failure (ok v) = false
  is_failure (err e) = true
  is_failure panic = true

  -- The frames up to the first failure, which is among them.
  abbrev pub up_to_failure : List (Frame D) → List (Frame D)
  up_to_failure [] = []
  up_to_failure (f ∷ fs) = if is_failure f then f ∷ [] else f ∷ up_to_failure fs

module _ {D : Type 0} (x : ByteOps) (json : Json D) where
  abbrev keep : Frame D → Drained D → Drained D
  keep f d = record d { frames = f ∷ d.frames }

  -- What follows a call: no frame ends the round, and a panic ends the task.
  on_frame : Outcome IoError (Option D) → Decoded D → Drained D → Drained D
  on_frame (ok none) d later = record { frames = []; codec = d.codec; buf = d.buf }
  on_frame (ok (some v)) d later = keep (ok v) later
  on_frame (err e) d later = keep (err e) later
  on_frame panic d later = record { frames = panic ∷ []; codec = d.codec; buf = d.buf }

  -- `decode` until it asks for more bytes.
  drain : ℕ → JsonLinesCodec → Bytes → Drained D
  unfolding on_frame
  drain zero c buf = record { frames = []; codec = c; buf = buf }
  drain (suc fuel) c buf =
      let d = priv_decode x json c buf in on_frame d.frame d (drain fuel d.codec d.buf)

  abbrev join : Drained D → Drained D → Drained D
  join d later = record later { frames = d.frames ++ later.frames }

  -- Each chunk of the stream, followed by the calls of `decode`, whatever they give.
  pub decode_all : JsonLinesCodec → Bytes → List Bytes → Drained D
  decode_all c buf [] = record { frames = []; codec = c; buf = buf }
  decode_all c buf (chunk ∷ chunks) =
      let d = drain (suc (length (buf ++ chunk))) c (buf ++ chunk) in
      join d (decode_all d.codec d.buf chunks)

  -- The same of a stream that ends with its first failure.
  on_frame_framed : Outcome IoError (Option D) → Decoded D → Drained D → Drained D
  on_frame_framed (ok none) d later = record { frames = []; codec = d.codec; buf = d.buf }
  on_frame_framed (ok (some v)) d later = keep (ok v) later
  on_frame_framed (err e) d later = record { frames = err e ∷ []; codec = d.codec; buf = d.buf }
  on_frame_framed panic d later = record { frames = panic ∷ []; codec = d.codec; buf = d.buf }

  drain_framed : ℕ → JsonLinesCodec → Bytes → Drained D
  unfolding on_frame_framed
  drain_framed zero c buf = record { frames = []; codec = c; buf = buf }
  drain_framed (suc fuel) c buf =
      let d = priv_decode x json c buf in
      on_frame_framed d.frame d (drain_framed fuel d.codec d.buf)

  -- `Framed`: each read of the socket, followed by the calls of `decode`, up to the first failure.
  pub feed : JsonLinesCodec → Bytes → List Bytes → Drained D
  feed c buf [] = record { frames = []; codec = c; buf = buf }
  feed c buf (chunk ∷ chunks) =
      let d = drain_framed (suc (length (buf ++ chunk))) c (buf ++ chunk) in
      let later = feed d.codec d.buf chunks in if any is_failure d.frames then d else join d later

  -- A reader that is given the whole stream at once: it parses the complete lines.
  abbrev Reads : Bytes → Drained D → Type 0
  Reads stream d = d ≡ record {
    frames = map (parse x json) (scan stream).0;
    codec = record { next_index = length (scan stream).1 };
    buf = (scan stream).1;
  }

  -- A round of `Framed` is the round of the codec up to its first failure, and all of it if there
  -- is none.
  abbrev pub IsCut : Drained D → Drained D → Type 0
  IsCut framed d =
      (framed.frames ≡ up_to_failure d.frames)
      × (any is_failure framed.frames ≡ any is_failure d.frames)
      × (any is_failure d.frames ≡ false → framed ≡ d)

  on_frame-IsCut :
      (r : Outcome IoError (Option D)) (d : Decoded D) (framed later : Drained D)
      → IsCut framed later
      → IsCut (on_frame_framed r d framed) (on_frame r d later)
  unfolding on_frame on_frame_framed
  on_frame-IsCut (ok none) d framed later i = (refl, refl, λ h. refl)
  on_frame-IsCut (ok (some v)) d framed later i =
      (ap (λ fs. ok v ∷ fs) i.0, i.1, λ h. ap (keep (ok v)) (i.2 h))
  on_frame-IsCut (err e) d framed later i = (refl, refl, λ h. cc)
  on_frame-IsCut panic d framed later i = (refl, refl, λ h. cc)

  drain-IsCut :
      (fuel : ℕ) (c : JsonLinesCodec) (buf : Bytes)
      → IsCut (drain_framed fuel c buf) (drain fuel c buf)
  unfolding drain drain_framed
  drain-IsCut zero c buf = (refl, refl, λ h. refl)
  drain-IsCut (suc fuel) c buf =
      let d = priv_decode x json c buf in
      on_frame-IsCut d.frame d _ _ (drain-IsCut fuel d.codec d.buf)

  up_to_failure-append :
      (fs gs : List (Frame D))
      → up_to_failure (fs ++ gs)
        ≡ (if any is_failure fs then up_to_failure fs else fs ++ up_to_failure gs)
  up_to_failure-append [] gs = refl
  up_to_failure-append (ok v ∷ fs) gs = ground (arith, up_to_failure-append fs gs)
  up_to_failure-append (err e ∷ fs) gs = refl
  up_to_failure-append (panic ∷ fs) gs = refl

  any-append :
      (fs gs : List (Frame D)) → any is_failure (fs ++ gs) ≡ any is_failure fs || any is_failure gs
  any-append [] gs = refl
  any-append (f ∷ fs) gs = ground (arith, any-append fs gs)

  join-IsCut :
      (fd d fl l : Drained D)
      → IsCut fd d
      → (any is_failure d.frames ≡ false → IsCut fl l)
      → IsCut (if any is_failure fd.frames then fd else join fd fl) (join d l)
  join-IsCut fd d fl l i later = elim (Bool-cases (any is_failure d.frames)) [
    | inl fails ↦
        rw (i.1, fails)
          (
            i.0 ∙ sym (up_to_failure-append d.frames l.frames ∙ if_true _ _ fails),
            i.1 ∙ rw (any-append d.frames l.frames, fails) refl,
            λ h. ground (arith, h, fails, any-append d.frames l.frames),
          )
    | inr works ↦
        let e : fd ≡ d = i.2 works in
        let j = later works in
        rw (i.1, works)
          (
            rw (up_to_failure-append d.frames l.frames, works, e, j.0) refl,
            rw (any-append d.frames l.frames, any-append fd.frames fl.frames, i.1, j.1) refl,
            λ h.
                ap (λ (c : Drained D). join c fl) e
                ∙ ap (join d) (j.2 (ground (arith, h, works, any-append d.frames l.frames))),
          )
  ]

  pub feed-IsCut :
      (chunks : List Bytes) (c : JsonLinesCodec) (buf : Bytes)
      → IsCut (feed c buf chunks) (decode_all c buf chunks)
  unfolding feed decode_all
  feed-IsCut [] c buf = (refl, refl, λ h. refl)
  feed-IsCut (chunk ∷ chunks) c buf =
      let n = suc (length (buf ++ chunk)) in
      let framed = drain_framed n c (buf ++ chunk) in
      let i = drain-IsCut n c (buf ++ chunk) in
      join-IsCut framed (drain n c (buf ++ chunk)) _ _ i λ works.
        subst (λ d. IsCut (feed framed.codec framed.buf chunks) (decode_all d.codec d.buf chunks))
          (i.2 works) (feed-IsCut chunks framed.codec framed.buf)

  module _ (doc : IsDocumented x) (total : (s : Bytes) → parse x json s ≢ panic) where
    on_frame-map_ok :
        (r : Outcome IoError D) (d : Decoded D) (later : Drained D)
        → r ≢ panic
        → on_frame (map_ok some r) d later ≡ keep r later
    unfolding on_frame
    on_frame-map_ok (ok v) d later h = refl
    on_frame-map_ok (err e) d later h = refl
    on_frame-map_ok panic d later h = absurd (h refl)

    drain-line :
        (fuel : ℕ) (c : JsonLinesCodec) (buf before after : Bytes)
        → Yields x json before after (priv_decode x json c buf)
        → drain (suc fuel) c buf
          ≡ keep
              (parse x json (before ++ b'\n' ∷ []))
              (drain fuel (record { next_index = 0 }) after)
    unfolding drain
    drain-line fuel c buf before after y =
        ap (λ (d : Decoded D). on_frame d.frame d (drain fuel d.codec d.buf)) y
        ∙ on_frame-map_ok (parse x json (before ++ b'\n' ∷ [])) _ _ (total (before ++ b'\n' ∷ []))

    -- Rounds that exceed the bytes of the buffer are enough to take off every line.
    drain-Reads :
        (fuel : ℕ) (c : JsonLinesCodec) (buf : Bytes)
        → length buf < fuel
        → IsSearched c buf
        → Reads buf (drain fuel c buf)
    drain-Reads zero c buf h i = absurd (omega arith)
    drain-Reads (suc fuel) c buf h i = elim (priv_decode_first_line x json doc c buf i) [
      | inl (a, w) ↦
          rw (scan-Absent buf a) (
            unfold drain in ap (λ (d : Decoded D). on_frame d.frame d (drain fuel d.codec d.buf)) w)
      | inr (before, after, a, e, y) ↦
          rw (drain-line fuel c buf before after y, e, scan_line before after a)
            (ap (keep (parse x json (before ++ b'\n' ∷ []))) (
              drain-Reads fuel (record { next_index = 0 }) after
                (omega (arith, ap length e, length-append before (b'\n' ∷ after)))
                (start-IsSearched after)))
    ]

    decode_all-Reads :
        (chunks : List Bytes) (c : JsonLinesCodec) (buf : Bytes)
        → c.next_index ≡ length buf
        → Absent b'\n' buf
        → Reads (buf ++ flat chunks) (decode_all c buf chunks)
    unfolding decode_all
    decode_all-Reads [] c buf e a = rw (append-nil buf, scan-Absent buf a) (ground arith)
    decode_all-Reads (chunk ∷ chunks) c buf e a =
        let rest = (scan (buf ++ chunk)).1 in
        ap
          (λ (d : Drained D).
            let later = decode_all d.codec d.buf chunks in
            record later { frames = d.frames ++ later.frames })
          (drain-Reads (suc (length (buf ++ chunk))) c (buf ++ chunk) (omega arith)
            (IsSearched-append buf chunk (whole-IsSearched c buf e a)))
        ∙ ap
            (λ (later : Drained D). record later {
              frames = map (parse x json) (scan (buf ++ chunk)).0 ++ later.frames;
            })
            (decode_all-Reads chunks (record { next_index = length rest }) rest refl
              (scan-Absent_rest (suc (length (buf ++ chunk))) (buf ++ chunk) (omega arith)))
        ∙ rw (
          ← append_assoc buf chunk (flat chunks),
          scan-append (suc (length (buf ++ chunk))) (buf ++ chunk) (flat chunks) (omega arith),
          map-append,
        )

    -- However the socket cuts the stream into chunks. A new codec that is called on and on delivers
    -- what a reader of the whole stream would: each complete line parsed, in order, once; and it
    -- holds back exactly the unfinished last line, which it has searched. `Framed` delivers the same
    -- up to the first line that does not parse, whose error is its last frame. The byte routines
    -- behave as documented, and the JSON reader does not panic on any line.
    pub feed_chunks :
        (chunks : List Bytes)
        → Reads (flat chunks) (decode_all new [] chunks)
          × ((feed new [] chunks).frames
              ≡ up_to_failure (map (parse x json) (scan (flat chunks)).0))
    unfolding new
    feed_chunks chunks =
        let all = decode_all-Reads chunks new [] refl tt in
        (all, (feed-IsCut chunks new []).0 ∙ ap (λ (d : Drained D). up_to_failure d.frames) all)

  -- The answers to `n` calls of `decode_eof` in a row, each on what the last one left.
  pub eof_calls : ℕ → JsonLinesCodec → Bytes → List (Outcome IoError (Option D))
  eof_calls zero c buf = []
  eof_calls (suc n) c buf =
      let d = priv_decode_eof x json c buf in d.frame ∷ eof_calls n d.codec d.buf

  -- At the end of the stream `Framed` calls `decode_eof` until it gives no frame or an error. The
  -- code never takes the unfinished line off the buffer: however often it is called, each call
  -- parses the same bytes again and gives the same frame.
  pub eof_calls_repeat :
      (n : ℕ) (c : JsonLinesCodec) (b : ℕ) (buf : Bytes)
      → eof_calls n c (b ∷ buf) ≡ replicate n (map_ok some (parse x json (b ∷ buf)))
  unfolding eof_calls priv_decode_eof
  eof_calls_repeat zero c b buf = refl
  eof_calls_repeat (suc n) c b buf =
      ap (◌∷◌ (map_ok some (parse x json (b ∷ buf)))) (eof_calls_repeat n c b buf)
