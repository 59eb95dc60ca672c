-- ===== src/Parser/Comments.antt =====
-- `strip_comments` of parser/src/lib.rs, on lines and on whole texts.
use qapi_rs.Prelude.{
  ℕ, ◌≡◌, ◌≢◌, refl, ap, ◌∙◌, true, Option, none, some, List, [], ◌∷◌, ◌++◌, map, arith, All,
  All-map, ◌==◌, if◌then◌else◌,
}
use qapi_rs.Parser.{
  Text, line_step, lines, is_code, trim_start, trim_end, filter, quote, find_hash, up_to,
  strip_line, join, strip_comments, next_place,
}

-- A code point that a text without comments may have.
abbrev pub IsPlain : ℕ → Type 0
IsPlain c = (c ≢ b'#') × (c ≢ 39)

All-append : (s t : Text) → All IsPlain s → All IsPlain t → All IsPlain (s ++ t)
All-append [] t a b = b
All-append (c ∷ s) t a b = (a.0, All-append s t a.1 b)

up_to_next : (c : ℕ) (s : Text) (o : Option ℕ) → up_to (c ∷ s) (next_place o) ≡ c ∷ up_to s o
up_to_next c s none = refl
up_to_next c s (some i) = refl

strip_line-cons :
    (c : ℕ) (cs : Text)
    → strip_line (c ∷ cs) ≡ (if quote c == b'#' then [] else quote c ∷ strip_line cs)
unfolding strip_line find_hash
strip_line-cons c cs =
    ground (arith, up_to_next (quote c) (map quote cs) (find_hash (map quote cs)))

strip_line-IsPlain : (l : Text) → All IsPlain (strip_line l)
strip_line-IsPlain [] = unfold strip_line in unfold find_hash in tt
strip_line-IsPlain (c ∷ cs) = rw (strip_line-cons c cs) (ground (arith, strip_line-IsPlain cs))

join-IsPlain : (ls : List Text) → All IsPlain (join (map strip_line ls))
unfolding join
join-IsPlain [] = tt
join-IsPlain (l ∷ []) = strip_line-IsPlain l
join-IsPlain (l ∷ m ∷ ls) =
    All-append (strip_line l) _ (strip_line-IsPlain l)
      ((ground arith, ground arith), join-IsPlain (m ∷ ls))

-- No text that is stripped of its comments has a number sign or an apostrophe in it.
pub strip_comments-IsPlain : (s : Text) → All IsPlain (strip_comments s)
unfolding strip_comments
strip_comments-IsPlain s = join-IsPlain (filter is_code (lines s))

-- A line of code as it stands, neither blank nor a comment nor broken.
abbrev IsUnbroken : ℕ → Type 0
IsUnbroken c = IsPlain c × (c ≢ b'\n') × (c ≢ b'\r')

abbrev IsCode : Text → Type 0
IsCode l = All IsUnbroken l × (is_code l ≡ true)

strip_line-id : (l : Text) → All IsUnbroken l → strip_line l ≡ l
strip_line-id [] a = unfold strip_line in unfold find_hash in refl
strip_line-id (c ∷ cs) a =
    rw (strip_line-cons c cs, strip_line-id cs a.1) (ground (arith, a.0.0.0, a.0.0.1))

-- A line without its end.
abbrev pub IsWhole : Text → Type 0
IsWhole l = All (λ c. (c ≢ b'\n') × (c ≢ b'\r')) l

-- A line and what follows its end.
lines-line : (l rest : Text) → IsWhole l → lines (l ++ b'\n' ∷ rest) ≡ l ∷ lines rest
unfolding lines
lines-line [] rest a = refl
lines-line (c ∷ cs) rest a = rw (lines-line cs rest a.1) (ground (arith, a.0.0, a.0.1))

lines-last : (c : ℕ) (cs : Text) → IsWhole (c ∷ cs) → lines (c ∷ cs) ≡ (c ∷ cs) ∷ []
unfolding lines
lines-last c [] a = ground (arith, a.0.0, a.0.1)
lines-last c (d ∷ ds) a =
    ap (line_step c (d ∷ ds)) (lines-last d ds a.1) ∙ ground (arith, a.0.0, a.0.1)

-- A blank line at the end of a text is lost, but it would be left out as any other.
filter-last : (l : Text) → IsWhole l → filter is_code (lines l) ≡ filter is_code (l ∷ [])
filter-last [] a = unfold lines in unfold is_code in unfold trim_start in unfold trim_end in refl
filter-last (c ∷ cs) a = ap (filter is_code) (lines-last c cs a)

filter-join :
    (ls : List Text) → All IsWhole ls → filter is_code (lines (join ls)) ≡ filter is_code ls
unfolding join
filter-join [] a = unfold lines in refl
filter-join (l ∷ []) a = filter-last l a.0
filter-join (l ∷ m ∷ ls) a =
    ap (filter is_code) (lines-line l (join (m ∷ ls)) a.0)
    ∙ ap (λ ms. if is_code l then l ∷ ms else ms) (filter-join (m ∷ ls) a.1)

-- On a text of whole lines: those that are blank or a comment are left out, and each other one is
-- cut at its first number sign, its apostrophes made quotes.
pub strip_comments-join :
    (ls : List Text)
    → All IsWhole ls
    → strip_comments (join ls) ≡ join (map strip_line (filter is_code ls))
unfolding strip_comments
strip_comments-join ls a = ap (λ ms. join (map strip_line ms)) (filter-join ls a)

map-strip_line : (ls : List Text) → All IsCode ls → map strip_line (filter is_code ls) ≡ ls
map-strip_line [] v = refl
map-strip_line (l ∷ ls) v = rw (v.0.1, strip_line-id l v.0.0, map-strip_line ls v.1)

-- A text of lines of code, each with no number sign, no apostrophe and no carriage return and
-- none of them blank, is left as it is.
strip_comments-code : (ls : List Text) → All IsCode ls → strip_comments (join ls) ≡ join ls
strip_comments-code ls v =
    strip_comments-join ls (All-map (λ l c. All-map (λ d u. (u.1, u.2)) l c.0) ls v)
    ∙ ap join (map-strip_line ls v)
