-- ===== src/Parser.antt =====
-- `Parser` of parser/src/lib.rs: comments taken off a schema's text, and the values of the text one
-- by one. A text is its code points in `strip_comments` and its bytes in the iterator, which
-- slices it; serde_json's reader, with the line and column of its errors, is a parameter.
pub mod Comments
pub mod Repo
pub mod Scopes
pub mod Slices
pub mod Values
pub mod File
use qapi_rs.Prelude.{
  ℕ, zero, suc, ◌+◌, ◌-◌, Bool, true, false, not, ◌&&◌, ◌||◌, Option, none, some, List, [], ◌∷◌,
  ◌++◌, map, Outcome, ok, err, panic, length, take, drop, leb, ◌==◌, if◌then◌else◌,
}

abbrev pub Text : Type 0
Text = List ℕ

-- `str::lines`: a line ends at a line feed, with a carriage return right before it.
abbrev pub starts_with : ℕ → Text → Bool
starts_with d [] = false
starts_with d (c ∷ cs) = c == d

abbrev onto_line : ℕ → List Text → List Text
onto_line c [] = (c ∷ []) ∷ []
onto_line c (l ∷ ls) = (c ∷ l) ∷ ls

abbrev pub line_step : ℕ → Text → List Text → List Text
line_step c cs ls =
    if c == b'\n'
    then [] ∷ ls
    else if (c == b'\r') && starts_with b'\n' cs
    then ls
    else onto_line c ls

unfoldable pub lines : Text → List Text
lines [] = []
lines (c ∷ cs) = line_step c cs (lines cs)

-- `char::is_whitespace`
abbrev between : ℕ → ℕ → ℕ → Bool
between low high c = leb low c && leb c high

unfoldable pub is_whitespace : ℕ → Bool
is_whitespace c =
    between 9 13 c
    || (c == 32)
    || (c == 133)
    || (c == 160)
    || (c == 5760)
    || between 8192 8202 c
    || between 8232 8233 c
    || (c == 8239)
    || (c == 8287)
    || (c == 12288)

-- `str::trim`
unfoldable pub trim_start : Text → Text
trim_start [] = []
trim_start (c ∷ cs) = let rest = trim_start cs in if is_whitespace c then rest else c ∷ cs

abbrev onto_end : ℕ → Text → Text
onto_end c [] = if is_whitespace c then [] else c ∷ []
onto_end c (d ∷ ds) = c ∷ d ∷ ds

unfoldable pub trim_end : Text → Text
trim_end [] = []
trim_end (c ∷ cs) = onto_end c (trim_end cs)

abbrev trim : Text → Text
trim s = trim_end (trim_start s)

abbrev is_nil : Text → Bool
is_nil [] = true
is_nil (c ∷ cs) = false

-- The filter of `strip_comments`.
unfoldable pub is_code : Text → Bool
is_code l = not (starts_with b'#' (trim l)) && not (is_nil (trim l))

abbrev pub filter : (Text → Bool) → List Text → List Text
filter p [] = []
filter p (l ∷ ls) = let rest = filter p ls in if p l then l ∷ rest else rest

-- `s.replace("'", "\"")`
abbrev pub quote : ℕ → ℕ
quote c = if c == 39 then 34 else c

abbrev pub next_place : Option ℕ → Option ℕ
next_place none = none
next_place (some n) = some (suc n)

-- `s.find('#')`, and the slice up to it.
unfoldable pub find_hash : Text → Option ℕ
find_hash [] = none
find_hash (c ∷ cs) = if c == b'#' then some 0 else next_place (find_hash cs)

abbrev pub up_to : Text → Option ℕ → Text
up_to s none = s
up_to s (some i) = take i s

unfoldable pub strip_line : Text → Text
strip_line l = let s = map quote l in up_to s (find_hash s)

-- `lines.join("\n")`
unfoldable pub join : List Text → Text
join [] = []
join (l ∷ []) = l
join (l ∷ m ∷ ls) = l ++ b'\n' ∷ join (m ∷ ls)

unfoldable pub strip_comments : Text → Text
strip_comments s = join (map strip_line (filter is_code (lines s)))

-- The struct `Parser`.
pub record Parser : Type 0 where
  pub data_ : Text
  pub pos : ℕ
  pub eof : Bool

unfoldable pub from_string : Text → Parser
from_string s = record { data_ = s; pos = 0; eof = false }

-- serde_json: the reader of a whole text, and where its errors stand.
pub record Reader (V E : Type 0) : Type 0 where
  pub from_str : Text → Outcome E V
  pub line : E → ℕ
  pub column : E → ℕ

-- A slice of the text; out of range it panics.
unfoldable pub slice : ℕ → ℕ → Text → Option Text
slice low high s =
    if leb low high && leb high (length s) then some (take (high - low) (drop low s)) else none

abbrev pub sum_lines : List Text → ℕ
sum_lines [] = 0
sum_lines (l ∷ ls) = length l + 1 + sum_lines ls

module _ {V E : Type 0} (r : Reader V E) where
  open r use {from_str, line, column}

  -- The value in front of the error, up to its column.
  pub read_piece : Parser → ℕ → Option Text → Parser × Option (Outcome E V)
  read_piece p count none = (p, some panic)
  read_piece p count (some str) = (record p { pos = p.pos + count }, some (from_str str))

  pub on_error : Parser → Text → E → Parser × Option (Outcome E V)
  unfolding read_piece
  on_error p rest e =
      if (line e == 0) || (column e == 0)
      then (p, some (err e))
      else (let count = sum_lines (take (line e - 1) (lines rest)) in
          read_piece p count (slice p.pos (p.pos + count + column e - 1) p.data_))

  on_result : Parser → Text → Outcome E V → Parser × Option (Outcome E V)
  unfolding on_error
  on_result p rest (ok v) = (record p { eof = true }, some (ok v))
  on_result p rest (err e) = on_error p rest e
  on_result p rest panic = (p, some panic)

  on_rest : Parser → Option Text → Parser × Option (Outcome E V)
  unfolding on_result
  on_rest p none = (p, some panic)
  on_rest p (some rest) = on_result p rest (from_str rest)

  -- `Iterator::next`
  unfoldable pub next : Parser → Parser × Option (Outcome E V)
  unfolding on_rest
  next p = if p.eof then (p, none) else on_rest p (slice p.pos (length p.data_) p.data_)
