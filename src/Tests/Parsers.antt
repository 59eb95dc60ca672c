-- ===== src/Tests/Parsers.antt =====
-- Runs of the parser of parser/src/lib.rs, on values that are one letter each.
use qapi_rs.Prelude.{
  String, false, panic, ℕ, ◌≡◌, ◌≢◌, refl, none, some, List, [], ◌∷◌, Outcome, ok, err, arith, All,
  ◌==◌, if◌then◌else◌,
}
use qapi_rs.Parser
use qapi_rs.Parser.{Text, Reader, from_string, strip_comments, is_code, join, lines}
use qapi_rs.Parser.Comments.{IsPlain, strip_comments-IsPlain}
use qapi_rs.Spec.{IoError, ErrorKind}
use qapi_rs.Parser.Repo.{FilePath, QemuFileRepo}
use qapi_rs.Parser.Scopes.{done, including, visit, Restores, visit-Restores}
use qapi_rs.Parser.Comments.{IsWhole}
use qapi_rs.Parser.File.{file_values}
use qapi_rs.Parser.Values.{IsDocumented, calls, at, calls-same_line}

-- A comment, a blank line, and a line of code with a comment behind it.
abbrev schema : Text
schema = b'#' ∷ b'a' ∷ b'\n' ∷ b' ' ∷ b'\n' ∷ 39 ∷ b'b' ∷ b'#' ∷ b'c' ∷ []

strip_comments-IsPlain_example : All IsPlain (34 ∷ b'b' ∷ [])
unfolding strip_comments Parser.lines Parser.is_code Parser.trim_start Parser.trim_end
    Parser.is_whitespace Parser.strip_line Parser.find_hash join
strip_comments-IsPlain_example = strip_comments-IsPlain schema

-- An error is its line and column.
abbrev from_str : Text → Outcome (ℕ × ℕ) ℕ
from_str [] = err (0, 0)
from_str (c ∷ []) = ok c
from_str (c ∷ d ∷ []) = if d == b'\n' then ok c else err (1, 2)
from_str (c ∷ d ∷ w ∷ cs) = if d == b'\n' then err (2, 1) else err (1, 2)

abbrev reader : Reader ℕ (ℕ × ℕ)
reader = record { from_str = from_str; line = λ e. e.0; column = λ e. e.1 }

abbrev Denotes : Text → ℕ → Type 0
Denotes s v = (s ≡ v ∷ []) × (v ≢ b'\n')

reader-IsDocumented : IsDocumented reader Denotes
reader-IsDocumented = record {
  reads = λ s v d. rw d.0;
  reads_line = λ s v d. rw d.0;
  trailing = λ s t more v w d f. ((2, 1), rw (d.0, f.0), rw d.0 (ground (arith, d.1)), refl);
}

-- A comment, a value, a blank line, and a value with a comment behind it.
abbrev file : List Text
file = (b'#' ∷ b'c' ∷ []) ∷ (b'a' ∷ []) ∷ [] ∷ (b'b' ∷ b'#' ∷ b'c' ∷ []) ∷ []

file-IsWhole : All IsWhole file
file-IsWhole = ground arith

file_values_example :
    calls reader 3 (from_string (strip_comments (join file)))
    ≡ some (ok b'a') ∷ some (ok b'b') ∷ none ∷ []
unfolding join Parser.is_code Parser.trim_start Parser.trim_end Parser.is_whitespace
    Parser.strip_line Parser.find_hash
file_values_example =
    file_values reader Denotes reader-IsDocumented file (b'a' ∷ [], b'a') ((b'b' ∷ [], b'b') ∷ [])
      file-IsWhole refl
      (((refl, ground arith), (ground arith, tt)), (((refl, ground arith), (ground arith, tt)), tt))

calls-same_line_example :
    calls reader 3 (at [] (b'a' ∷ b' ' ∷ b'b' ∷ []))
    ≡ some (ok b'a') ∷ some (ok b'a') ∷ some (ok b'a') ∷ []
calls-same_line_example =
    calls-same_line reader 3 [] (b'a' ∷ []) (b' ' ∷ b'b' ∷ []) (1, 2) refl refl refl

-- A file system where only names of two components can be read.
abbrev read_named : List String → Outcome IoError String
read_named [] = err (record { kind = ErrorKind.not_found; message = "" })
read_named (c ∷ []) = err (record { kind = ErrorKind.not_found; message = "" })
read_named (c ∷ d ∷ cs) = ok ""

abbrev read_file : FilePath → Outcome IoError String
read_file p = read_named p.components

read_named-total : (cs : List String) → read_named cs ≢ panic
read_named-total [] e = cc
read_named-total (c ∷ []) e = cc
read_named-total (c ∷ d ∷ cs) e = cc

abbrev named : String → FilePath
named s = record { absolute = false; components = s ∷ [] }

abbrev repository : QemuFileRepo
repository = record { paths = named "qapi" ∷ [] }

visit-Restores_example : Restores repository (
    visit read_file
      (including (named "qapi-schema.json") (including (named "block.json") done done) done)
      repository)
visit-Restores_example =
    visit-Restores read_file (λ p. read_named-total p.components)
      (including (named "qapi-schema.json") (including (named "block.json") done done) done)
      (named "qapi") [] ((λ e. cc), ((λ e. cc), tt, tt), tt)
