-- ===== src/Codegen/Paths.antt =====
-- What `include` of codegen/src/lib.rs takes of the standard library: paths from texts and their
-- equality, and the bytes of a text.
use Prim.Native.Char.{Char, code}
use qapi_rs.Prelude.{
  ℕ, ◌+◌, ◌/◌, ◌%◌, String, Bool, true, false, not, ◌&&◌, ◌||◌, List, [], ◌∷◌, ◌++◌, any, ltb, ◌==◌,
  if◌then◌else◌,
}
use qapi_rs.Prelude.Text.{str_eq}
use qapi_rs.Parser.{Text}
use qapi_rs.Parser.Repo.{FilePath}

-- The pieces between slashes.
abbrev onto_first : Char → List String → List String
onto_first c [] = String.◌∷◌ c String.[] ∷ []
onto_first c (s ∷ ss) = String.◌∷◌ c s ∷ ss

abbrev piece_step : Char → List String → List String
piece_step c pieces = if code c == b'/' then String.[] ∷ pieces else onto_first c pieces

unfoldable pieces : String → List String
pieces String.[] = String.[] ∷ []
pieces (String.◌∷◌ c s) = piece_step c (pieces s)

-- No component is empty, and none is `.`, which names the directory that it stands in. (`Path`
-- keeps a `.` at the start of a relative path.)
unfoldable named_pieces : List String → List String
named_pieces [] = []
named_pieces (s ∷ ss) =
    let rest = named_pieces ss in if str_eq s "" || str_eq s "." then rest else s ∷ rest

abbrev is_absolute : String → Bool
is_absolute String.[] = false
is_absolute (String.◌∷◌ c s) = code c == b'/'

-- `Path::new`
unfoldable pub path_of : String → FilePath
unfolding pieces named_pieces
path_of s = record { absolute = is_absolute s; components = named_pieces (pieces s) }

-- `Eq` of paths, by components.
unfoldable pub components_eq : List String → List String → Bool
components_eq [] [] = true
components_eq [] (d ∷ ds) = false
components_eq (c ∷ cs) [] = false
components_eq (c ∷ cs) (d ∷ ds) = str_eq c d && components_eq cs ds

abbrev bool_eq : Bool → Bool → Bool
bool_eq a true = a
bool_eq a false = not a

unfoldable pub path_eq : FilePath → FilePath → Bool
unfolding components_eq
path_eq p q = bool_eq p.absolute q.absolute && components_eq p.components q.components

-- `HashSet::contains`
abbrev pub contains : FilePath → List FilePath → Bool
contains p ps = any (path_eq p) ps

-- The code points of a text, and their bytes in UTF-8.
unfoldable pub chars : String → Text
chars String.[] = []
chars (String.◌∷◌ c s) = code c ∷ chars s

abbrev tail_byte : ℕ → ℕ
tail_byte n = 128 + n % 64

utf8_char : ℕ → Text
utf8_char c =
    if ltb c 128
    then c ∷ []
    else if ltb c 2048
    then (192 + c / 64) ∷ tail_byte c ∷ []
    else if ltb c 65536
    then (224 + c / 4096) ∷ tail_byte (c / 64) ∷ tail_byte c ∷ []
    else (240 + c / 262144) ∷ tail_byte (c / 4096) ∷ tail_byte (c / 64) ∷ tail_byte c ∷ []

unfoldable pub utf8 : Text → Text
unfolding utf8_char
utf8 [] = []
utf8 (c ∷ cs) = utf8_char c ++ utf8 cs
