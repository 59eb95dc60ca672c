-- ===== src/Parser/File.antt =====
-- A schema file as parser/src/lib.rs reads it: its comments taken off, then value by value.
use qapi_rs.Prelude.{suc, ◌≡◌, ap, ◌∙◌, List, ◌∷◌, map, length, All}
use qapi_rs.Parser.{Text, Reader, filter, is_code, strip_line, join, strip_comments, from_string}
use qapi_rs.Parser.Comments.{IsWhole, strip_comments-join}
use qapi_rs.Parser.Values.{IsDocumented, calls, text, answers, AreValues, calls-text}

module _ {V E : Type 0} (r : Reader V E) (Denotes : Text → V → Type 0)
    (doc : IsDocumented r Denotes) where
  -- A file of whole lines, of which those that are neither blank nor a comment, each cut at its
  -- first number sign and with quotes for its apostrophes, are the texts of one or more values,
  -- each starting on a line of its own and without a carriage return: what is left of the file
  -- has every value once, in order, and then its end, where the JSON reader reads each value and
  -- stops at what follows it.
  pub file_values :
      (ls : List Text) (f : Text × V) (fs : List (Text × V))
      → All IsWhole ls
      → join (map strip_line (filter is_code ls)) ≡ text r f fs
      → AreValues r Denotes doc (f ∷ fs)
      → calls r (suc (suc (length fs))) (from_string (strip_comments (join ls))) ≡ answers r f fs
  file_values ls f fs whole code values =
      ap (λ s. calls r (suc (suc (length fs))) (from_string s))
        (strip_comments-join ls whole ∙ code)
      ∙ calls-text r Denotes doc f fs values
