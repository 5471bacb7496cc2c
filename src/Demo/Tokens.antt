-- ===== src/Demo/Tokens.antt =====
-- src/demo/demo.cpp, tokenize, over std::strtok.
use simpwire.Prelude.{
  ℕ, zero, suc, Bool, true, false, ◌||◌, Option, none, some, List, [], ◌∷◌, Text, ◌==◌,
  if◌then◌else◌, length,
}
pub mod Laws

unfoldable pub is_separator : Text → ℕ → Bool
is_separator [] c = false
is_separator (x ∷ xs) c = x == c || is_separator xs c

-- What std::strcpy copies: up to the first NUL.
unfoldable pub c_string : Text → Text
c_string [] = []
c_string (c ∷ s) = if c == 0 then [] else c ∷ c_string s

module _ (separators : Text) where
  unfoldable pub skip : Text → Text
  skip [] = []
  skip (c ∷ s) = if is_separator separators c then skip s else c ∷ s

  -- A token up to the next separator, and what follows that separator.
  unfoldable pub first_token : Text → Text × Text
  first_token [] = ([], [])
  first_token (c ∷ s) =
      let (token, rest) = first_token s in
      if is_separator separators c then ([], s) else (c ∷ token, rest)

  -- std::strtok: the next token and the text that the next call goes on with.
  unfoldable pub strtok : Text → Option (Text × Text)
  strtok s = elim (skip s) [ [] ↦ none | c ∷ r ↦ some (first_token (c ∷ r)) ]

  -- The loop of `tokenize`. The fuel bounds the number of tokens.
  unfoldable pub tokens : ℕ → Text → List Text
  tokens zero s = []
  tokens (suc fuel) s = elim (strtok s) [
    | none ↦ []
    | some (token, rest) ↦ token ∷ tokens fuel rest
  ]

unfoldable pub tokenize : Text → Text → List Text
tokenize input separators = tokens separators (suc (length input)) (c_string input)
