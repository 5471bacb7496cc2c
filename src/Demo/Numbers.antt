-- ===== src/Demo/Numbers.antt =====
-- The numbers that src/demo/demo.cpp reads with std::stoi, for an int of 32 bits, and its casts.
use simpwire.Prelude.{
  ℕ, zero, suc, ◌+◌, ◌-◌, ◌*◌, ◌%◌, ◌^◌, Bool, true, false, ◌&&◌, ◌||◌, not, [], ◌∷◌, Text, ◌==◌,
  ltb, leb, if◌then◌else◌, ℤ, pos, negsuc,
}
pub mod RoundTrip

unfoldable pub is_digit : ℕ → Bool
is_digit c = leb 48 c && leb c 57

-- std::isspace
unfoldable pub is_space : ℕ → Bool
is_space c = c == 32 || leb 9 c && leb c 13

-- The number that the digits in front spell behind `n`; what follows is ignored.
unfoldable pub scan : Text → ℕ → ℕ
scan [] n = n
scan (c ∷ s) n = let more = scan s (n * 10 + (c - 48)) in if is_digit c then more else n

unfoldable pub skip_space : Text → Text
skip_space [] = []
skip_space (c ∷ s) = if is_space c then skip_space s else c ∷ s

-- The result of std::stoi, or the exception that it throws.
pub data Parsed : Type 0 where
  value : ℤ → Parsed
  invalid_argument out_of_range : Parsed

-- Digits behind a sign, which says how an absolute value becomes the result.
unfoldable pub parse_digits : (ℕ → Parsed) → Text → Parsed
parse_digits f [] = invalid_argument
parse_digits f (c ∷ s) = if is_digit c then f (scan (c ∷ s) 0) else invalid_argument

unfoldable pub positive : ℕ → Parsed
positive n = if ltb n (2 ^ 31) then value (pos n) else out_of_range

unfoldable pub negative : ℕ → Parsed
negative zero = value (pos 0)
negative (suc n) = if ltb n (2 ^ 31) then value (negsuc n) else out_of_range

unfoldable pub parse_signed : Text → Parsed
parse_signed [] = invalid_argument
parse_signed (c ∷ s) =
    if c == 45
    then parse_digits negative s
    else if c == 43
    then parse_digits positive s
    else parse_digits positive (c ∷ s)

-- std::stoi
unfoldable pub stoi : Text → Parsed
stoi s = parse_signed (skip_space s)

-- A cast of an int to an unsigned type of `w` bits.
unfoldable pub to_unsigned : ℕ → ℤ → ℕ
to_unsigned w (pos n) = n % 2 ^ w
to_unsigned w (negsuc n) = (2 ^ w - suc n % 2 ^ w) % 2 ^ w
