-- ===== src/Demo/Numbers/RoundTrip.antt =====
-- A number is read back from its decimal print.
use simpwire.Prelude.{
  ℕ, zero, suc, ◌+◌, ◌/◌, ◌%◌, ◌^◌, ◌<◌, ◌≡◌, ◌≢◌, ◌∙◌, true, false, [], ◌∷◌, Text, to_string,
  to_string_fuel, All, Bool-cases, inl, inr, arith, ltb, ap, ◌≤◌, Bool, pos,
}
use simpwire.Demo.Numbers.{
  is_digit, is_space, scan, skip_space, value, out_of_range, parse_digits, positive, parse_signed,
  stoi,
}

-- Reading the digits of `n` gives `n`.
scan-to_string_fuel :
    (fuel n : ℕ) (rest : Text) → n < fuel → scan (to_string_fuel fuel n rest) 0 ≡ scan rest n
unfolding scan is_digit to_string_fuel
scan-to_string_fuel zero n rest h = absurd (omega arith)
scan-to_string_fuel (suc fuel) n rest h =
    ground (arith, scan-to_string_fuel fuel (n / 10) ((48 + n % 10) ∷ rest))

-- A print starts with a digit, or with what it stands in front of.
starts_with_digit : Text → Bool
starts_with_digit [] = false
starts_with_digit (c ∷ s) = is_digit c

to_string_fuel-first :
    (fuel n : ℕ) (rest : Text) → n < fuel → starts_with_digit (to_string_fuel fuel n rest) ≡ true
unfolding is_digit to_string_fuel starts_with_digit
to_string_fuel-first zero n rest h = absurd (omega arith)
to_string_fuel-first (suc fuel) n rest h =
    ground (arith, to_string_fuel-first fuel (n / 10) ((48 + n % 10) ∷ rest))

stoi-positive : (s : Text) → starts_with_digit s ≡ true → stoi s ≡ positive (scan s 0)
unfolding stoi skip_space is_space parse_signed parse_digits is_digit starts_with_digit
stoi-positive [] h = cc
stoi-positive (c ∷ s) h = ground arith

-- Every number that fits an int is read back from its decimal print.
pub stoi-to_string : (n : ℕ) → n < 2 ^ 31 → stoi (to_string n) ≡ value (pos n)
unfolding to_string positive scan
stoi-to_string n h =
    stoi-positive (to_string n) (to_string_fuel-first (suc n) n [] (omega arith))
    ∙ ap positive (scan-to_string_fuel (suc n) n [] (omega arith))
    ∙ ground arith

-- A larger one is refused.
pub stoi-to_string-refused : (n : ℕ) → 2 ^ 31 ≤ n → stoi (to_string n) ≡ out_of_range
unfolding to_string positive scan
stoi-to_string-refused n h =
    stoi-positive (to_string n) (to_string_fuel-first (suc n) n [] (omega arith))
    ∙ ap positive (scan-to_string_fuel (suc n) n [] (omega arith))
    ∙ ground arith

Digits-to_string_fuel :
    (fuel n : ℕ) (rest : Text)
    → All (λ c. is_digit c ≡ true) rest
    → All (λ c. is_digit c ≡ true) (to_string_fuel fuel n rest)
unfolding is_digit to_string_fuel
Digits-to_string_fuel zero n rest h = h
Digits-to_string_fuel (suc fuel) n rest h = elim (Bool-cases (ltb n 10)) [
  | inl small ↦ rw (small, to_string_fuel) (ground arith, h)
  | inr large ↦
      rw (large, to_string_fuel)
        (Digits-to_string_fuel fuel (n / 10) ((48 + n % 10) ∷ rest) (ground arith, h))
]

pub Digits-to_string : (n : ℕ) → All (λ c. is_digit c ≡ true) (to_string n)
unfolding to_string
Digits-to_string n = Digits-to_string_fuel (suc n) n [] tt

not_empty : (s : Text) → starts_with_digit s ≡ true → s ≢ []
unfolding starts_with_digit
not_empty [] h = cc
not_empty (c ∷ s) h = λ e. cc

pub to_string-ne-nil : (n : ℕ) → to_string n ≢ []
unfolding to_string
to_string-ne-nil n = not_empty (to_string n) (to_string_fuel-first (suc n) n [] (omega arith))
