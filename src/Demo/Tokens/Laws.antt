-- ===== src/Demo/Tokens/Laws.antt =====
-- Tokens of a text that was joined from words.
use simpwire.Prelude.{
  ℕ, zero, suc, ◌≤◌, ◌≡◌, ◌≢◌, refl, ap, ◌∙◌, true, false, some, List, [], ◌∷◌, ◌++◌, Text, arith,
  length, length-append, All,
}
use simpwire.Demo.Tokens.{is_separator, c_string, skip, first_token, strtok, tokens, tokenize}

-- Words with one separator between any two.
abbrev pub join : ℕ → List Text → Text
join sep [] = []
join sep (t ∷ []) = t
join sep (t ∷ u ∷ ts) = t ++ sep ∷ join sep (u ∷ ts)

module _ (seps : Text) where
  abbrev pub Plain : Text → Type 0
  Plain = All λ c. is_separator seps c ≡ false

  -- A token: not empty, and without a separator.
  abbrev pub IsToken : Text → Type 0
  IsToken t = (t ≢ []) × Plain t

  first_token-Plain :
      (t : Text) (sep : ℕ) (r : Text)
      → Plain t
      → is_separator seps sep ≡ true
      → first_token seps (t ++ sep ∷ r) ≡ (t, r)
  unfolding first_token
  first_token-Plain [] sep r h e = ground arith
  first_token-Plain (c ∷ t) sep r h e = ground (arith, first_token-Plain t sep r h.1 e)

  first_token-last : (t : Text) → Plain t → first_token seps t ≡ (t, [])
  unfolding first_token
  first_token-last [] h = refl
  first_token-last (c ∷ t) h = ground (arith, first_token-last t h.1)

  strtok-first : (t r : Text) → IsToken t → strtok seps (t ++ r) ≡ some (first_token seps (t ++ r))
  unfolding strtok skip
  strtok-first [] r h = absurd (h.0 refl)
  strtok-first (c ∷ t) r h = ground arith

  strtok-last : (t : Text) → IsToken t → strtok seps t ≡ some (t, [])
  unfolding strtok skip
  strtok-last [] h = absurd (h.0 refl)
  strtok-last (c ∷ t) h = ground (arith, first_token-last (c ∷ t) h.1)

  tokens-nil : (fuel : ℕ) → tokens seps fuel [] ≡ []
  unfolding tokens strtok skip
  tokens-nil zero = refl
  tokens-nil (suc fuel) = refl

  tokens-join :
      (sep fuel : ℕ) (ts : List Text)
      → is_separator seps sep ≡ true
      → All IsToken ts
      → length ts ≤ fuel
      → tokens seps fuel (join sep ts) ≡ ts
  unfolding tokens
  tokens-join sep fuel [] e h fits = tokens-nil fuel
  tokens-join sep zero (t ∷ ts) e h fits = absurd (omega arith)
  tokens-join sep (suc fuel) (t ∷ []) e h fits =
      rw (tokens, strtok-last t h.0) (ap (λ us. t ∷ us) (tokens-nil fuel))
  tokens-join sep (suc fuel) (t ∷ u ∷ ts) e h fits =
      rw
        (
          tokens,
          strtok-first t (sep ∷ join sep (u ∷ ts)) h.0,
          first_token-Plain t sep (join sep (u ∷ ts)) h.0.1 e,
        )
        (ap (λ us. t ∷ us) (tokens-join sep fuel (u ∷ ts) e h.1 (omega arith)))

  -- There are no more tokens than characters.
  length-join : (sep : ℕ) (ts : List Text) → All IsToken ts → length ts ≤ length (join sep ts)
  length-join sep [] h = omega arith
  length-join sep ([] ∷ ts) h = absurd (h.0.0 refl)
  length-join sep ((c ∷ t) ∷ []) h = omega arith
  length-join sep ((c ∷ t) ∷ u ∷ ts) h =
      omega (arith, length-append t (sep ∷ join sep (u ∷ ts)), length-join sep (u ∷ ts) h.1)

-- No character is NUL.
abbrev pub NoNul : Text → Type 0
NoNul = All λ c. c ≢ 0

c_string-NoNul : (s : Text) → NoNul s → c_string s ≡ s
unfolding c_string
c_string-NoNul [] h = refl
c_string-NoNul (c ∷ s) h = ground (arith, c_string-NoNul s h.1)

NoNul-append : (s t : Text) → NoNul s → NoNul t → NoNul (s ++ t)
NoNul-append [] t h k = k
NoNul-append (c ∷ s) t h k = (h.0, NoNul-append s t h.1 k)

NoNul-join : (sep : ℕ) (ts : List Text) → sep ≢ 0 → All NoNul ts → NoNul (join sep ts)
NoNul-join sep [] e h = tt
NoNul-join sep (t ∷ []) e h = h.0
NoNul-join sep (t ∷ u ∷ ts) e h =
    NoNul-append t (sep ∷ join sep (u ∷ ts)) h.0 (e, NoNul-join sep (u ∷ ts) e h.1)

-- Words that are not empty and hold neither a separator nor a NUL, joined by one separator each,
-- are the tokens of the joined text.
pub tokenize-join :
    (seps : Text) (sep : ℕ) (ts : List Text)
    → is_separator seps sep ≡ true
    → sep ≢ 0
    → All (IsToken seps) ts
    → All NoNul ts
    → tokenize (join sep ts) seps ≡ ts
unfolding tokenize
tokenize-join seps sep ts e nul h k =
    ap (tokens seps (suc (length (join sep ts))))
      (c_string-NoNul (join sep ts) (NoNul-join sep ts nul k))
    ∙ tokens-join seps sep (suc (length (join sep ts))) ts e h
        (omega (arith, length-join seps sep ts h))
