-- ===== src/Demo/Received.antt =====
-- What the demo prints of received data.
use simpwire.Prelude.{
  ℕ, ◌+◌, ◌≡◌, ◌≢◌, refl, ap, ◌∙◌, true, false, [], ◌∷◌, ◌++◌, codes, to_string, length, All, arith,
}
use simpwire.ISocket.{Bytes}
use simpwire.Peer.{Peer}
use simpwire.Demo.Console.{Line, out, numbered_address}
use simpwire.Demo.Tokens.{c_string}
use simpwire.Demo.Callbacks.{contains, erase_last, strlen, print_received}

contains-none : (c : ℕ) (xs : Bytes) → All (λ x. x ≢ c) xs → contains c xs ≡ false
unfolding contains
contains-none c [] h = refl
contains-none c (x ∷ xs) h = ground (arith, contains-none c xs h.1, h.0)

contains-append : (c : ℕ) (xs ys : Bytes) → contains c (xs ++ c ∷ ys) ≡ true
unfolding contains
contains-append c [] ys = ground arith
contains-append c (x ∷ xs) ys = ground (arith, contains-append c xs ys)

-- What is erased is the last occurrence, and nothing else.
erase_last-append :
    (c : ℕ) (xs ys : Bytes) → All (λ y. y ≢ c) ys → erase_last c (xs ++ c ∷ ys) ≡ xs ++ ys
unfolding erase_last
erase_last-append c [] ys h = ground (arith, contains-none c ys h)
erase_last-append c (x ∷ xs) ys h =
    ground (arith, contains-append c xs ys, erase_last-append c xs ys h)

length-c_string-append :
    (xs ys : Bytes)
    → All (λ x. x ≢ 0) xs
    → length (c_string (xs ++ ys)) ≡ length xs + length (c_string ys)
unfolding c_string
length-c_string-append [] ys h = omega arith
length-c_string-append (x ∷ xs) ys h = ground (arith, length-c_string-append xs ys h.1, h.0)

-- Data that has a newline, with no newline behind it and no NUL in the rest: the last newline is
-- left out of what is printed, and the number of bytes that is printed is theirs and that of what
-- the memory holds behind them, up to its first NUL.
pub print_received-strlen :
    (xs ys beyond : Bytes) (pr : Peer)
    → All (λ y. y ≢ 10) ys
    → All (λ x. x ≢ 0) (xs ++ ys)
    → print_received beyond pr (xs ++ 10 ∷ ys)
      ≡ out (
          codes "> Received "
          ++ (to_string (length (xs ++ ys) + length (c_string beyond))
              ++ (codes " bytes from: " ++ (numbered_address pr ++ (codes ": " ++ (xs ++ ys))))))
unfolding print_received strlen
print_received-strlen xs ys beyond pr h k =
    let shown : Bytes → ℕ → Line = λ dat n. out (
      codes "> Received "
      ++ (to_string n
          ++ (codes " bytes from: " ++ (numbered_address pr ++ (codes ": " ++ dat))))) in
    ap (λ dat. shown dat (strlen dat beyond)) (erase_last-append 10 xs ys h)
    ∙ ap (shown (xs ++ ys)) (length-c_string-append (xs ++ ys) beyond k)
