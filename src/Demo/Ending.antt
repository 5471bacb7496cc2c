-- ===== src/Demo/Ending.antt =====
-- When the main loop of the demo ends.
use simpwire.Prelude.{
  IsPositive, ltb, text_eq, text_eq_sound, Bool-cases, inl, inr, ◌+◌, ◌<◌, ◌^◌, ◌≡◌, ◌≢◌, refl, sym,
  ap, subst, Bool, true, false, some, none, List, [], ◌∷◌, ◌++◌, Text, ℤ, codes, length, All, arith,
}
use simpwire.ISocket.{ISocket}
use simpwire.TcpNodePrivate.State.{State}
use simpwire.TcpNodePrivate.Contracts.{Ends, Ends-bind, Ends-again, Ends-mono}
use simpwire.TcpNodePrivate.Invariant.{Inv}
use simpwire.TcpNode.{Step}
use simpwire.Demo.Tokens.{tokenize}
use simpwire.Demo.Console.{Line, exit_word}
use simpwire.Demo.Commands.{is_exit, sets_exit, word}
use simpwire.Demo.Loop.{Input, read_line, line_read, getline, words, main_loop}
use simpwire.Demo.Sessions.{total, Ends-turn}

-- 10 is the newline.
abbrev pub NoNewline : Text → Type 0
NoNewline = All λ c. c ≢ 10

-- Lines, with a newline behind each, in front of a text.
abbrev pub lines_before : List Text → Text → Text
lines_before [] rest = rest
lines_before (l ∷ ls) rest = l ++ 10 ∷ lines_before ls rest

-- The first word of a line, up to a space, is "Exit".
abbrev pub SaysExit : Text → Type 0
SaysExit l = (ts : List Text) × (tokenize l (codes " ") ≡ codes "Exit" ∷ ts)

exit_word-is_exit : (ts : List Text) → is_exit (codes "Exit" ∷ ts) ≡ true
unfolding is_exit sets_exit word text_eq
exit_word-is_exit ts = refl

sets_exit-text_eq : (c : Text) → sets_exit (word c) ≡ true → text_eq c exit_word ≡ true
unfolding sets_exit word
sets_exit-text_eq c h = ground arith

is_exit-exit_word :
    (ts : List Text) → is_exit ts ≡ true → (us : List Text) × (ts ≡ codes "Exit" ∷ us)
unfolding is_exit
is_exit-exit_word [] h = cc
is_exit-exit_word (c ∷ ts) h =
    (ts, ap (λ d. d ∷ ts) (text_eq_sound c exit_word (sets_exit-text_eq c h)))

SaysExit-is_exit : (l : Text) → SaysExit l → is_exit (tokenize l (codes " ")) ≡ true
SaysExit-is_exit l (ts, e) = rw e (exit_word-is_exit ts)

says_else-is_exit : (l : Text) → ¬ SaysExit l → is_exit (tokenize l (codes " ")) ≡ false
says_else-is_exit l not_said = elim (Bool-cases (is_exit (tokenize l (codes " ")))) [
  | inl e ↦ absurd (not_said (is_exit-exit_word (tokenize l (codes " ")) e))
  | inr e ↦ e
]

-- What is left of the input, after the command `c`.
abbrev pub left : Text → Text → Input
left rest c = record { rest = rest; at_end = false; command = c }

read_line-newline : (l rest : Text) → NoNewline l → read_line (l ++ 10 ∷ rest) ≡ (l, some rest)
unfolding read_line
read_line-newline [] rest h = refl
read_line-newline (c ∷ l) rest h = ground (arith, read_line-newline l rest h.1, h.0)

read_line-last : (l : Text) → NoNewline l → read_line l ≡ (l, none)
unfolding read_line
read_line-last [] h = refl
read_line-last (c ∷ l) h = ground (arith, read_line-last l h.1, h.0)

getline-line : (l rest c : Text) → NoNewline l → getline (left (l ++ 10 ∷ rest) c) ≡ left rest l
unfolding getline line_read
getline-line l rest c h = ap line_read (read_line-newline l rest h)

-- The stream has met its end, and the string stays what it is.
abbrev ended : Text → Input
ended l = record { rest = []; at_end = true; command = l }

getline-last : (l c : Text) → NoNewline l → getline (left l c) ≡ ended l
unfolding getline line_read
getline-last l c h = ap line_read (read_line-last l h)

getline-ended : (l : Text) → getline (ended l) ≡ ended l
unfolding getline
getline-ended l = refl

module _ {I : ISocket} (sleep_for : ℤ → I.World → ℤ × I.World)
    (ticks : (ms : ℤ) (w : I.World) → IsPositive (sleep_for ms w).0) where
  -- What has to hold where a turn with this input ends the loop, and where the loop goes on.
  abbrev Stop : (List Line × Bool → State I → Type 0) → Input → Type 0
  Stop P next =
      (ls : List Line) (t : State I) → Inv t → is_exit (words next) ≡ true → P (ls, true) t

  abbrev Continue : (List Line × Bool → State I → Type 0) → List (List Step) → Input → Type 0
  Continue P schedule next =
      (ls : List Line) (t : State I)
      → Inv t
      → t.connection_counter + total schedule < 2 ^ 64
      → is_exit (words next) ≡ false
      → Ends (λ r u. P (ls ++ r.0, r.1) u) (main_loop sleep_for schedule next t)

  -- One turn of the loop.
  Ends-getline :
      {P : List Line × Bool → State I → Type 0} (xs : List Step) (schedule : List (List Step))
      (i : Input) (s : State I)
      → Inv s
      → s.connection_counter + total (xs ∷ schedule) < 2 ^ 64
      → Stop P (getline i)
      → Continue P schedule (getline i)
      → Ends P (main_loop sleep_for (xs ∷ schedule) i s)
  unfolding main_loop
  Ends-getline {P} xs schedule i s h fits stop go =
      Ends-turn sleep_for ticks xs schedule (words (getline i)) _ s h fits λ ls t ht room.
        Ends-again (is_exit (words (getline i))) _ _ t (λ x. record { holds = stop ls t ht x })
          λ x. Ends-bind _ (go ls t ht room x) λ r u hu. record { holds = hu }

  Ends-next :
      {P : List Line × Bool → State I → Type 0} (xs : List Step) (schedule : List (List Step))
      (i next : Input) (s : State I)
      → Inv s
      → s.connection_counter + total (xs ∷ schedule) < 2 ^ 64
      → getline i ≡ next
      → Stop P next
      → Continue P schedule next
      → Ends P (main_loop sleep_for (xs ∷ schedule) i s)
  Ends-next {P} xs schedule i next s h fits e stop go =
      Ends-getline xs schedule i s h fits (subst (Stop P) (sym e) stop)
        (subst (Continue P schedule) (sym e) go)

  -- From a state with the invariant, let the input that is left start with lines none of which has
  -- the first word "Exit", and then one that has; let the counter of connections have room for
  -- all steps of the threads, and let every sleep take time. The loop ends with the turn that
  -- reads that line: given any number of turns, it has ended if and only if they are more than the
  -- lines in front of that one.
  pub main_loop-exits :
      (ls : List Text) (l rest c : Text) (schedule : List (List Step)) (s : State I)
      → Inv s
      → s.connection_counter + total schedule < 2 ^ 64
      → All (λ k. NoNewline k × (¬ SaysExit k)) ls
      → NoNewline l
      → SaysExit l
      → Ends
          (λ r t. (r.1 ≡ ltb (length ls) (length schedule)) × Inv t)
          (main_loop sleep_for schedule (left (lines_before ls (l ++ 10 ∷ rest)) c) s)
  unfolding main_loop
  main_loop-exits ls l rest c [] s h fits hs hl e = record { holds = (ground arith, h) }
  main_loop-exits [] l rest c (xs ∷ schedule) s h fits hs hl e =
      Ends-next xs schedule _ (left rest l) s h fits (getline-line l rest c hl)
        (λ ps t ht x. (ground arith, ht))
        λ ps t ht room x.
          let ends : is_exit (tokenize l (codes " ")) ≡ true = SaysExit-is_exit l e in cc
  main_loop-exits (k ∷ ls) l rest c (xs ∷ schedule) s h fits hs hl e =
      Ends-next xs schedule _ (left (lines_before ls (l ++ 10 ∷ rest)) k) s h fits
        (getline-line k (lines_before ls (l ++ 10 ∷ rest)) c hs.0.0)
        (λ ps t ht x.
          let goes_on : is_exit (tokenize k (codes " ")) ≡ false = says_else-is_exit k hs.0.1 in cc)
        λ ps t ht room x.
          Ends-mono (main_loop-exits ls l rest k schedule t ht room hs.1 hl e)
            λ r u (when_ended, hu). (ground (arith, when_ended), hu)

  main_loop-repeats :
      (l : Text) (schedule : List (List Step)) (s : State I)
      → Inv s
      → s.connection_counter + total schedule < 2 ^ 64
      → is_exit (tokenize l (codes " ")) ≡ false
      → Ends (λ r t. (r.1 ≡ false) × Inv t) (main_loop sleep_for schedule (ended l) s)
  unfolding main_loop
  main_loop-repeats l [] s h fits e = record { holds = (refl, h) }
  main_loop-repeats l (xs ∷ schedule) s h fits e =
      Ends-next xs schedule _ (ended l) s h fits (getline-ended l) (λ ps t ht x. cc)
        λ ps t ht room x. main_loop-repeats l schedule t ht room e

  -- From a state with the invariant, if no line of the input that is left has the first word
  -- "Exit", the part behind the last newline included, if the counter of connections has room for
  -- all steps of the threads and every sleep takes time: the loop has not ended after any number of
  -- turns, and in particular not at the end of the input.
  pub main_loop-endless :
      (ls : List Text) (l c : Text) (schedule : List (List Step)) (s : State I)
      → Inv s
      → s.connection_counter + total schedule < 2 ^ 64
      → All (λ k. NoNewline k × (¬ SaysExit k)) ls
      → NoNewline l
      → ¬ SaysExit l
      → Ends
          (λ r t. (r.1 ≡ false) × Inv t)
          (main_loop sleep_for schedule (left (lines_before ls l) c) s)
  unfolding main_loop
  main_loop-endless ls l c [] s h fits hs hl e = record { holds = (refl, h) }
  main_loop-endless [] l c (xs ∷ schedule) s h fits hs hl e =
      let goes_on : is_exit (tokenize l (codes " ")) ≡ false = says_else-is_exit l e in
      Ends-next xs schedule _ (ended l) s h fits (getline-last l c hl) (λ ps t ht x. cc)
        λ ps t ht room x. main_loop-repeats l schedule t ht room goes_on
  main_loop-endless (k ∷ ls) l c (xs ∷ schedule) s h fits hs hl e =
      Ends-next xs schedule _ (left (lines_before ls l) k) s h fits
        (getline-line k (lines_before ls l) c hs.0.0)
        (λ ps t ht x.
          let goes_on : is_exit (tokenize k (codes " ")) ≡ false = says_else-is_exit k hs.0.1 in cc)
        λ ps t ht room x. main_loop-endless ls l k schedule t ht room hs.1 hl e
