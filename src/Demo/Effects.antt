-- ===== src/Demo/Effects.antt =====
-- What the commands Send and Listen do to the node, from the line that the user types.
use simpwire.Prelude.{
  ℕ, ◌%◌, ◌^◌, ◌<◌, Bool, true, false, ◌≡◌, refl, sym, ap, subst, ◌∙◌, some, List, [], ◌∷◌, ◌++◌,
  Text, codes, to_string, text_eq, append_assoc, arith, All, ◌==◌, not, ◌&&◌, pos, ℤ,
}
use simpwire.ISocket.{ISocket}
use simpwire.Store.{ok, fault}
use simpwire.PeerPrivate.{PeerPrivate}
use simpwire.Peer.{Peer}
use simpwire.TcpNodePrivate.State.{State, PeerList}
use simpwire.TcpNodePrivate.Monad.{Action, lock_data, unlock_data}
use simpwire.TcpNodePrivate.Map.{find}
use simpwire.TcpNodePrivate.Contracts.{Ends, Ends-bind}
use simpwire.TcpNodePrivate.Invariant.{Inv}
use simpwire.TcpNodePrivate.Listening.{Listening, do_listen-Listening}
use simpwire.Common.{any}
use simpwire.TcpNodePrivate.Queued.{Queued, send_data-Queued}
use simpwire.TcpNodePrivate.Settings
use simpwire.TcpNode.{Call, perform}
use simpwire.Demo.Tokens.{tokenize, is_separator}
use simpwire.Demo.Tokens.Laws.{join, IsToken, NoNul, tokenize-join}
use simpwire.Demo.Numbers.{to_unsigned, is_digit}
use simpwire.Demo.Numbers.RoundTrip.{stoi-to_string, Digits-to_string, to_string-ne-nil}
use simpwire.Demo.Console.{Line, send_word, listen_word, peer_at}
use simpwire.Demo.Commands.{
  word, handle, dispatch, do_send, do_listen, with_number, with_peer, silent, spaced, drop_last,
}

abbrev pub spaces : Text
spaces = codes " "

-- A word that a user can type: not empty, without a space or a NUL.
abbrev pub IsWord : Text → Type 0
IsWord t = IsToken spaces t × NoNul t

both : (ts : List Text) → All IsWord ts → All (IsToken spaces) ts × All NoNul ts
both [] h = (tt, tt)
both (t ∷ ts) h = let (a, b) = both ts h.1 in ((h.0.0, a), (h.0.1, b))

-- The words of a line are what was typed between the spaces.
typed : (ts : List Text) → All IsWord ts → tokenize (join 32 ts) spaces ≡ ts
unfolding is_separator
typed ts h = let (a, b) = both ts h in tokenize-join spaces 32 ts refl (λ e. omega (arith, e)) a b

-- Digits are neither spaces nor NULs.
digits_alone :
    (s : Text)
    → All (λ c. is_digit c ≡ true) s
    → All (λ c. is_separator spaces c ≡ false) s × NoNul s
unfolding is_digit is_separator
digits_alone [] h = (tt, tt)
digits_alone (c ∷ s) h =
    let (a, b) = digits_alone s h.1 in ((ground (arith, h.0), a), (ground (arith, h.0), b))

pub IsWord-to_string : (n : ℕ) → IsWord (to_string n)
IsWord-to_string n =
    let (a, b) = digits_alone (to_string n) (Digits-to_string n) in ((to_string-ne-nil n, a), b)

abbrev pub is_word : Text → Bool
is_word [] = true
is_word (c ∷ s) = not (c == 32) && not (c == 0) && is_word s

unspaced : (s : Text) → is_word s ≡ true → All (λ c. is_separator spaces c ≡ false) s × NoNul s
unfolding is_separator
unspaced [] h = (tt, tt)
unspaced (c ∷ s) h =
    let (a, b) = unspaced s (ground arith) in ((ground arith, a), (ground arith, b))

pub spelled : (c : ℕ) (s : Text) → is_word (c ∷ s) ≡ true → IsWord (c ∷ s)
spelled c s h = let (a, b) = unspaced (c ∷ s) h in ((λ e. cc, a), b)

-- The spaces that the command puts behind the words are those that stood between them.
drop_last-append : (s : Text) (c : ℕ) → drop_last (s ++ c ∷ []) ≡ s
unfolding drop_last
drop_last-append [] c = refl
drop_last-append (x ∷ []) c = refl
drop_last-append (x ∷ y ∷ s) c = ap (λ r. x ∷ r) (drop_last-append (y ∷ s) c)

spaced-join : (t : Text) (ts : List Text) → spaced (t ∷ ts) ≡ join 32 (t ∷ ts) ++ 32 ∷ []
unfolding spaced
spaced-join t [] = refl
spaced-join t (u ∷ ts) =
    ap (λ r. t ++ 32 ∷ r) (spaced-join u ts)
    ∙ sym (append_assoc t (32 ∷ join 32 (u ∷ ts)) (32 ∷ []))

message : (t : Text) (ts : List Text) → drop_last (spaced (t ∷ ts)) ≡ join 32 (t ∷ ts)
message t ts = ap drop_last (spaced-join t ts) ∙ drop_last-append (join 32 (t ∷ ts)) 32

at_number :
    (k : ℕ) (p : PeerPrivate) (ps : PeerList)
    → k < 2 ^ 31
    → find k ps ≡ some p
    → peer_at (to_unsigned 64 (pos k)) ps ≡ some p
unfolding peer_at to_unsigned
at_number k p ps h e = let same : k % 2 ^ 64 ≡ k = omega arith in rw (peer_at, same, e) refl

module _ {I : ISocket} where
  with_number-to_string :
      (n : ℕ) (f : ℤ → Action I (List Line)) → n < 2 ^ 31 → with_number (to_string n) f ≡ f (pos n)
  unfolding with_number
  with_number-to_string n f h = rw (with_number, stoi-to_string n h) refl

  copied : (s : State I) → s.data_access ≡ false → Settings.all_peers s ≡ ok (s.peers, s)
  unfolding Settings.all_peers lock_data unlock_data
  copied s e =
      subst (λ t. Settings.all_peers t ≡ ok (t.peers, t))
        (ap (λ b. record s { data_access = b }) (sym e)) refl

  with_peer_lem :
      (z : ℤ) (c : Peer → Call) (s : State I)
      → s.data_access ≡ false
      → with_peer z c s ≡ silent (c (peer_at (to_unsigned 64 z) s.peers)) s
  unfolding with_peer
  with_peer_lem z c s e =
      ap
        (λ r. elim r [
          | fault f ↦ fault f
          | ok (ps, t) ↦ silent (c (peer_at (to_unsigned 64 z) ps)) t
        ])
        (copied s e)

  send-Queued :
      (k : ℕ) (p : PeerPrivate) (dat : Text) (s : State I)
      → Inv s
      → find k s.peers ≡ some p
      → Ends (λ ls t. (ls ≡ []) × Queued k dat s t) (silent (Call.send_data (some p) dat) s)
  unfolding perform
  send-Queued k p dat s h e =
      Ends-bind _
        (Ends-bind {P = λ _ t. Queued k dat s t} _ (send_data-Queued k p dat s h e)
          λ _ t q. record { holds = q })
        λ _ t q. record { holds = (refl, q) }

  -- In a node with the invariant, the command "Send", the number of a peer of the map in decimal
  -- and one or more words, with one space between any two, where a word is not empty and has
  -- neither a space nor a NUL, and the number fits an int: the command prints nothing, and the
  -- words, with one space between any two, stand behind the buffers that were queued before, under
  -- that number. The send thread is marked as running, and no function of the user was called.
  pub handle-Queued :
      (k : ℕ) (p : PeerPrivate) (w : Text) (ws : List Text) (s : State I)
      → Inv s
      → find k s.peers ≡ some p
      → k < 2 ^ 31
      → All IsWord (w ∷ ws)
      → Ends
          (λ ls t. (ls ≡ []) × Queued k (join 32 (w ∷ ws)) s t)
          (handle (tokenize (join 32 (send_word ∷ to_string k ∷ w ∷ ws)) spaces) s)
  unfolding handle word dispatch do_send text_eq
  handle-Queued k p w ws s h e small are_words =
      let ts : List Text = send_word ∷ to_string k ∷ w ∷ ws in
      let sent : Text → Peer → Call = λ t pr. Call.send_data pr t in
      let same : handle ts s ≡ silent (Call.send_data (some p) (join 32 (w ∷ ws))) s =
        ap (λ m. m s) (with_number-to_string k _ small)
        ∙ with_peer_lem (pos k) _ s h.data_free
        ∙ ap (λ pr. silent (sent (drop_last (spaced (w ∷ ws))) pr) s)
            (at_number k p s.peers small e)
        ∙ ap (λ t. silent (sent t (some p)) s) (message w ws) in
      rw (typed ts (spelled 83 (codes "end") refl, (IsWord-to_string k, are_words)), same)
        (send-Queued k p (join 32 (w ∷ ws)) s h e)

  listen-Listening :
      (port : ℕ) (s : State I)
      → s.data_access ≡ false
      → Ends (λ ls t. (ls ≡ []) × Listening port any t) (silent (Call.do_listen port any) s)
  unfolding perform
  listen-Listening port s free =
      Ends-bind _
        (Ends-bind {P = λ _ t. Listening port any t} _ (do_listen-Listening port any s free)
          λ _ t q. record { holds = q })
        λ _ t q. record { holds = (refl, q) }

  -- Where the mutex is free, the command "Listen" with a number from 0 to 2^31 - 1 in decimal: it
  -- prints nothing, the port to listen at is set to that number modulo 65536 (also to 0, which the
  -- socket's `listen` refuses), the IP version to `any` and the wish to listen, and the listen thread
  -- is marked as running.
  pub handle-Listening :
      (n : ℕ) (s : State I)
      → s.data_access ≡ false
      → n < 2 ^ 31
      → Ends
          (λ ls t. (ls ≡ []) × Listening (n % 65_536) any t)
          (handle (tokenize (join 32 (listen_word ∷ to_string n ∷ [])) spaces) s)
  unfolding handle word dispatch do_listen text_eq to_unsigned
  handle-Listening n s free small =
      let ts : List Text = listen_word ∷ to_string n ∷ [] in
      let same : handle ts s ≡ silent (Call.do_listen (n % 65_536) any) s =
        ap (λ m. m s) (with_number-to_string n _ small) in
      rw (typed ts (spelled 76 (codes "isten") refl, (IsWord-to_string n, tt)), same)
        (listen-Listening (n % 65_536) s free)
