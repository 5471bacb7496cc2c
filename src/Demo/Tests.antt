-- ===== src/Demo/Tests.antt =====
-- The theorems on the demo at concrete lines, and runs of its functions.
use simpwire.Prelude.{
  ltb, text_eq, ◌+◌, ◌%◌, ◌≡◌, refl, true, false, Bool, not, ◌&&◌, ◌==◌, [], ◌∷◌, ◌++◌, List, Text,
  codes, to_string, negsuc, arith, length, some,
}
use simpwire.TcpNodePrivate.State.{State, new_node}
use simpwire.TcpNodePrivate.Delivery.{given}
use simpwire.Demo.Delivery.{handle_then_send, handle_then_send-given}
use simpwire.Demo.Commands.{sets_exit, word, dispatch, handle, is_exit}
use simpwire.TcpNodePrivate.Map.{find}
use simpwire.Demo.Callbacks.{contains, print_received, erase_last}
use simpwire.Demo.Numbers.{
  scan, negative, is_digit, parse_digits, is_space, skip_space, parse_signed, value, stoi,
  to_unsigned,
}
use simpwire.Demo.Loop.{back, program_name, main_loop, session}
use simpwire.Demo.Tokens.{first_token, skip, strtok, tokens, tokenize, is_separator, c_string}
use simpwire.Common.{any}
use simpwire.Store.{ok}
use simpwire.PeerPrivate.{new_peer_private}
use simpwire.TcpNodePrivate.Contracts.{Ends}
use simpwire.TcpNodePrivate.Invariant.{Inv}
use simpwire.TcpNodePrivate.Queued.{Queued}
use simpwire.TcpNodePrivate.Listening.{Listening}
use simpwire.TcpNode.{Step}
use simpwire.TcpNode.Safety.{new_node-Inv}
use simpwire.Samples.{
  easy_network, easy_socket, easy_sleep, easy_ticks, empty_store, first_state, first_peer,
  busy_state, busy_state-Inv,
}
use simpwire.Demo.Tokens.Laws.{join, tokenize-join}
use simpwire.Demo.Console.{out, err, send_word, listen_word, numbered_address}
use simpwire.Demo.Sessions.{session-Inv}
use simpwire.Demo.Effects.{spaces, spelled, handle-Queued, handle-Listening}
use simpwire.Demo.Ending.{
  SaysExit, NoNewline, left, lines_before, main_loop-exits, main_loop-endless,
}
use simpwire.Demo.Received.{print_received-strlen}

two_words : tokenize (codes "  Send 12  ") spaces ≡ codes "Send" ∷ codes "12" ∷ []
unfolding tokenize tokens strtok skip c_string is_separator first_token
two_words = refl

name_of_path : program_name (codes "/usr/bin/demo") ≡ some (codes "demo")
unfolding program_name back tokenize tokens strtok skip c_string is_separator first_token
name_of_path = refl

minus_one_is_a_port : stoi (codes "-1") ≡ value (negsuc 0)
unfolding stoi parse_signed skip_space is_space parse_digits is_digit negative scan
minus_one_is_a_port = refl

port_of_minus_one : to_unsigned 16 (negsuc 0) ≡ 65_535
unfolding to_unsigned
port_of_minus_one = refl

unknown_command :
    handle (codes "send" ∷ []) first_state
    ≡ ok (err (codes "> Error invalid command") ∷ [], first_state)
unfolding handle dispatch word text_eq
unknown_command = refl

text_without_newline : erase_last 10 (104 ∷ 10 ∷ 105 ∷ 10 ∷ []) ≡ 104 ∷ 10 ∷ 105 ∷ []
unfolding erase_last contains
text_without_newline = refl

abbrev two_turns : List (List Step)
two_turns = (Step.connect_thread ∷ []) ∷ (Step.listen_thread ∷ Step.send_thread ∷ []) ∷ []

abbrev is_line : Text → Bool
is_line [] = true
is_line (c ∷ s) = not (c == 10) && is_line s

one_line : (s : Text) → is_line s ≡ true → NoNewline s
one_line [] h = tt
one_line (c ∷ s) h = (ground arith, one_line s (ground arith))

tokenize-join_example :
    tokenize (join 32 (codes "a" ∷ codes "bc" ∷ [])) spaces ≡ codes "a" ∷ codes "bc" ∷ []
unfolding is_separator
tokenize-join_example =
    tokenize-join spaces 32 (codes "a" ∷ codes "bc" ∷ []) refl (λ e. omega (arith, e))
      ((spelled 97 [] refl).0, ((spelled 98 (codes "c") refl).0, tt))
      ((spelled 97 [] refl).1, ((spelled 98 (codes "c") refl).1, tt))

session-Inv_example :
    Ends
      (λ _ t. Inv t)
      (session easy_sleep
        (codes "demo")
        (codes "Connect ::1 80")
        two_turns
        (new_node {I = easy_network} easy_socket any 0 empty_store))
session-Inv_example =
    session-Inv easy_sleep easy_ticks easy_socket 0 empty_store (codes "demo")
      (codes "Connect ::1 80") two_turns (omega arith)

handle-Queued_example :
    Ends
      (λ ls t. (ls ≡ []) × Queued 1 (join 32 (codes "hi" ∷ [])) busy_state t)
      (handle (tokenize (join 32 (send_word ∷ to_string 1 ∷ codes "hi" ∷ [])) spaces) busy_state)
unfolding find
handle-Queued_example =
    handle-Queued 1 first_peer (codes "hi") [] busy_state busy_state-Inv refl (omega arith)
      (spelled 104 (codes "i") refl, tt)

handle-Listening_example :
    Ends
      (λ ls t. (ls ≡ []) × Listening (65_616 % 65_536) any t)
      (handle (tokenize (join 32 (listen_word ∷ to_string 65_616 ∷ [])) spaces) first_state)
unfolding new_node
handle-Listening_example = handle-Listening 65_616 first_state refl (omega arith)

listens : ¬ SaysExit (codes "Listen")
unfolding tokenize tokens strtok skip c_string is_separator first_token
listens (ts, e) = cc

asks_version : ¬ SaysExit (codes "Version")
unfolding tokenize tokens strtok skip c_string is_separator first_token
asks_version (ts, e) = cc

main_loop-exits_example :
    Ends
      (λ r t. (r.1 ≡ ltb 1 2) × Inv t)
      (main_loop easy_sleep two_turns
        (left (lines_before (codes "Listen" ∷ []) (codes "Exit" ++ 10 ∷ [])) [])
        first_state)
unfolding new_node is_exit tokenize tokens strtok skip c_string is_separator sets_exit word text_eq
    first_token
main_loop-exits_example =
    main_loop-exits easy_sleep easy_ticks (codes "Listen" ∷ []) (codes "Exit") [] [] two_turns
      first_state (new_node-Inv easy_socket any 0 empty_store) (omega arith)
      ((one_line (codes "Listen") refl, listens), tt) (one_line (codes "Exit") refl) ([], refl)

main_loop-endless_example :
    Ends
      (λ r t. (r.1 ≡ false) × Inv t)
      (main_loop easy_sleep two_turns (left (lines_before [] (codes "Version")) []) first_state)
unfolding new_node is_exit tokenize tokens strtok skip c_string is_separator sets_exit word text_eq
    first_token
main_loop-endless_example =
    main_loop-endless easy_sleep easy_ticks [] (codes "Version") [] two_turns first_state
      (new_node-Inv easy_socket any 0 empty_store) (omega arith) tt
      (one_line (codes "Version") refl) asks_version

print_received-strlen_example :
    print_received (10 ∷ 0 ∷ []) (some new_peer_private) (codes "hi" ++ 10 ∷ [])
    ≡ out (
        codes "> Received "
        ++ (to_string (length (codes "hi" ++ []) + length (c_string (10 ∷ 0 ∷ [])))
            ++ (codes " bytes from: "
                ++ (numbered_address (some new_peer_private)
                    ++ (codes ": " ++ (codes "hi" ++ []))))))
print_received-strlen_example =
    print_received-strlen (codes "hi") [] (10 ∷ 0 ∷ []) (some new_peer_private) tt
      (spelled 104 (codes "i") refl).1

-- The busy node without anything to send.
abbrev idle_state : State easy_network
idle_state = record busy_state { data_to_send = [] }

idle_state-Inv : Inv idle_state
unfolding new_node
idle_state-Inv = record {
  data_free = refl;
  callback_free = refl;
  core = record {
    listener_lives = busy_state-Inv.core.listener_lives;
    listener_below = busy_state-Inv.core.listener_below;
    owned = busy_state-Inv.core.owned;
    pending = busy_state-Inv.core.pending;
  };
}

handle_then_send-given_example :
    Ends
      (λ _ t.
        (t.store ≡ given 1 2 (join 32 (codes "hi" ∷ [])) idle_state.store) × (t.data_to_send ≡ []))
      (handle_then_send (join 32 (send_word ∷ to_string 1 ∷ codes "hi" ∷ [])) idle_state)
unfolding new_node find new_peer_private
handle_then_send-given_example =
    handle_then_send-given 1 1 2 first_peer (codes "hi") [] idle_state idle_state-Inv refl
      (λ h. (λ e. cc, λ e. cc)) refl (omega arith) (spelled 104 (codes "i") refl, tt) refl refl refl
      (omega arith)
