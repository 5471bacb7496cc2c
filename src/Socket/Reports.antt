-- ===== src/Socket/Reports.antt =====
-- What listening and connecting report.
use simpwire.Prelude.{
  ℕ, Bool, true, false, ◌≡◌, sym, refl, none, Text, arith, Bool-cases, inl, inr, ◌==◌, to_string,
}
use simpwire.Common.{IpVersion}
use simpwire.Socket.Os.{Os, Hints}
use simpwire.Socket.State.{Socket, close, set_errno, clear_errno}
use simpwire.Socket.Opening.{
  listen, connect, listen_end, family_of, connect_resolved, connect_address, connect_pending,
  set_non_blocking,
}
use simpwire.Socket.Flags.{Listened, Listens, close-Idle, listen_resolved-Listened}

module _ (os : Os) where
  listen_end-listening :
      (b : Bool) (s : Socket) (w : os.World) → Listened b s → b ≡ (listen_end os b s w).1.listening
  unfolding listen_end set_errno clear_errno
  listen_end-listening true s w h = refl
  listen_end-listening false s w h = sym h.not_listening

  listen-listening :
      (port : ℕ) (ipv : IpVersion) (s : Socket) (w : os.World)
      → (listen os port ipv s w).0 ≡ (listen os port ipv s w).1.listening
  unfolding listen Listens
  listen-listening port ipv s w =
      let s' = (close os s w).1 in
      let w' = (close os s w).2 in
      let hints : Hints = record { family = family_of ipv; passive = true } in
      let (r, w'') = os.getaddrinfo none (to_string port) hints w' in
      elim (Bool-cases (port == 0)) [
        | inl e ↦ rw (e, listen) (sym (close-Idle os s w).not_listening)
        | inr e ↦
            rw (e, listen)
              (listen_end-listening _ _ _
                (listen_resolved-Listened os port r s' w'' (close-Idle os s w)))
      ]

  connect-connected :
      (ip : Text) (port : ℕ) (s : Socket) (w : os.World)
      → (connect os ip port s w).0 ≡ (connect os ip port s w).1.connected
  unfolding connect connect_resolved connect_address connect_pending set_errno clear_errno
      set_non_blocking close
  connect-connected ip port s w = ground arith

  -- What `listen` and `connect` return is what the socket says of itself afterwards, whatever it was
  -- before and whatever the system answers: `isListening` after `listen`, and `isConnected` after
  -- `connect`.
  pub listen-connect-flags :
      (port : ℕ) (ipv : IpVersion) (ip : Text) (s : Socket) (w : os.World)
      → ((listen os port ipv s w).0 ≡ (listen os port ipv s w).1.listening)
        × ((connect os ip port s w).0 ≡ (connect os ip port s w).1.connected)
  listen-connect-flags port ipv ip s w =
      (listen-listening port ipv s w, connect-connected ip port s w)
