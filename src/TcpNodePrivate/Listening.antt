-- ===== src/TcpNodePrivate/Listening.antt =====
-- What a request to listen sets.
use simpwire.Prelude.{ℕ, Bool, true, false, not, ◌≡◌, refl, arith}
use simpwire.Common.{IpVersion}
use simpwire.ISocket.{ISocket}
use simpwire.TcpNodePrivate.State.{State}
use simpwire.TcpNodePrivate.Monad.{unlock_data, notify_listen, ◌>>◌}
use simpwire.TcpNodePrivate.Contracts.{Ends, Ends-bind, Ends-when}
use simpwire.TcpNodePrivate.Locks.{Ends-lock_data, Ends-unlock_data}
use simpwire.TcpNodePrivate.Requests.{
  launch_listen_thread, start_listen_thread, change_listener, do_listen,
}

module _ {I : ISocket} where
  -- The node is to listen at a port, in an IP version, and its listen thread runs.
  pub record Listening (port : ℕ) (ipv : IpVersion) (t : State I) : Type 0 where
    pub port_set : t.portnumber ≡ port
    pub version_set : t.ip_version ≡ ipv
    pub enabled : t.listening_enabled ≡ true
    pub running : t.listen_thread_running ≡ true

  -- The same before the thread is started.
  record Asked (d : Bool) (port : ℕ) (t : State I) : Type 0 where
    locked : t.data_access ≡ d
    port_set : t.portnumber ≡ port
    enabled : t.listening_enabled ≡ true

  start-Listening :
      (port : ℕ) (ipv : IpVersion) (t : State I)
      → Asked false port t
      → t.ip_version ≡ ipv
      → Ends (λ _ u. Listening port ipv u) (start_listen_thread t)
  unfolding start_listen_thread launch_listen_thread unlock_data
  start-Listening port ipv t h v =
      Ends-when (not t.listen_thread_running) launch_listen_thread t
        (λ _.
          Ends-lock_data _ (record t { listen_thread_running = true }) h.locked
            (record {
              holds = record {
                port_set = h.port_set;
                version_set = v;
                enabled = h.enabled;
                running = refl;
              };
            }))
        λ e. record {
          port_set = h.port_set;
          version_set = v;
          enabled = h.enabled;
          running = ground (arith, e);
        }

  -- Where the mutex is free, `doListen` ends without a fault, the port, the IP version and
  -- the wish to listen are set, and the listen thread is marked as running.
  pub do_listen-Listening :
      (port : ℕ) (ipv : IpVersion) (s : State I)
      → s.data_access ≡ false
      → Ends (λ _ t. Listening port ipv t) (do_listen port ipv s)
  unfolding do_listen change_listener notify_listen
  do_listen-Listening port ipv s free = Ends-lock_data _ s free (
      Ends-bind {P = λ _ v. Asked true port v} _
        (Ends-when s.listener_available change_listener _
          (λ _. record { holds = record { locked = refl; port_set = refl; enabled = refl } })
          λ _. record { locked = refl; port_set = refl; enabled = refl })
        λ _ v hv.
          Ends-unlock_data (notify_listen >> start_listen_thread)
            (record v { ip_version = ipv; wakeup_listen_thread = true }) hv.locked
            (start-Listening port ipv _
              (record { locked = refl; port_set = hv.port_set; enabled = hv.enabled }) refl))
