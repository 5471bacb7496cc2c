-- ===== src/TcpNodePrivate/Safety/Positions.antt =====
-- The position of the connect thread: it pops only what is there.
use simpwire.Prelude.{
  ℕ, Bool, true, false, ◌≡◌, ◌≢◌, refl, [], ◌∷◌, List, Text, arith, ◌==◌, if◌then◌else◌, length,
  ◌++◌,
}
use simpwire.ISocket.{ISocket}
use simpwire.TcpNodePrivate.State.{State, ConnectPc, woken, connect_woken}
use simpwire.TcpNodePrivate.Monad.{notify_listen, notify_connect, notify_send}
use simpwire.TcpNodePrivate.Contracts.{Ends, Frame}
use simpwire.TcpNodePrivate.Invariant.{Core, Pending}
use simpwire.TcpNodePrivate.Sections.{Sect, Sect-Frame}
use simpwire.TcpNodePrivate.Destructor.{stop_connect_thread}

pub top-Pending :
    (running : Bool) (q : List (Text × ℕ))
    → Pending
        (if running
          then if length q == 0 then ConnectPc.waiting else ConnectPc.trying (length q)
          else ConnectPc.finished)
        q
top-Pending true [] = tt
top-Pending false [] = tt
top-Pending true (e ∷ q) = ground arith
top-Pending false (e ∷ q) = tt

pub waiting-Pending :
    (b : Bool) (q : List (Text × ℕ)) → Pending (if b then ConnectPc.at_top else ConnectPc.asleep) q
waiting-Pending true q = tt
waiting-Pending false q = tt

pub trying-Pending : (i : ℕ) (q : List (Text × ℕ)) → q ≢ [] → Pending (ConnectPc.trying i) q
trying-Pending i [] more = absurd (more refl)
trying-Pending i (e ∷ q) more = tt

pub Pending-more :
    (i : ℕ) (pc : ConnectPc) (q : List (Text × ℕ)) → pc ≡ ConnectPc.trying i → Pending pc q → q ≢ []
Pending-more i ConnectPc.not_started [] e p = cc
Pending-more i ConnectPc.at_top [] e p = cc
Pending-more i ConnectPc.waiting [] e p = cc
Pending-more i ConnectPc.asleep [] e p = cc
Pending-more i ConnectPc.finished [] e p = cc
Pending-more i (ConnectPc.trying j) [] e p = absurd p
Pending-more i pc (e ∷ q) h p = cc

-- A longer queue will do.
pub Pending-append :
    (pc : ConnectPc) (q : List (Text × ℕ)) (e : Text × ℕ) → Pending pc q → Pending pc (q ++ e ∷ [])
Pending-append ConnectPc.not_started q e p = tt
Pending-append ConnectPc.at_top q e p = tt
Pending-append ConnectPc.waiting q e p = tt
Pending-append ConnectPc.asleep q e p = tt
Pending-append ConnectPc.finished q e p = tt
Pending-append (ConnectPc.trying n) [] e p = absurd p
Pending-append (ConnectPc.trying n) (x ∷ q) e p = tt

-- A notification moves no attempt on.
Pending-woken : (pc : ConnectPc) (q : List (Text × ℕ)) → Pending pc q → Pending (connect_woken pc) q
Pending-woken ConnectPc.not_started q p = tt
Pending-woken ConnectPc.at_top q p = tt
Pending-woken ConnectPc.waiting q p = tt
Pending-woken ConnectPc.asleep q p = tt
Pending-woken ConnectPc.finished q p = tt
Pending-woken (ConnectPc.trying n) q p = p

Pending-stopped :
    (running : Bool) (pc : ConnectPc) (q : List (Text × ℕ))
    → Pending pc q
    → Pending (if running then connect_woken pc else pc) q
Pending-stopped true pc q p = Pending-woken pc q p
Pending-stopped false pc q p = p

module _ {I : ISocket} where
  Core-pc :
      {s : State I} (pc : ConnectPc) (q : List (Text × ℕ))
      → Core s
      → Pending pc q
      → Core (record s { connect_thread = pc; potential_peers = q })
  Core-pc pc q h p = record {
    listener_lives = h.listener_lives;
    listener_below = h.listener_below;
    owned = h.owned;
    pending = p;
  }

  pub Sect-pc :
      {d c : Bool} {n l : ℕ} {s : State I} (pc : ConnectPc) (q : List (Text × ℕ))
      → Sect d c n l s
      → Pending pc q
      → Sect d c n l (record s { connect_thread = pc; potential_peers = q })
  Sect-pc pc q h p = record {
    data_lock = h.data_lock;
    callback_lock = h.callback_lock;
    counted = h.counted;
    listener = h.listener;
    core = Core-pc pc q h.core p;
  }

  pub woken-Sect :
      {d c : Bool} {n l : ℕ} {s : State I}
      → Sect d c n l s
      → Sect d c n l (record s { connect_thread = connect_woken s.connect_thread })
  woken-Sect {s} h =
      Sect-Frame
        (Sect-pc (connect_woken s.connect_thread) s.potential_peers h
          (Pending-woken s.connect_thread s.potential_peers h.core.pending))
        (ground arith)

  pub notify_connect-Sect :
      {d c : Bool} {n l : ℕ} (s : State I)
      → Sect d c n l s
      → Ends (λ _ t. Sect d c n l t) (notify_connect s)
  unfolding notify_connect
  notify_connect-Sect s h = record { holds = woken-Sect h }

  pub stop_connect_thread-Sect :
      {d c : Bool} {n l : ℕ} (s : State I) → Sect d c n l s → Sect d c n l (stop_connect_thread s)
  unfolding stop_connect_thread
  stop_connect_thread-Sect s h =
      Sect-Frame
        (Sect-pc
          (if s.connect_thread_running then connect_woken s.connect_thread else s.connect_thread)
          s.potential_peers h
          (Pending-stopped s.connect_thread_running s.connect_thread s.potential_peers
            h.core.pending))
        (ground arith)

  pub notify_listen-Frame : (s : State I) → Ends (λ _ t. Frame s t) (notify_listen s)
  unfolding notify_listen
  notify_listen-Frame s = record { holds = ground arith }

  pub notify_listen-Sect :
      {d c : Bool} {n l : ℕ} (s : State I)
      → Sect d c n l s
      → Ends (λ _ t. Sect d c n l t) (notify_listen s)
  unfolding notify_listen
  notify_listen-Sect s h = record {
    holds = Sect-Frame {t = record s { listen_thread = woken s.listen_thread }} h (ground arith);
  }

  pub notify_send-Sect :
      {d c : Bool} {n l : ℕ} (s : State I)
      → Sect d c n l s
      → Ends (λ _ t. Sect d c n l t) (notify_send s)
  unfolding notify_send
  notify_send-Sect s h = record {
    holds = Sect-Frame {t = record s { send_thread = woken s.send_thread }} h (ground arith);
  }
