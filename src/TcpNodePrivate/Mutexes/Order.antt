-- ===== src/TcpNodePrivate/Mutexes/Order.antt =====
-- The code takes the two mutexes in one order, but for the notification that listening has stopped.
use simpwire.Prelude.{Bool, true, false, ◌≡◌, refl, none, some, List, [], ◌∷◌, ◌++◌, All, arith}
use simpwire.TcpNodePrivate.Mutexes.{data_access, callback_access, Op, lock, unlock}
use simpwire.TcpNodePrivate.Mutexes.Programs.{
  Function, under, notification, notifications, notification_locked, notification_stopped, Activity,
  start_locks, wait_locks, locks, program, request, set_callback, do_listen, connect_to,
  send_queued, send_refused, start_listener, stop_listener, wait, listen_serve, connect_front,
  pop_front, connect_failed, connected, send_process, disconnect_all,
}
use simpwire.TcpNodePrivate.Mutexes.Progress.{Follows, Ordered}

-- What is done while the mutexes are held as `d` and `c` say, and leaves them so.
abbrev pub Fits : Bool → Bool → List Op → Type 0
Fits d c p = Follows d c d c p

abbrev pub FunctionFits : Bool → Bool → Function → Type 0
FunctionFits d c none = Unit {0}
FunctionFits d c (some f) = Fits d c f

Follows-append :
    (a b d' c' d c : Bool) (p q : List Op)
    → Follows a b d c p
    → Follows d' c' a b q
    → Follows d' c' d c (p ++ q)
Follows-append a b d' c' d c [] q h k = rw (h.0, h.1) k
Follows-append a b d' c' d c (lock data_access ∷ p) q h k =
    (h.0, h.1, Follows-append a b d' c' true c p q h.2 k)
Follows-append a b d' c' d c (lock callback_access ∷ p) q h k =
    (h.0, Follows-append a b d' c' d true p q h.1 k)
Follows-append a b d' c' d c (unlock data_access ∷ p) q h k =
    (h.0, Follows-append a b d' c' false c p q h.1 k)
Follows-append a b d' c' d c (unlock callback_access ∷ p) q h k =
    (h.0, Follows-append a b d' c' d false p q h.1 k)

-- A function of the user may do, of the two mutexes, only what keeps the order where it is called;
-- none is called when listening has stopped.
abbrev pub Permitted : Activity → Type 0
Permitted (send_refused f) = FunctionFits true true f
Permitted (start_listener f) = FunctionFits true false f
Permitted (stop_listener f) = f ≡ none
Permitted (listen_serve fs) = All (FunctionFits true false) fs
Permitted (connect_failed f) = FunctionFits false true f
Permitted (connected f) = FunctionFits false true f
Permitted (send_process waits fs) = All (FunctionFits true false) fs
Permitted a = Unit {0}

under_data-Fits : (p : List Op) → Fits true false p → Fits false false (under data_access p)
under_data-Fits p h = (
  refl,
  refl,
  Follows-append true false false false true false p (unlock data_access ∷ []) h (ground arith),
)

under_callback-Fits :
    (d : Bool) (p : List Op) → Fits d true p → Fits d false (under callback_access p)
under_callback-Fits d p h =
    (refl, Follows-append d true d false d true p (unlock callback_access ∷ []) h (ground arith))

notification-Fits : (f : Function) → FunctionFits true false f → Fits true false (notification f)
unfolding notification
notification-Fits none h = ground arith
notification-Fits (some f) h =
    under_callback-Fits true (unlock callback_access ∷ (f ++ lock callback_access ∷ [])) (
      refl,
      Follows-append true false true true true false f (lock callback_access ∷ []) h (ground arith),
    )

notifications-Fits :
    (fs : List Function) → All (FunctionFits true false) fs → Fits true false (notifications fs)
unfolding notifications
notifications-Fits [] h = ground arith
notifications-Fits (f ∷ fs) h =
    Follows-append true false true false true false (notification f) (notifications fs)
      (notification-Fits f h.0) (notifications-Fits fs h.1)

locked-Fits :
    (d : Bool) (f : Function) → FunctionFits d true f → Fits d false (notification_locked f)
unfolding notification_locked
locked-Fits d none h = ground arith
locked-Fits d (some f) h = under_callback-Fits d f h

start-Fits : (starts : Bool) → Fits false false (start_locks starts)
unfolding start_locks
start-Fits true = ground arith
start-Fits false = ground arith

wait-Fits : (waits : Bool) → Fits true false (wait_locks waits)
unfolding wait_locks
wait-Fits true = ground arith
wait-Fits false = ground arith

brief : Fits false false (under data_access [])
brief = under_data-Fits [] (ground arith)

locks-Fits : (a : Activity) → Permitted a → Fits false false (locks a)
unfolding locks notification_stopped
locks-Fits request h = brief
locks-Fits set_callback h = under_callback-Fits false [] (ground arith)
locks-Fits (do_listen starts) h =
    Follows-append false false false false false false (under data_access []) _ brief
      (start-Fits starts)
locks-Fits (connect_to starts) h =
    Follows-append false false false false false false (under data_access []) _ brief
      (start-Fits starts)
locks-Fits send_queued h = brief
locks-Fits (send_refused f) h = under_data-Fits _ (locked-Fits true f h)
locks-Fits (start_listener f) h = under_data-Fits _ (notification-Fits f h)
locks-Fits (stop_listener none) h =
    under_data-Fits (under callback_access []) (under_callback-Fits true [] (ground arith))
locks-Fits (stop_listener (some f)) h = cc
locks-Fits wait h = brief
locks-Fits (listen_serve fs) h = under_data-Fits _ (notifications-Fits fs h)
locks-Fits connect_front h = brief
locks-Fits pop_front h = brief
locks-Fits (connect_failed f) h = locked-Fits false f h
locks-Fits (connected f) h =
    Follows-append false false false false false false (under data_access []) _ brief
      (locked-Fits false f h)
locks-Fits (send_process waits fs) h = under_data-Fits _ (
    Follows-append true false true false true false (wait_locks waits) (notifications fs)
      (wait-Fits waits) (notifications-Fits fs h))
locks-Fits disconnect_all h = brief

pub program-Ordered :
    (activities : List Activity)
    → All Permitted activities
    → Ordered false false (program activities)
unfolding program
program-Ordered [] h = ground arith
program-Ordered (a ∷ rest) h =
    Follows-append false false false false false false (locks a) (program rest) (locks-Fits a h.0)
      (program-Ordered rest h.1)
