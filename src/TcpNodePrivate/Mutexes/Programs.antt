-- ===== src/TcpNodePrivate/Mutexes/Programs.antt =====
-- src/TcpNodePrivate.cpp: what each piece of the code does with the two mutexes. A function of the
-- user that is called stands there as the list of what it does with them itself.
use simpwire.Prelude.{Bool, Option, none, some, List, [], ◌∷◌, ◌++◌, if◌then◌else◌}
use simpwire.TcpNodePrivate.Mutexes.{Mutex, data_access, callback_access, Op, lock, unlock}

-- A user's function, if one is set.
abbrev pub Function : Type 0
Function = Option (List Op)

abbrev pub under : Mutex → List Op → List Op
under m body = lock m ∷ (body ++ unlock m ∷ [])

-- How the listen thread and the send thread call back: the mutex of the callbacks is given up for
-- the call.
unfoldable pub notification : Function → List Op
notification none = under callback_access []
notification (some f) =
    under callback_access (unlock callback_access ∷ (f ++ lock callback_access ∷ []))

unfoldable pub notifications : List Function → List Op
notifications [] = []
notifications (f ∷ fs) = notification f ++ notifications fs

-- How the connect thread and sendData call back: under the mutex of the callbacks.
unfoldable pub notification_locked : Function → List Op
notification_locked none = under callback_access []
notification_locked (some f) = under callback_access f

-- How the listen thread calls back when it has stopped listening: the mutex of the data is given up
-- for the call, while that of the callbacks is held.
unfoldable pub notification_stopped : Function → List Op
notification_stopped none = under callback_access []
notification_stopped (some f) =
    under callback_access (unlock data_access ∷ (f ++ lock data_access ∷ []))

-- The pieces: requests of the user, and what the turns of the threads consist of.
pub data Activity : Type 0 where
  request : Activity  -- a method that only takes the mutex of the data
  set_callback : Activity
  do_listen connect_to : (starts : Bool) → Activity
  send_queued : Activity
  send_refused : Function → Activity
  start_listener stop_listener : Function → Activity
  wait : Activity
  listen_serve : List Function → Activity
  connect_front pop_front : Activity
  connect_failed connected : Function → Activity
  send_process : (waits : Bool) → List Function → Activity
  disconnect_all : Activity

-- _startListenThreadIfNotRunning
unfoldable pub start_locks : Bool → List Op
start_locks starts = if starts then under data_access [] else []

-- The send thread gives the mutex up for its wait, which takes and gives up the mutex itself.
unfoldable pub wait_locks : Bool → List Op
wait_locks waits =
    if waits then unlock data_access ∷ (under data_access [] ++ lock data_access ∷ []) else []

-- The setters of the user's functions.
abbrev pub setter_locks : List Op
setter_locks = under callback_access []

abbrev pub do_listen_locks : Bool → List Op
do_listen_locks starts = under data_access [] ++ start_locks starts

abbrev pub connect_to_locks : Bool → List Op
connect_to_locks starts = under data_access [] ++ start_locks starts

-- sendData to a peer that the map holds, and to one that it does not hold.
abbrev pub send_data_locks : List Op
send_data_locks = under data_access []

abbrev pub refused_locks : Function → List Op
refused_locks f = under data_access (notification_locked f)

abbrev pub start_listener_locks : Function → List Op
start_listener_locks f = under data_access (notification f)

abbrev pub stop_listener_locks : Function → List Op
stop_listener_locks f = under data_access (notification_stopped f)

abbrev pub listen_serve_locks : List Function → List Op
listen_serve_locks fs = under data_access (notifications fs)

abbrev pub connect_front_locks : List Op
connect_front_locks = under data_access []

abbrev pub pop_front_locks : List Op
pop_front_locks = under data_access []

abbrev pub connect_failed_locks : Function → List Op
connect_failed_locks f = notification_locked f

abbrev pub connected_locks : Function → List Op
connected_locks f = under data_access [] ++ notification_locked f

abbrev pub send_process_locks : Bool → List Function → List Op
send_process_locks waits fs = under data_access (wait_locks waits ++ notifications fs)

abbrev pub disconnect_all_locks : List Op
disconnect_all_locks = under data_access []

unfoldable pub locks : Activity → List Op
locks request = under data_access []
locks set_callback = setter_locks
locks (do_listen starts) = do_listen_locks starts
locks (connect_to starts) = connect_to_locks starts
locks send_queued = send_data_locks
locks (send_refused f) = refused_locks f
locks (start_listener f) = start_listener_locks f
locks (stop_listener f) = stop_listener_locks f
locks wait = under data_access []
locks (listen_serve fs) = listen_serve_locks fs
locks connect_front = connect_front_locks
locks pop_front = pop_front_locks
locks (connect_failed f) = connect_failed_locks f
locks (connected f) = connected_locks f
locks (send_process waits fs) = send_process_locks waits fs
locks disconnect_all = disconnect_all_locks

-- One activity after the other.
unfoldable pub program : List Activity → List Op
program [] = []
program (a ∷ rest) = locks a ++ program rest
