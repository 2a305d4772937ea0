-- ===== src/World.antt =====
-- The state that the threads of the server share, as one record: the session objects by address, the
-- users, the workers with their rooms and queues (server/src/room/RoomWorker.h), the manager's map from
-- rooms to workers (server/src/room/RoomManager.h), the jobs for the database thread
-- (server/src/db/DBJob.h) and the events for the main thread (server/src/server/Server.h).
-- Each handler of an event is one step: the locks of the source are held for single calls only, and
-- interleavings finer than an event are not modelled.
use cpp_epoll_chat.Base.{ℕ, List, [], ◌∷◌, ◌++◌, Bool, true, none, some, ◌==◌, if◌then◌else◌}
use cpp_epoll_chat.Base.Map.{find, assign}
use cpp_epoll_chat.Room.{Room}
use cpp_epoll_chat.Session.{Session}
use cpp_epoll_chat.User.{UserManager}
use cpp_epoll_chat.RoomEvent.{
  RoomEvent, MainEvent, MainEventType, disconnect, enable_epoll_out, disable_epoll_out,
}

pub data WorkerType : Type 0 where
  room lobby : WorkerType

pub record RoomWorker : Type 0 where
  pub worker_id : ℕ
  pub type : WorkerType
  pub rooms : List (ℕ × Room)
  pub event_queue : List RoomEvent

pub data DbJobType : Type 0 where
  save_message load_history create_room find_account create_account : DbJobType

pub data DbStatus : Type 0 where
  success not_found duplicate error : DbStatus

-- The closures that the source gives to a job: none, or one that holds the event it interrupts.
pub data OnResult : Type 0 where
  no_callback : OnResult
  db_create_room db_load_messages : RoomEvent → OnResult

pub record DbJob : Type 0 where
  pub type : DbJobType
  pub params : List (List ℕ)
  pub on_result : OnResult

-- `padding` is what the memory holds in the padding of the packets that are built, and `fault` says that
-- a thread was left by an exception or read through a null pointer.
pub record World : Type 0 where
  pub heap : ℕ → Session
  pub users : UserManager
  pub workers : List (ℕ × RoomWorker)
  pub room_to_worker : List (ℕ × ℕ)
  pub room_worker_num : ℕ
  pub main_events : List MainEvent
  pub job_queue : List DbJob
  pub padding : ℕ
  pub fault : Bool

abbrev pub fails : World → World
fails w = record w { fault = true }

abbrev pub update : (ℕ → Session) → ℕ → Session → ℕ → Session
update heap address s a = if address == a then s else heap a

-- The rooms that worker `k` owns, and the world in which it owns others.
unfoldable pub rooms_of : ℕ → World → List (ℕ × Room)
rooms_of k w = elim (find k w.workers) [ none ↦ [] | some x ↦ x.rooms ]

unfoldable pub put_rooms : ℕ → List (ℕ × Room) → World → World
put_rooms k rooms w = record w {
  workers = elim (find k w.workers) [
    | none ↦ w.workers
    | some x ↦ assign k (record x { rooms = rooms }) w.workers
  ];
}

unfoldable pub type_of : ℕ → World → WorkerType
type_of k w = elim (find k w.workers) [ none ↦ room | some x ↦ x.type ]

-- `RoomWorker::post_event`, on the worker that `room_workers_.at(k)` finds or throws over.
unfoldable pub post_event : ℕ → RoomEvent → World → World
post_event k e w = elim (find k w.workers) [
  | none ↦ fails w
  | some x ↦ record w {
    workers = assign k (record x { event_queue = x.event_queue ++ (e ∷ []) }) w.workers;
  }
]

-- `DBWorker::post_job`.
unfoldable pub post_job : DbJob → World → World
post_job job w = record w { job_queue = w.job_queue ++ (job ∷ []) }

-- `Server::request_enable_epollout` and its two kin.
unfoldable pub post_main_event : MainEventType → ℕ → World → World
post_main_event type fd w = record w {
  main_events = w.main_events ++ (record { type = type; fd = fd } ∷ []);
}

unfoldable pub request_enable_epollout : ℕ → World → World
unfolding post_main_event
request_enable_epollout = post_main_event enable_epoll_out

unfoldable pub request_disable_epollout : ℕ → World → World
unfolding post_main_event
request_disable_epollout = post_main_event disable_epoll_out

unfoldable pub request_close_session : ℕ → World → World
unfolding post_main_event
request_close_session = post_main_event disconnect
