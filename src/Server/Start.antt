-- ===== src/Server/Start.antt =====
-- The state that the constructors of `Server`, `RoomManager` and `RoomWorker` set up
-- (server/src/server/Server.cpp, server/src/room/RoomManager.cpp, server/src/room/RoomWorker.cpp).
use cpp_epoll_chat.Base.{ℕ, zero, suc, ◌+◌, ◌-◌, ◌^◌, ◌%◌, refl, List, [], ◌∷◌, false}
use cpp_epoll_chat.Base.Map.{find, emplace, AllValues, AllValues-emplace}
use cpp_epoll_chat.Protocol.{Command}
use cpp_epoll_chat.Room.{new_room}
use cpp_epoll_chat.Room.Capacity.{new_room-IsValid}
use cpp_epoll_chat.RoomManager.Plans.{lobby_room_id}
use cpp_epoll_chat.RoomManager.Routing.{lobby_worker_id}
use cpp_epoll_chat.RoomWorker.WellFormed.{IsWellFormed, WorkerValid}
use cpp_epoll_chat.RoomWorker.{max_lobby_sessions}
use cpp_epoll_chat.Server.{Server}
use cpp_epoll_chat.Server.Matched.{IsValid}
use cpp_epoll_chat.Session.{Session}
use cpp_epoll_chat.World.{World, RoomWorker, WorkerType, room, lobby}

unfoldable pub new_worker : ℕ → WorkerType → RoomWorker
new_worker worker_id type = record {
  worker_id = worker_id;
  type = type;
  rooms = elim type [
    | room ↦ []
    | lobby ↦ (lobby_room_id, new_room lobby_room_id max_lobby_sessions) ∷ []
  ];
  event_queue = [];
}

-- The loop for the workers with rooms, from the count `i` on.
unfoldable pub add_workers : ℕ → ℕ → List (ℕ × RoomWorker) → List (ℕ × RoomWorker)
unfolding new_worker
add_workers zero i workers = workers
add_workers (suc left) i workers =
    let worker_id = (i + 2) % 2 ^ 16 in
    add_workers left (i + 1) (emplace worker_id (new_worker worker_id room) workers)

-- The lobby's worker is built with the lobby's room id for its own. `heap` is any memory, and
-- `room_worker_num` what the library says of the hardware.
unfoldable pub new_world : ℕ → (ℕ → Session) → ℕ → World
unfolding add_workers new_worker
new_world room_worker_num heap padding = record {
  heap = heap;
  users = record { users = []; fd_to_user_id = [] };
  workers =
      add_workers (room_worker_num - 1) 0
        (emplace lobby_worker_id (new_worker lobby_room_id lobby) []);
  room_to_worker = emplace lobby_room_id lobby_worker_id [];
  room_worker_num = room_worker_num;
  main_events = [];
  job_queue = [];
  padding = padding;
  fault = false;
}

unfoldable pub new_server : {I : Type 0} → World → I → ℕ → ℕ → Command → Server I
new_server world interest listener eventfd garbage = record {
  world = world;
  session_manager = record { sessions = []; allocated = 0 };
  interest = interest;
  listener = listener;
  eventfd = eventfd;
  total_users = 0;
  garbage = garbage;
}

add_workers-Valid :
    (left i : ℕ) (workers : List (ℕ × RoomWorker))
    → AllValues WorkerValid workers
    → AllValues WorkerValid (add_workers left i workers)
unfolding add_workers new_worker
add_workers-Valid zero i workers h = h
add_workers-Valid (suc left) i workers h =
    let worker_id = (i + 2) % 2 ^ 16 in
    add_workers-Valid left (i + 1) _
      (AllValues-emplace WorkerValid worker_id (new_worker worker_id room) workers tt h)

new_world-IsWellFormed :
    (room_worker_num : ℕ) (heap : ℕ → Session) (padding : ℕ)
    → IsWellFormed [] (new_world room_worker_num heap padding)
unfolding new_world new_worker emplace find
new_world-IsWellFormed room_worker_num heap padding = record {
  rooms =
      add_workers-Valid (room_worker_num - 1) 0 _
        ((new_room-IsValid lobby_room_id max_lobby_sessions, tt), tt);
  users = record {
    distinct_users = tt;
    distinct_fds = tt;
    to_user = λ fd user_id e. cc;
    to_fd = λ user_id u e. cc;
  };
  keys = refl;
}

pub new_server-IsValid :
    {I : Type 0} (room_worker_num : ℕ) (heap : ℕ → Session) (padding : ℕ) (interest : I)
    (listener eventfd : ℕ) (garbage : Command)
    → IsValid
        (new_server (new_world room_worker_num heap padding) interest listener eventfd garbage)
unfolding new_server find new_world
new_server-IsValid room_worker_num heap padding interest listener eventfd garbage = record {
  ids = [];
  world = new_world-IsWellFormed room_worker_num heap padding;
  matched = record { distinct = tt; paired = λ fd. refl; counted = λ fd user_id e. cc };
}
