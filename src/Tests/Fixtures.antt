-- ===== src/Tests/Fixtures.antt =====
-- Two users, a lobby and a chat room, and a request.
use cpp_epoll_chat.Base.{ℕ, ◌+◌, [], ◌∷◌, false, refl}
use cpp_epoll_chat.Base.Map.{find, emplace}
use cpp_epoll_chat.Protocol.{Packet, cmd_join_room}
use cpp_epoll_chat.Room.{SessionRef, Room}
use cpp_epoll_chat.Session.{Session, accepted}
use cpp_epoll_chat.User.{User, UserManager, add_user}
use cpp_epoll_chat.User.Managed.{IsConsistent, add_user-IsConsistent}
use cpp_epoll_chat.World.{World, WorkerType}

abbrev pub alice : SessionRef
alice = record { address = 0; fd = 7 }

abbrev pub bob : SessionRef
bob = record { address = 1; fd = 8 }

abbrev pub user_alice : User
user_alice = record {
  fd = 7;
  user_id = 3;
  user_name = b'a' ∷ [];
  current_room = 1;
  disconnecting = false;
}

abbrev pub user_bob : User
user_bob = record {
  fd = 8;
  user_id = 4;
  user_name = b'b' ∷ [];
  current_room = 5;
  disconnecting = false;
}

abbrev pub no_users : UserManager
no_users = record { users = []; fd_to_user_id = [] }

abbrev pub one_user : UserManager
one_user = record { users = (3, user_alice) ∷ []; fd_to_user_id = (7, 3) ∷ [] }

abbrev pub two_users : UserManager
two_users = record {
  users = (3, user_alice) ∷ (4, user_bob) ∷ [];
  fd_to_user_id = (7, 3) ∷ (8, 4) ∷ [];
}

pub no_users-IsConsistent : IsConsistent no_users
unfolding find
no_users-IsConsistent = record {
  distinct_users = tt;
  distinct_fds = tt;
  to_user = λ fd user_id h. cc;
  to_fd = λ user_id u h. cc;
}

pub one_user-IsConsistent : IsConsistent one_user
unfolding add_user find emplace
one_user-IsConsistent = add_user-IsConsistent user_alice no_users no_users-IsConsistent refl refl

pub two_users-IsConsistent : IsConsistent two_users
unfolding add_user find emplace
two_users-IsConsistent = add_user-IsConsistent user_bob one_user one_user-IsConsistent refl refl

abbrev pub lobby_room : Room
lobby_room = record {
  room_id = 1;
  sessions = (7, alice) ∷ [];
  max_sessions = 999;
  current_sessions = 1;
}

abbrev pub chat_room : Room
chat_room = record { room_id = 5; sessions = (8, bob) ∷ []; max_sessions = 5; current_sessions = 1 }

abbrev pub full_room : Room
full_room = record chat_room { max_sessions = 1 }

-- A connection on which two bytes wait, to a kernel that will take eight.
abbrev pub connection : ℕ → Session
connection a = record {
  fd = 7 + a;
  recv_buffer = [];
  send_queue = record { buffer = 1 ∷ 2 ∷ []; offset = 0 } ∷ [];
  disconnecting = false;
  sending = false;
  incoming = [];
  outgoing = accepted 8 ∷ [];
  sent = [];
}

abbrev pub world_with : Room → World
world_with r = record {
  heap = connection;
  users = two_users;
  workers =
      (
        1,
        record {
          worker_id = 1;
          type = WorkerType.lobby;
          rooms = (1, lobby_room) ∷ [];
          event_queue = [];
        },
      )
      ∷ (2, record { worker_id = 2; type = WorkerType.room; rooms = (5, r) ∷ []; event_queue = [] })
      ∷ [];
  room_to_worker = (1, 1) ∷ (5, 2) ∷ [];
  room_worker_num = 2;
  main_events = [];
  job_queue = [];
  padding = 0;
  fault = false;
}

abbrev pub world : World
world = world_with chat_room

-- A request to join a room.
abbrev pub request_to : ℕ → Packet
request_to room_id = record {
  header = record { type = 1 };
  request = record { room_id = room_id; body_len = 0; command = cmd_join_room };
  body = [];
}
