-- ===== src/Tests/Server.antt =====
-- The main thread of the server (server/src/server/Server.cpp) at concrete states.
use cpp_epoll_chat.Base.{
  ℕ, ◌≡◌, ◌++◌, refl, [], ◌∷◌, List, true, false, none, some, if◌then◌else◌, ◌==◌, arith,
}
use cpp_epoll_chat.Base.Map.{find, erase, emplace}
use cpp_epoll_chat.Protocol.{
  cmd_join_room, serialize_packet, request_bytes, header_bytes, command_byte, command_of, header_of,
  request_of,
}
use cpp_epoll_chat.Base.Bytes.{le_bytes, of_le}
use cpp_epoll_chat.RoomEvent.{enable_epoll_out}
use cpp_epoll_chat.Epoll
use cpp_epoll_chat.Epoll.{listening, reading, woken, Mask}
use cpp_epoll_chat.Tests.Kernel.{Watches, known, kernel}
use cpp_epoll_chat.Server.{
  Server, Ready, Outcome, goes_on, throws, run, close_session, handle_request, handle_ready,
  accept_client, welcome,
}
use cpp_epoll_chat.Server.Matched.{IsValid}
use cpp_epoll_chat.Server.Closing.{close_session_lem}
use cpp_epoll_chat.Server.Requests.{dispatch_all, handle_request-Cuts}
use cpp_epoll_chat.Server.Running.{Runs, rests, moves, reports, session_has_user, Runs-IsValid}
use cpp_epoll_chat.Server.Stale.{run_stale}
use cpp_epoll_chat.Server.Start.{new_server, new_world, new_server-IsValid}
use cpp_epoll_chat.Session.{Session, received, closed, on_readable, recv_loop}
use cpp_epoll_chat.Session.Framing.{more, stop}
use cpp_epoll_chat.Session.Packets.{next_packet}
use cpp_epoll_chat.SessionManager.{SessionManager, get_session, add_session}
use cpp_epoll_chat.Tests.Fixtures.{alice, bob, connection, world, request_to}
use cpp_epoll_chat.Tests.Rooms.{world-IsWellFormed}
use cpp_epoll_chat.User.{User, get_user}
use cpp_epoll_chat.World.{update}

abbrev whole_request : List ℕ
whole_request = serialize_packet (record { type = 1 }) (request_bytes 0 (request_to 5).request) []

-- A request waits at the first connection; the second one was closed.
abbrev waiting : ℕ → Session
waiting a =
    if a == 0
    then record (connection 0) { incoming = received (whole_request ++ (1 ∷ [])) ∷ [] }
    else record (connection a) { incoming = closed ∷ [] }

abbrev sessions : SessionManager
sessions = record { sessions = (7, alice) ∷ (8, bob) ∷ []; allocated = 2 }

abbrev server : Server Watches
server = record {
  world = record world {
    heap = waiting;
    main_events = record { type = enable_epoll_out; fd = 8 } ∷ [];
  };
  session_manager = sessions;
  interest = known ((3, listening) ∷ (4, listening) ∷ (7, reading) ∷ (8, reading) ∷ []);
  listener = 3;
  eventfd = 4;
  total_users = 4;
  garbage = cmd_join_room;
}

server-IsValid : IsValid server
unfolding find
server-IsValid = record {
  ids = (7, 3) ∷ (8, 4) ∷ [];
  world = record {
    rooms = world-IsWellFormed.rooms;
    users = world-IsWellFormed.users;
    keys = world-IsWellFormed.keys;
  };
  matched = record {
    distinct = (((λ e. omega arith), tt), (tt, tt));
    paired = λ fd. ground arith;
    counted = λ fd user_id e. ground arith;
  };
}

handle_request-Cuts_example : handle_request kernel 7 server ≡ record server {
  world = record (dispatch_all (request_to 5 ∷ []) alice server.world) {
    heap = update waiting 0 (record (on_readable (waiting 0)).1 { recv_buffer = 1 ∷ [] });
  };
}
unfolding get_session find on_readable recv_loop serialize_packet request_bytes header_bytes
    le_bytes of_le command_byte next_packet header_of request_of command_of
handle_request-Cuts_example =
    handle_request-Cuts kernel 7 server alice (request_to 5 ∷ []) (1 ∷ []) refl refl
      (more _ (request_to 5) (1 ∷ []) refl (stop (1 ∷ []) refl))

close_session_lem_example :
    let s' = close_session kernel 7 server in
    (get_session 8 s'.session_manager ≡ get_session 8 sessions)
    × (get_user 8 s'.world.users ≡ get_user 8 world.users)
close_session_lem_example = close_session_lem kernel 7 8 server server-IsValid

abbrev report_8 : Ready
report_8 = record { fd = 8; readable = true; writable = false; hung_up = true; accepts = none }

abbrev report_events : Ready
report_events = record {
  fd = 4;
  readable = true;
  writable = false;
  hung_up = false;
  accepts = none;
}

run_stale_example :
    (s' : Server Watches) × (run kernel (report_8 ∷ report_events ∷ []) server ≡ throws s')
unfolding get_session find on_readable recv_loop erase Epoll.enable_epoll_out Epoll.remove
run_stale_example =
    run_stale kernel report_8 report_events [] server bob [] server-IsValid refl refl refl refl refl
      refl refl refl refl

-- A server of two workers that was just set up, and lets a client in on descriptor 7.
abbrev pub fresh : Server Watches
fresh =
    new_server (new_world 2 connection 0) (known ((3, listening) ∷ (4, listening) ∷ [])) 3 4
      cmd_join_room

abbrev pub first_client : Ready
first_client = record {
  fd = 3;
  readable = true;
  writable = false;
  hung_up = false;
  accepts = some (record { fd = 7; incoming = []; outgoing = [] });
}

abbrev or_start : Outcome Watches → Server Watches
or_start (goes_on s) = s
or_start (throws s) = fresh

abbrev let_in : Server Watches
let_in = or_start (handle_ready kernel first_client fresh)

lets_in : Runs kernel fresh let_in
unfolding new_server get_session find handle_ready accept_client emplace Epoll.add
lets_in = moves (reports first_client fresh let_in (refl, omega arith) refl) (rests let_in)

session_has_user_example : (u : User) × (get_user 7 let_in.world.users ≡ some u) × (u.fd ≡ 7)
unfolding new_server get_session find handle_ready accept_client welcome add_session emplace
    Epoll.add
session_has_user_example =
    session_has_user kernel 2 connection 0 (known ((3, listening) ∷ (4, listening) ∷ [])) 3 4
      cmd_join_room let_in 7 (record { address = 0; fd = 7 }) lets_in refl

fresh-IsValid : IsValid fresh
fresh-IsValid =
    new_server-IsValid 2 connection 0 (known ((3, listening) ∷ (4, listening) ∷ [])) 3 4
      cmd_join_room

Runs-IsValid_example : IsValid let_in
Runs-IsValid_example = Runs-IsValid kernel lets_in fresh-IsValid
