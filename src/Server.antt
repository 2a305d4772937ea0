-- ===== src/Server.antt =====
-- server/src/server/Server.{h,cpp}: the main thread, which accepts, reads and closes connections, and does
-- what the workers ask of it. The kernel's calls on the epoll descriptor (server/src/core/Epoll.cpp) are a
-- parameter.
pub mod Requests
pub mod Matched
pub mod Closing
pub mod Start
pub mod Admitting
pub mod Running
pub mod Stale
pub mod Registered
pub mod Launch
use cpp_epoll_chat.Base.{
  ℕ, zero, suc, ◌+◌, ◌%◌, ◌^◌, List, [], ◌∷◌, length, Bool, true, false, Option, none, some, ◌==◌,
  not, if◌then◌else◌,
}
use cpp_epoll_chat.Epoll
use cpp_epoll_chat.Epoll.{Kernel, reading}
use cpp_epoll_chat.Protocol.{Command}
use cpp_epoll_chat.Room.{SessionRef}
use cpp_epoll_chat.RoomEvent.{
  RoomEvent, ActionCommand, room_event, add_action, MainEvent, MainEventType, disconnect,
  enable_epoll_out, disable_epoll_out,
}
use cpp_epoll_chat.RoomManager.Dispatch.{dispatch_packet, disconnect_session, request_flush}
use cpp_epoll_chat.RoomManager.Plans.{lobby_room_id}
use cpp_epoll_chat.RoomManager.Routing.{route_event, lobby_worker_id}
use cpp_epoll_chat.Session.{
  Session, RecvAnswer, SendAnswer, new_session, mark_disconnecting, on_readable, extract_packet,
}
use cpp_epoll_chat.Session.Framing.{empty_packet}
use cpp_epoll_chat.SessionManager.{SessionManager, add_session, remove_session, get_session}
use cpp_epoll_chat.User.{
  User, new_user, mark_diconnecting, add_user, remove_user, get_user, update_user,
}
use cpp_epoll_chat.World.{World, fails, update}

-- `garbage` is what the memory of a new event holds where the code does not write.
pub record Server (Interest : Type 0) : Type 0 where
  pub world : World
  pub session_manager : SessionManager
  pub interest : Interest
  pub listener : ℕ
  pub eventfd : ℕ
  pub total_users : ℕ
  pub garbage : Command

-- A connection that `accept4` brings, with what the kernel will answer on it.
pub record Accepted : Type 0 where
  pub fd : ℕ
  pub incoming : List RecvAnswer
  pub outgoing : List SendAnswer

-- A descriptor that `epoll_wait` reports: EPOLLIN, EPOLLOUT, and any of EPOLLERR, EPOLLHUP, EPOLLRDHUP.
-- `accepts` is what `accept4` answers, if it is called.
pub record Ready : Type 0 where
  pub fd : ℕ
  pub readable : Bool
  pub writable : Bool
  pub hung_up : Bool
  pub accepts : Option Accepted

-- An exception leaves `run`, and ends the program.
pub data Outcome (I : Type 0) : Type 0 where
  goes_on : Server I → Outcome I
  throws : Server I → Outcome I

infixl 5 ◌>>=◌
abbrev pub ◌>>=◌ : {I : Type 0} → Outcome I → (Server I → Outcome I) → Outcome I
goes_on s >>= f = f s
throws s >>= f = throws s

-- The loop of `handle_request`. Fuel: each packet has 17 bytes at least.
unfoldable pub requests_loop : ℕ → SessionRef → World → World
requests_loop zero ref w = w
requests_loop (suc fuel) ref w =
    let r = extract_packet (w.heap ref.address) empty_packet in
    let w' : World = record w { heap = update w.heap ref.address r.2 } in
    elim r.0 [ false ↦ w' | true ↦ requests_loop fuel ref (dispatch_packet r.1 ref w') ]

-- Behind `epoll_.remove`, with the session and its user.
unfoldable pub dismiss : Command → ℕ → SessionRef → User → World → World
unfolding disconnect_session mark_disconnecting update_user remove_user
dismiss garbage fd ref user w =
    let w1 : World = record w {
      users = update_user fd mark_diconnecting w.users;
      heap = update w.heap ref.address (mark_disconnecting (w.heap ref.address));
    } in
    let w2 = disconnect_session garbage fd user.current_room w1 in
    let w3 =
      if user.current_room == lobby_room_id
      then w2
      else disconnect_session garbage fd lobby_room_id w2 in
    record w3 { users = remove_user user.user_id w3.users }

abbrev pub with_world : {I : Type 0} → World → Server I → Server I
with_world w s = record s { world = w }

abbrev pub or_throws : {I : Type 0} → Bool × I → Server I → Outcome I
or_throws (true, i) s = goes_on (record s { interest = i })
or_throws (false, i) s = throws (record s { interest = i })

-- "temp".
abbrev pub temp_name : List ℕ
temp_name = b't' ∷ b'e' ∷ b'm' ∷ b'p' ∷ []

-- `extract_packet` in a loop, behind a call of `on_readable` that left the session alive.
unfoldable pub handle_packets : SessionRef → World → World
unfolding requests_loop
handle_packets ref w = requests_loop (suc (length (w.heap ref.address).recv_buffer)) ref w

module _ (kernel : Kernel) where
  open kernel use {Interest}

  -- Behind `epoll_.add`. The session, its user, and the event that lets it into the lobby.
  unfoldable pub welcome : Accepted → Server Interest → Server Interest
  unfolding add_session get_session new_user add_user room_event add_action
  welcome a s =
      let user_id = (s.total_users + 1) % 2 ^ 64 in
      let manager = add_session a.fd s.session_manager in
      let object = new_session a.fd a.incoming a.outgoing in
      let w1 : World = record (s.world) {
        heap = update s.world.heap s.session_manager.allocated object;
        users = add_user (new_user a.fd user_id temp_name) s.world.users;
      } in
      let e0 : RoomEvent = record (room_event s.garbage) {
        target_room_id = lobby_room_id;
        session = get_session a.fd manager;
      } in
      let e = (add_action ActionCommand.join_room lobby_room_id e0).1 in
      record s {
        world = (route_event e lobby_worker_id w1).1;
        session_manager = manager;
        total_users = user_id;
      }

  unfoldable pub accept_client : Option Accepted → Server Interest → Outcome Interest
  unfolding welcome
  accept_client none s = goes_on s
  accept_client (some a) s =
      or_throws (Epoll.add kernel a.fd reading s.interest) s >>= λ s'. goes_on (welcome a s')

  -- A session without a user is a null pointer that is read.
  unfoldable pub close_session : ℕ → Server Interest → Server Interest
  unfolding dismiss get_session get_user remove_session
  close_session fd s = elim (get_session fd s.session_manager) [
    | none ↦ s
    | some ref ↦
        let s1 : Server Interest = record s { interest = Epoll.remove kernel fd s.interest } in
        elim (get_user fd s.world.users) [
          | none ↦ with_world (fails s.world) s1
          | some user ↦ record s1 {
            world = dismiss s.garbage fd ref user s.world;
            session_manager = remove_session fd s.session_manager;
          }
        ]
  ]

  unfoldable pub enable_epollout : ℕ → Server Interest → Outcome Interest
  enable_epollout fd s = or_throws (Epoll.enable_epoll_out kernel fd s.interest) s

  unfoldable pub disable_epollout : ℕ → Server Interest → Outcome Interest
  disable_epollout fd s = or_throws (Epoll.disable_epoll_out kernel fd s.interest) s

  unfoldable pub handle_event : MainEvent → Server Interest → Outcome Interest
  unfolding close_session enable_epollout disable_epollout
  handle_event e s = elim e.type [
    | disconnect ↦ goes_on (close_session e.fd s)
    | enable_epoll_out ↦ enable_epollout e.fd s
    | disable_epoll_out ↦ disable_epollout e.fd s
  ]

  -- The loop of `handle_events`: each event is popped before it is handled.
  unfoldable pub events_loop : List MainEvent → Server Interest → Outcome Interest
  unfolding handle_event
  events_loop [] s = goes_on s
  events_loop (e ∷ rest) s =
      handle_event e (with_world (record (s.world) { main_events = rest }) s) >>= λ s'.
      events_loop rest s'

  unfoldable pub handle_events : Server Interest → Outcome Interest
  unfolding events_loop
  handle_events s = events_loop s.world.main_events s

  unfoldable pub handle_request : ℕ → Server Interest → Server Interest
  unfolding get_session on_readable close_session handle_packets
  handle_request fd s = elim (get_session fd s.session_manager) [
    | none ↦ close_session fd s
    | some ref ↦
        let r = on_readable (s.world.heap ref.address) in
        let w : World = record (s.world) { heap = update s.world.heap ref.address r.1 } in
        if r.0 then with_world (handle_packets ref w) s else close_session fd (with_world w s)
  ]

  unfoldable pub handle_epollout : ℕ → Server Interest → Server Interest
  unfolding get_session close_session request_flush
  handle_epollout fd s = elim (get_session fd s.session_manager) [
    | none ↦ close_session fd s
    | some ref ↦ with_world (request_flush s.garbage ref s.world) s
  ]

  -- One descriptor of the `for` loop in `run`.
  unfoldable pub handle_ready : Ready → Server Interest → Outcome Interest
  unfolding accept_client handle_events handle_request handle_epollout close_session
  handle_ready r s =
      let s1 = if r.readable then handle_request r.fd s else s in
      let s2 = if r.writable then handle_epollout r.fd s1 else s1 in
      let s3 = if r.hung_up then close_session r.fd s2 else s2 in
      if r.fd == s.listener
      then accept_client r.accepts s
      else (if r.fd == s.eventfd then handle_events s else goes_on s3)

  -- The loop of `run`, over the descriptors that `epoll_wait` reports.
  unfoldable pub run : List Ready → Server Interest → Outcome Interest
  unfolding handle_ready
  run [] s = goes_on s
  run (r ∷ rest) s = handle_ready r s >>= λ s'. run rest s'
