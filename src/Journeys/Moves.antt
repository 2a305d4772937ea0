-- ===== src/Journeys/Moves.antt =====
-- Requests that move a user between rooms: the first half runs at the worker of the room that is joined,
-- and hands the event on to the worker of the room that is left (server/src/room/RoomWorker.cpp).
use cpp_epoll_chat.Base.{ℕ, none, ◌<◌, ◌≡◌, refl, ap, ◌∙◌, some, arith}
use cpp_epoll_chat.Base.Map.{find}
use cpp_epoll_chat.Journeys.{asks}
use cpp_epoll_chat.Protocol.{Packet, cmd_join_room, cmd_leave_room}
use cpp_epoll_chat.Result.{success}
use cpp_epoll_chat.Room.{SessionRef, Room}
use cpp_epoll_chat.RoomEvent.{RoomEvent, ActionCommand, begun_target}
use cpp_epoll_chat.RoomManager.Dispatch.{planned_event}
use cpp_epoll_chat.RoomManager.Plans.{lobby_room_id}
use cpp_epoll_chat.RoomManager.Routing.{route_event, lobby_worker_id}
use cpp_epoll_chat.RoomWorker.Membership.{join_room_ok, joined}
use cpp_epoll_chat.RoomWorker.Process.{process_event, do_action, with_result}
use cpp_epoll_chat.RoomWorker.Steps.{begun, loop_returns, loop_goes_on}
use cpp_epoll_chat.User.{User, get_user}
use cpp_epoll_chat.World.{World, rooms_of, put_rooms, post_event}

-- The event of a request to join a room, once it is on its way to the lobby.
abbrev pub joining_event : Packet → SessionRef → RoomEvent
joining_event p session = record (planned_event (asks cmd_join_room p) session) {
  current_action = 2;
  result_code = success;
  target_room_id = lobby_room_id;
}

-- A worker that has the room with a place free lets a known user in, and hands the event to the lobby's
-- worker; the client is told nothing yet.
pub process_event_join_admitted :
    (k : ℕ) (p : Packet) (session : SessionRef) (w : World) (r : Room) (u : User)
    → find p.request.room_id (rooms_of k w) ≡ some r
    → r.current_sessions < r.max_sessions
    → get_user session.fd w.users ≡ some u
    → find lobby_room_id w.room_to_worker ≡ some lobby_worker_id
    → process_event k (planned_event (asks cmd_join_room p) session) w
      ≡ post_event lobby_worker_id
          (joining_event p session)
          (joined k session p.request.room_id w r)
unfolding planned_event process_event do_action begun_target route_event put_rooms
process_event_join_admitted k p session w r u there room' user lobby' =
    let e0 = planned_event (asks cmd_join_room p) session in
    let w1 = joined k session p.request.room_id w r in
    let e1 : RoomEvent = record (begun e0) { result_code = success } in
    loop_goes_on 4 k e0
      (record { command = ActionCommand.join_room; target_room_id = p.request.room_id }) w refl refl
      (ap (with_result (begun e0))
        (join_room_ok k session p.request.room_id w r u there room' user))
      refl
    ∙ loop_returns 3 k e1
        (record { command = ActionCommand.request_leave_room; target_room_id = lobby_room_id }) w1
        refl refl refl
    ∙ ground arith

-- A request to leave a room that no worker has, while the lobby has a place free and the user is known:
-- the lobby's worker lets the user in, finds no way to the room, and stops; no response goes out.
pub process_event_leave_unknown :
    (k : ℕ) (p : Packet) (session : SessionRef) (w : World) (r : Room) (u : User)
    → find lobby_room_id (rooms_of k w) ≡ some r
    → r.current_sessions < r.max_sessions
    → get_user session.fd w.users ≡ some u
    → find p.request.room_id w.room_to_worker ≡ none
    → process_event k (planned_event (asks cmd_leave_room p) session) w
      ≡ joined k session lobby_room_id w r
unfolding planned_event process_event do_action begun_target route_event put_rooms
process_event_leave_unknown k p session w r u there room' user unknown =
    let e0 = planned_event (asks cmd_leave_room p) session in
    let w1 = joined k session lobby_room_id w r in
    let e1 : RoomEvent = record (begun e0) { result_code = success } in
    loop_goes_on 3 k e0
      (record { command = ActionCommand.join_room; target_room_id = lobby_room_id }) w refl refl
      (ap (with_result (begun e0)) (join_room_ok k session lobby_room_id w r u there room' user))
      refl
    ∙ loop_returns 2 k e1
        (record { command = ActionCommand.request_leave_room; target_room_id = p.request.room_id })
        w1 refl refl refl
    ∙ ground arith
