-- ===== src/RoomManager/Dispatch.antt =====
-- The part of server/src/room/RoomManager.cpp that the main thread calls.
use cpp_epoll_chat.Base.{ℕ, none, some, if◌then◌else◌}
use cpp_epoll_chat.Protocol.{Command, Packet}
use cpp_epoll_chat.Result.{is_success, room_not_found}
use cpp_epoll_chat.Room.{SessionRef}
use cpp_epoll_chat.RoomEvent.{RoomEvent, ActionCommand, add_action, room_event}
use cpp_epoll_chat.RoomManager.Plans.{plan, lobby_room_id}
use cpp_epoll_chat.RoomManager.Routing.{route_event, lobby_worker_id}
use cpp_epoll_chat.User.{get_user}
use cpp_epoll_chat.World.{World}

abbrev pub event_of : Packet → SessionRef → RoomEvent
event_of packet session = record (room_event packet.request.command) {
  initial_command = packet.request.command;
  request_data = packet.body;
  session = some session;
  target_room_id = packet.request.room_id;
}

-- The event that reports a command for a room that does not exist.
unfoldable pub fail_event : Packet → SessionRef → RoomEvent
unfolding room_event add_action
fail_event packet session =
    (add_action ActionCommand.send_response 0 (record (room_event packet.request.command) {
      session = some session;
      initial_command = packet.request.command;
      result_code = room_not_found;
      target_room_id = lobby_room_id;
    })).1

-- The event with the plan of its command.
unfoldable pub planned_event : Packet → SessionRef → RoomEvent
unfolding room_event plan
planned_event packet session = plan packet.request.command (event_of packet session)

unfoldable pub dispatch_packet : Packet → SessionRef → World → World
unfolding planned_event
dispatch_packet packet session w =
    let (result, w') = route_event (planned_event packet session) 0 w in
    if is_success result then w' else (route_event (fail_event packet session) lobby_worker_id w').1

-- `garbage` is what the memory of the new event held.
unfoldable pub disconnect_session : Command → ℕ → ℕ → World → World
unfolding room_event add_action
disconnect_session garbage fd room_id w =
    (route_event
      (add_action ActionCommand.disconnect_session room_id
        (record (room_event garbage) { fd = fd; target_room_id = room_id })).1
      0 w).1

unfoldable pub request_flush : Command → SessionRef → World → World
unfolding room_event add_action
request_flush garbage session w = elim (get_user session.fd w.users) [
  | none ↦ w
  | some user ↦
      (route_event
        (add_action ActionCommand.flush 0 (record (room_event garbage) {
          session = some session;
          target_room_id = user.current_room;
        })).1
        0 w).1
]
