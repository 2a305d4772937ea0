-- ===== src/Journeys/Rejected.antt =====
-- Requests that fail on the way (`dispatch_packet` of server/src/room/RoomManager.cpp, `process_event` of
-- server/src/room/RoomWorker.cpp).
use cpp_epoll_chat.Base.{ℕ, ◌≤◌, ◌≡◌, refl, ap, Bool, true, false}
use cpp_epoll_chat.Base.{none, some, arith}
use cpp_epoll_chat.Base.Map.{find}
use cpp_epoll_chat.Journeys.{asks, answered}
use cpp_epoll_chat.Protocol.{
  Command, Packet, cmd_join_room, cmd_send_message, cmd_load_message, unnamed,
}
use cpp_epoll_chat.Result.{Result, is_success, room_not_found, room_full}
use cpp_epoll_chat.Room.{SessionRef, Room}
use cpp_epoll_chat.RoomEvent.{ActionCommand, begun_target}
use cpp_epoll_chat.RoomManager.Dispatch.{planned_event, fail_event, dispatch_packet}
use cpp_epoll_chat.RoomManager.Routing.{route_event, lobby_worker_id}
use cpp_epoll_chat.RoomWorker.{join_room, send_response}
use cpp_epoll_chat.RoomWorker.Membership.{join_room_missing, join_room_full}
use cpp_epoll_chat.RoomWorker.Process
use cpp_epoll_chat.RoomWorker.Process.{process_event, process_loop, follow, do_action, with_result}
use cpp_epoll_chat.RoomWorker.Steps.{begun, loop_fails}
use cpp_epoll_chat.World.{World, rooms_of, post_event}

-- The commands whose event goes to the room that the request names.
abbrev pub goes_to_room : Command → Bool
goes_to_room cmd_join_room = true
goes_to_room cmd_send_message = true
goes_to_room cmd_load_message = true
goes_to_room (unnamed b) = true
goes_to_room _ = false

-- A request for a room that no worker has, by a command that goes to the room: the main thread hands the
-- lobby's worker an event, and that sends the session the response `RoomNotFound` and does no more.
pub dispatch_packet_unknown_room :
    (c : Command) (p : Packet) (session : SessionRef) (w v : World)
    → goes_to_room c ≡ true
    → find p.request.room_id w.room_to_worker ≡ none
    → (dispatch_packet (asks c p) session w
        ≡ post_event lobby_worker_id (fail_event (asks c p) session) w)
      × (process_event lobby_worker_id (fail_event (asks c p) session) v
          ≡ answered c room_not_found session v)
unfolding dispatch_packet fail_event process_event process_loop follow do_action send_response
    route_event
dispatch_packet_unknown_room cmd_join_room p session w v h e = (ground arith, refl)
dispatch_packet_unknown_room cmd_send_message p session w v h e = (ground arith, refl)
dispatch_packet_unknown_room cmd_load_message p session w v h e = (ground arith, refl)
dispatch_packet_unknown_room (unnamed b) p session w v h e = (ground arith, refl)
dispatch_packet_unknown_room _ p session w v h e = cc

-- A byte that names no command, for a room that exists: the worker does nothing, and no response goes
-- out, although the client waits for one.
pub process_event_unnamed :
    (k b : ℕ) (p : Packet) (session : SessionRef) (w : World)
    → process_event k (planned_event (asks (unnamed b) p) session) w ≡ w
unfolding planned_event process_event
process_event_unnamed k b p session w = refl

rejected :
    (k : ℕ) (p : Packet) (session : SessionRef) (w : World) (code : Result)
    → is_success code ≡ false
    → join_room k session p.request.room_id w ≡ (code, w)
    → process_event k (planned_event (asks cmd_join_room p) session) w
      ≡ answered cmd_join_room code session w
unfolding planned_event process_event do_action begun_target Process.fail_event send_response
rejected k p session w code bad e =
    loop_fails 4 k (planned_event (asks cmd_join_room p) session)
      (record { command = ActionCommand.join_room; target_room_id = p.request.room_id }) w refl refl
      (ap (with_result (begun (planned_event (asks cmd_join_room p) session))) e) bad

-- A worker that does not have the room answers a request to join it with `RoomNotFound`, and nothing
-- else changes.
pub process_event_join_missing :
    (k : ℕ) (p : Packet) (session : SessionRef) (w : World)
    → find p.request.room_id (rooms_of k w) ≡ none
    → process_event k (planned_event (asks cmd_join_room p) session) w
      ≡ answered cmd_join_room room_not_found session w
process_event_join_missing k p session w e =
    rejected k p session w room_not_found refl (join_room_missing k session p.request.room_id w e)

-- A worker whose room is full answers a request to join it with `RoomFull`, and nothing else changes.
pub process_event_join_full :
    (k : ℕ) (p : Packet) (session : SessionRef) (w : World) (r : Room)
    → find p.request.room_id (rooms_of k w) ≡ some r
    → r.max_sessions ≤ r.current_sessions
    → process_event k (planned_event (asks cmd_join_room p) session) w
      ≡ answered cmd_join_room room_full session w
process_event_join_full k p session w r e full =
    rejected k p session w room_full refl (join_room_full k session p.request.room_id w r e full)
