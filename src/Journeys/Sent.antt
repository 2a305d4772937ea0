-- ===== src/Journeys/Sent.antt =====
-- A request to send a message (server/src/room/RoomWorker.cpp).
use cpp_epoll_chat.Base.{ℕ, ◌≡◌, refl, ap, ◌∙◌, List, some}
use cpp_epoll_chat.Base.Map.{find}
use cpp_epoll_chat.Journeys.{asks, answered}
use cpp_epoll_chat.Protocol.{Packet, cmd_send_message}
use cpp_epoll_chat.Result.{success}
use cpp_epoll_chat.Room.{SessionRef, Room}
use cpp_epoll_chat.RoomEvent.{RoomEvent, ActionCommand, begun_target}
use cpp_epoll_chat.RoomManager.Dispatch.{planned_event}
use cpp_epoll_chat.RoomWorker.{
  broadcast, message_packet, send_message, save_message, send_response, params_for_save, temp_nick,
}
use cpp_epoll_chat.RoomWorker.Process.{process_event, do_action, with_result}
use cpp_epoll_chat.RoomWorker.Steps.{begun, loop_returns, loop_goes_on}
use cpp_epoll_chat.User.{get_user_id}
use cpp_epoll_chat.World.{World, DbJob, DbJobType, no_callback, rooms_of, post_job}

-- The message as the other sessions of the room get it.
abbrev pub message_of : Packet → SessionRef → World → List ℕ
message_of p session w =
    message_packet (get_user_id session.fd w.users) p.request.room_id p.body w.padding

-- The job that keeps the message.
abbrev pub keeping : Packet → SessionRef → World → DbJob
keeping p session w = record {
  type = DbJobType.save_message;
  params = params_for_save p.request.room_id (get_user_id session.fd w.users) temp_nick p.body;
  on_result = no_callback;
}

-- The world after the message went to the sessions of the room.
abbrev pub told : Packet → SessionRef → Room → World → World
told p session r w = broadcast session.fd p.request.room_id (message_of p session w) r.sessions w

-- A message to a room that the worker has is sent to the others there, handed to the database to keep,
-- and its sender gets the answer that it was sent.
pub process_event_sent :
    (k : ℕ) (p : Packet) (session : SessionRef) (w : World) (r : Room)
    → find p.request.room_id (rooms_of k w) ≡ some r
    → let w1 = told p session r w in
      process_event k (planned_event (asks cmd_send_message p) session) w
      ≡ answered cmd_send_message success session (post_job (keeping p session w1) w1)
unfolding planned_event process_event do_action begun_target send_message save_message send_response
process_event_sent k p session w r there =
    let e0 = planned_event (asks cmd_send_message p) session in
    let w1 = told p session r w in
    let e1 : RoomEvent = record (begun e0) { result_code = success } in
    let sends : send_message k session p.request.room_id p.body w ≡ (success, w1) =
      rw (there, send_message) refl in
    loop_goes_on 2 k e0
      (record { command = ActionCommand.send_message; target_room_id = p.request.room_id }) w refl
      refl (ap (with_result (begun e0)) sends) refl
    ∙ loop_goes_on 1 k e1
        (record { command = ActionCommand.save_message; target_room_id = p.request.room_id }) w1
        refl refl refl refl
    ∙ loop_returns 0 k (begun e1)
        (record { command = ActionCommand.send_response; target_room_id = 0 })
        (post_job (keeping p session w1) w1) refl refl refl
