-- ===== src/Journeys/Lobby.antt =====
-- The second half of a request to join a room, at the lobby's worker (server/src/room/RoomWorker.cpp).
use cpp_epoll_chat.Base.{ℕ, ◌≡◌, refl, ap, ◌∙◌, [], ◌∷◌, true, false, some}
use cpp_epoll_chat.Base.Map.{find, assign}
use cpp_epoll_chat.Decimal.{to_string}
use cpp_epoll_chat.Journeys.{answered}
use cpp_epoll_chat.Journeys.Moves.{joining_event}
use cpp_epoll_chat.Protocol.{Packet, cmd_join_room}
use cpp_epoll_chat.Result.{success, user_not_found}
use cpp_epoll_chat.Room.{SessionRef, Room, exit_session, find_session}
use cpp_epoll_chat.RoomEvent.{RoomEvent, ActionCommand, begun_target}
use cpp_epoll_chat.RoomManager.Dispatch.{planned_event}
use cpp_epoll_chat.RoomManager.Plans.{lobby_room_id}
use cpp_epoll_chat.RoomWorker.{is_room, cursor, request_db_load_message, send_response}
use cpp_epoll_chat.RoomWorker.Membership.{leave_room_absent, leave_room_lobby}
use cpp_epoll_chat.RoomWorker.Process
use cpp_epoll_chat.RoomWorker.Process.{process_event, do_action, with_result}
use cpp_epoll_chat.RoomWorker.Steps.{begun, loop_returns, loop_goes_on, loop_fails}
use cpp_epoll_chat.World.{
  World, DbJobType, db_load_messages, rooms_of, put_rooms, type_of, post_job,
}

-- The world after the session left the lobby.
abbrev pub out_of_lobby : ℕ → SessionRef → Room → World → World
out_of_lobby k session r w =
    put_rooms k (assign lobby_room_id (exit_session session.fd r).1 (rooms_of k w)) w

-- At the lobby's worker, a session that joins another room and is in the lobby leaves it; then the
-- room's messages before the cursor are asked of the database, for the event with only the response left
-- to do.
pub process_event_join_leaves_lobby :
    (k : ℕ) (p : Packet) (session : SessionRef) (w : World) (r : Room)
    → find lobby_room_id (rooms_of k w) ≡ some r
    → find_session session.fd r ≡ true
    → is_room (type_of k w) ≡ false
    → process_event k (joining_event p session) w
      ≡ post_job
          (record {
            type = DbJobType.load_history;
            params = to_string p.request.room_id ∷ to_string (cursor p.body) ∷ [];
            on_result = db_load_messages (record (joining_event p session) { current_action = 4 });
          })
          (out_of_lobby k session r w)
unfolding planned_event process_event do_action begun_target request_db_load_message
process_event_join_leaves_lobby k p session w r there inside lobby' =
    let e0 = joining_event p session in
    let e1 : RoomEvent = record (begun e0) { result_code = success } in
    loop_goes_on 4 k e0
      (record { command = ActionCommand.leave_room; target_room_id = lobby_room_id }) w refl refl
      (ap (with_result (begun e0))
        (leave_room_lobby k session.fd lobby_room_id w r there inside lobby'))
      refl
    ∙ loop_returns 3 k e1
        (record {
          command = ActionCommand.request_db_load_message;
          target_room_id = p.request.room_id;
        })
        (out_of_lobby k session r w) refl refl refl

-- At the lobby's worker, a session that joins another room and is not in the lobby is told
-- `UserNotFound`, and nothing else changes.
pub process_event_join_not_in_lobby :
    (k : ℕ) (p : Packet) (session : SessionRef) (w : World) (r : Room)
    → find lobby_room_id (rooms_of k w) ≡ some r
    → find_session session.fd r ≡ false
    → process_event k (joining_event p session) w ≡ answered cmd_join_room user_not_found session w
unfolding planned_event process_event do_action begun_target Process.fail_event send_response
process_event_join_not_in_lobby k p session w r there outside =
    let e0 = joining_event p session in
    loop_fails 4 k e0
      (record { command = ActionCommand.leave_room; target_room_id = lobby_room_id }) w refl refl
      (ap (with_result (begun e0)) (leave_room_absent k session.fd lobby_room_id w r there outside))
      refl
