-- ===== src/Tests/Rooms.antt =====
-- Rooms and workers (server/src/room) at concrete states.
use cpp_epoll_chat.Base.{◌≡◌, ◌↔◌, ◌⊎◌, ◌++◌, refl, [], ◌∷◌, false, arith}
use cpp_epoll_chat.Base.Map.{find}
use cpp_epoll_chat.Journeys.{asks, answered}
use cpp_epoll_chat.Journeys.Moves.{joining_event, process_event_join_admitted}
use cpp_epoll_chat.Journeys.Rejected.{dispatch_packet_unknown_room}
use cpp_epoll_chat.Protocol.{cmd_join_room, cmd_send_message}
use cpp_epoll_chat.Result.{room_not_found}
use cpp_epoll_chat.Room.{join_session, find_session}
use cpp_epoll_chat.Room.Capacity.{IsValid, IsExact, join_session-IsExact}
use cpp_epoll_chat.RoomManager.Dispatch.{planned_event, fail_event, dispatch_packet}
use cpp_epoll_chat.RoomManager.Routing.{lobby_worker_id}
use cpp_epoll_chat.RoomWorker.{message_packet, send_message}
use cpp_epoll_chat.RoomWorker.Delivery.{stream_at, copies, stream-send_message}
use cpp_epoll_chat.RoomWorker.Membership.{joined}
use cpp_epoll_chat.RoomWorker.Process.{process_event}
use cpp_epoll_chat.RoomWorker.WellFormed.{IsWellFormed}
use cpp_epoll_chat.Tests.Fixtures.{
  alice, bob, user_alice, lobby_room, chat_room, two_users-IsConsistent, world, request_to,
}
use cpp_epoll_chat.User.{get_user, get_user_id}
use cpp_epoll_chat.World.{rooms_of, post_event}

lobby_room-IsValid : IsValid lobby_room
lobby_room-IsValid = record { distinct = (tt, tt); counted = omega arith; limited = omega arith }

chat_room-IsValid : IsValid chat_room
chat_room-IsValid = record { distinct = (tt, tt); counted = omega arith; limited = omega arith }

pub world-IsWellFormed : IsWellFormed world.users.fd_to_user_id world
world-IsWellFormed = record {
  rooms = ((lobby_room-IsValid, tt), ((chat_room-IsValid, tt), tt));
  users = two_users-IsConsistent;
  keys = refl;
}

stream-send_message_example :
    stream_at (send_message 2 alice 5 (b'h' ∷ b'i' ∷ []) world).1 1
    ≡ stream_at world 1
      ++ copies 7 5
          (message_packet (get_user_id 7 world.users) 5 (b'h' ∷ b'i' ∷ []) 0)
          world.users
          chat_room.sessions
          1
unfolding find rooms_of
stream-send_message_example =
    stream-send_message 2 alice 5 (b'h' ∷ b'i' ∷ []) chat_room world 1 refl

dispatch_packet_unknown_room_example :
    (dispatch_packet (asks cmd_send_message (request_to 6)) alice world
      ≡ post_event lobby_worker_id (fail_event (asks cmd_send_message (request_to 6)) alice) world)
    × (process_event lobby_worker_id (fail_event (asks cmd_send_message (request_to 6)) alice) world
        ≡ answered cmd_send_message room_not_found alice world)
unfolding find
dispatch_packet_unknown_room_example =
    dispatch_packet_unknown_room cmd_send_message (request_to 6) alice world world refl refl

process_event_join_admitted_example :
    process_event 2 (planned_event (asks cmd_join_room (request_to 5)) alice) world
    ≡ post_event lobby_worker_id
        (joining_event (request_to 5) alice)
        (joined 2 alice 5 world chat_room)
unfolding find rooms_of get_user
process_event_join_admitted_example =
    process_event_join_admitted 2 (request_to 5) alice world chat_room user_alice refl (omega arith)
      refl refl

join_session-IsExact_example :
    IsExact (join_session bob chat_room).1
    ↔ (((join_session bob chat_room).0 ≡ false) ⊎ (find_session 8 chat_room ≡ false))
join_session-IsExact_example = join_session-IsExact bob chat_room refl
