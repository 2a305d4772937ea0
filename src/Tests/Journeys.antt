-- ===== src/Tests/Journeys.antt =====
-- Requests on their way (server/src/room/RoomWorker.cpp) at concrete states.
use cpp_epoll_chat.Base.{ℕ, ◌≡◌, refl, sym, ap, List, [], ◌∷◌, ◌++◌, true, some, arith}
use cpp_epoll_chat.Client.Arrivals.{with_arrivals}
use cpp_epoll_chat.Client.Replies.{handle_packet}
use cpp_epoll_chat.Client.Socket.{Arrival, arrives}
use cpp_epoll_chat.Client.State.{Client, new_client, in_room, show, says}
use cpp_epoll_chat.Client.Stream.{coming}
use cpp_epoll_chat.Journeys.Created.{
  creating_event, moving_event, with_new_room, process_event_created,
}
use cpp_epoll_chat.Journeys.Abandoned.{process_event_created_gone}
use cpp_epoll_chat.Journeys.Heard.{process_event_sent-heard, stream-sent}
use cpp_epoll_chat.Tests.Client.{plain_socket}
use cpp_epoll_chat.RoomWorker.{message_packet}
use cpp_epoll_chat.Base.Bytes.{le_bytes}
use cpp_epoll_chat.Base.Map.{find}
use cpp_epoll_chat.Decimal.{to_string}
use cpp_epoll_chat.Journeys.{asks, answered}
use cpp_epoll_chat.Journeys.Lobby.{
  out_of_lobby, process_event_join_leaves_lobby, process_event_join_not_in_lobby,
}
use cpp_epoll_chat.Journeys.Moves.{joining_event, process_event_leave_unknown}
use cpp_epoll_chat.Protocol.{
  serialize_packet, header_bytes, broadcast_bytes, Packet, cmd_join_room, cmd_leave_room,
}
use cpp_epoll_chat.Result.{user_not_found}
use cpp_epoll_chat.Room.{SessionRef, find_session, new_room, join_session}
use cpp_epoll_chat.RoomManager.Dispatch.{planned_event}
use cpp_epoll_chat.RoomManager.Plans.{plan}
use cpp_epoll_chat.RoomEvent.{add_action}
use cpp_epoll_chat.RoomWorker.{cursor}
use cpp_epoll_chat.RoomWorker.Fuel.{process_event_enough}
use cpp_epoll_chat.RoomWorker.Membership.{joined}
use cpp_epoll_chat.RoomWorker.Process.{process_event, process_loop}
use cpp_epoll_chat.Tests.Fixtures.{alice, bob, user_bob, chat_room, lobby_room, world, request_to}
use cpp_epoll_chat.User.{get_user, get_user_id}
use cpp_epoll_chat.World.{
  post_event, WorkerType, DbJobType, db_load_messages, rooms_of, type_of, post_job,
}

process_event_join_leaves_lobby_example :
    process_event 1 (joining_event (request_to 5) alice) world
    ≡ post_job
        (record {
          type = DbJobType.load_history;
          params = to_string 5 ∷ to_string (cursor []) ∷ [];
          on_result =
              db_load_messages (record (joining_event (request_to 5) alice) { current_action = 4 });
        })
        (out_of_lobby 1 alice lobby_room world)
unfolding find rooms_of find_session type_of
process_event_join_leaves_lobby_example =
    process_event_join_leaves_lobby 1 (request_to 5) alice world lobby_room refl refl refl

process_event_join_not_in_lobby_example :
    process_event 1 (joining_event (request_to 5) bob) world
    ≡ answered cmd_join_room user_not_found bob world
unfolding find rooms_of find_session
process_event_join_not_in_lobby_example =
    process_event_join_not_in_lobby 1 (request_to 5) bob world lobby_room refl refl

process_event_leave_unknown_example :
    process_event 1 (planned_event (asks cmd_leave_room (request_to 6)) bob) world
    ≡ joined 1 bob 1 world lobby_room
unfolding find rooms_of get_user
process_event_leave_unknown_example =
    process_event_leave_unknown 1 (request_to 6) bob world lobby_room user_bob refl (omega arith)
      refl refl

process_event_enough_example :
    process_loop 9 1 (joining_event (request_to 5) alice) world
    ≡ process_event 1 (joining_event (request_to 5) alice) world
unfolding planned_event plan add_action
process_event_enough_example =
    process_event_enough 9 1 (joining_event (request_to 5) alice) world (omega arith)

-- Alice says something in the room where Bob is; the client of Bob is in that room.
abbrev hello : Packet
hello = record (request_to 5) { body = b'h' ∷ b'i' ∷ [] }

abbrev listener : Client
listener = record (new_client plain_socket 0 []) { state = in_room; room_id = 5 }

abbrev reached : List ℕ
reached = message_packet 3 5 (b'h' ∷ b'i' ∷ []) 0 ++ (2 ∷ [])

abbrev hearing : Client
hearing = with_arrivals (elim reached [ [] ↦ [] | b ∷ bs ↦ arrives b bs ∷ [] ]) listener

process_event_sent-heard_example :
    (rest : List Arrival) × (handle_packet hearing
      ≡ (true, show (says 3 (b'h' ∷ b'i' ∷ [])) (with_arrivals rest hearing)))
    × (coming rest ≡ 2 ∷ [])
unfolding find rooms_of get_user get_user_id message_packet new_client serialize_packet header_bytes
    le_bytes broadcast_bytes
process_event_sent-heard_example =
    process_event_sent-heard 2 1 hello alice world chat_room (2 ∷ []) hearing refl refl refl
      (omega arith) (omega arith) (omega arith) refl refl
      (ap (λ bytes. bytes ++ (2 ∷ []))
        (sym (stream-sent 2 1 hello alice world chat_room refl refl refl)))

-- Bob asks for a room, and the database gives it the id 42.
process_event_created_example :
    process_event 2 (creating_event (request_to 0) bob 42 (le_bytes 8 42)) world
    ≡ post_event 1
        (moving_event (request_to 0) bob 42 (le_bytes 8 42))
        (joined 2 bob 42 (with_new_room 2 42 world) (new_room 42 5))
unfolding find rooms_of get_user
process_event_created_example =
    process_event_created 2 42 (request_to 0) bob (le_bytes 8 42) world
      (record {
        worker_id = 2;
        type = WorkerType.room;
        rooms = (5, chat_room) ∷ [];
        event_queue = [];
      })
      user_bob refl refl refl refl

-- A session whose user is gone.
abbrev ghost : SessionRef
ghost = record { address = 2; fd = 9 }

process_event_created_gone_example :
    let w' = process_event 2 (creating_event (request_to 0) ghost 42 (le_bytes 8 42)) world in
    (find 42 (rooms_of 2 w') ≡ some (join_session ghost (new_room 42 5)).1)
    × (w'.room_to_worker ≡ world.room_to_worker)
unfolding find rooms_of get_user
process_event_created_gone_example =
    process_event_created_gone 2 42 (request_to 0) ghost (le_bytes 8 42) world
      (record {
        worker_id = 2;
        type = WorkerType.room;
        rooms = (5, chat_room) ∷ [];
        event_queue = [];
      })
      refl refl refl
