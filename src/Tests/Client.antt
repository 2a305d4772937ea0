-- ===== src/Tests/Client.antt =====
-- The client (client/src) at concrete states, and against the server.
use cpp_epoll_chat.Base.{
  ℕ, All, ◌≡◌, ◌≢◌, ◌⊎◌, ◌++◌, refl, [], ◌∷◌, List, drop, true, false, none, some, arith,
}
use cpp_epoll_chat.Base.Bytes.{le_bytes}
use cpp_epoll_chat.Client.History.{paged, take_reply-join}
use cpp_epoll_chat.Client.Loop.{input, packet, run}
use cpp_epoll_chat.Client.Arrivals.{with_arrivals}
use cpp_epoll_chat.Client.Packets.{handle_packet-response_packet, handle_packet-message_packet}
use cpp_epoll_chat.Client.Replies.{take_reply, take_notice, handle_packet, moved}
use cpp_epoll_chat.Client.Requests.{send_request, packed_request}
use cpp_epoll_chat.Client.RunSettled.{run-IsSettled}
use cpp_epoll_chat.Client.Sending.{request_packet, send_request_lem, extract_packet-send_request}
use cpp_epoll_chat.Client.Settled.{IsSettled}
use cpp_epoll_chat.Client.Socket.{Socket, Arrival, arrives, closes, flush, send_all}
use cpp_epoll_chat.Client.State.{Client, Line, in_room, new_client, print_prompt, show}
use cpp_epoll_chat.Client.Stream.{coming, coming-kept}
use cpp_epoll_chat.Message.{Message, serialize, put_messages, put_message}
use cpp_epoll_chat.Codec.{put, put_str}
use cpp_epoll_chat.Message.RoundTrip.{Fits}
use cpp_epoll_chat.Protocol.{
  Command, cmd_join_room, event_byte, evt_message, command_of, command_byte, serialize_packet,
  header_bytes, request_bytes, response_bytes, broadcast_bytes,
}
use cpp_epoll_chat.Result.{Result, code_byte, result_to_resresultcode}
use cpp_epoll_chat.RoomEvent.{RoomEvent, room_event}
use cpp_epoll_chat.RoomWorker.{response_packet, message_packet}
use cpp_epoll_chat.Session.{Session, accepted, failed, extract_packet}
use cpp_epoll_chat.Session.Framing.{empty_packet}
use cpp_epoll_chat.Session.Packets.{extracted}
use cpp_epoll_chat.Base.{◌∙◌, append-nil, length}
use cpp_epoll_chat.Base.Map.{find}
use cpp_epoll_chat.Client.Socket.{kept}
use cpp_epoll_chat.Journeys.{asks}
use cpp_epoll_chat.Journeys.Shown.{refused, process_event_join_full-shown}
use cpp_epoll_chat.RoomManager.Dispatch.{planned_event}
use cpp_epoll_chat.RoomWorker.Delivery.{stream_at}
use cpp_epoll_chat.RoomWorker.Process.{process_event}
use cpp_epoll_chat.World.{rooms_of}
use cpp_epoll_chat.Tests.Fixtures.{connection, alice, request_to, world_with, full_room}

-- Five bytes in two portions, before the connection ends.
abbrev two_portions : List Arrival
two_portions = arrives 1 (2 ∷ []) ∷ arrives 3 (4 ∷ 5 ∷ []) ∷ closes ∷ []

abbrev pub plain_socket : Socket
plain_socket = record {
  send_buf = [];
  arrivals = two_portions;
  answers = accepted 5 ∷ accepted 100 ∷ [];
  sent = 9 ∷ [];
}

abbrev client : Client
client = new_client plain_socket 0 []

-- The kernel takes five bytes of a request, and then fails.
abbrev failing_client : Client
failing_client = new_client (record plain_socket { answers = accepted 5 ∷ failed ∷ [] }) 0 []

send_request_lem_example :
    let r = send_request cmd_join_room 5 [] failing_client in
    (r.1.sock.send_buf ≡ [])
    × (((r.0 ≡ true)
          × (r.1.sock.sent ≡ (9 ∷ []) ++ request_packet cmd_join_room 5 [] 0)
          × (r.1.pending ≡ some (record { command = cmd_join_room; room_id = 5 })))
        ⊎ ((r.0 ≡ false)
            × (front : List ℕ) × (lost : List ℕ) × (lost ≢ [])
            × (front ++ lost ≡ request_packet cmd_join_room 5 [] 0)
            × (r.1.sock.sent ≡ (9 ∷ []) ++ front)
            × (r.1.pending ≡ none)))
unfolding new_client
send_request_lem_example = send_request_lem cmd_join_room 5 [] failing_client refl

-- A session that has received the request of the client.
abbrev receiver : Session
receiver = record (connection 0) {
  recv_buffer = drop 1 (send_request cmd_join_room 5 [] client).1.sock.sent ++ (1 ∷ []);
}

extract_packet-send_request_example :
    extracted (extract_packet receiver empty_packet)
    ≡ some (
      record {
        header = record { type = 1 };
        request = record { room_id = 5; body_len = 0; command = cmd_join_room };
        body = [];
      },
      1 ∷ [],
    )
unfolding send_request command_of command_byte new_client flush packed_request header_bytes le_bytes
    send_all request_bytes
extract_packet-send_request_example =
    extract_packet-send_request cmd_join_room 5 [] (1 ∷ []) client receiver empty_packet refl refl
      refl refl (omega arith) (omega arith) refl (omega arith)

run-IsSettled_example :
    IsSettled (run (input (b'/' ∷ b'x' ∷ []) ∷ packet ∷ []) (new_client plain_socket 0 []))
run-IsSettled_example =
    run-IsSettled (input (b'/' ∷ b'x' ∷ []) ∷ packet ∷ []) plain_socket 0 [] refl

-- The server's answer to a request to join, with no data.
abbrev answer : RoomEvent
answer = record (room_event cmd_join_room) { result_code = Result.room_full }

abbrev arriving : List ℕ → Client
arriving bytes = with_arrivals (elim bytes [ [] ↦ [] | b ∷ bs ↦ arrives b bs ∷ [] ]) client

handle_packet-response_packet_example :
    let c = arriving (response_packet answer 0 ++ (2 ∷ [])) in
    (rest : List Arrival) × (handle_packet c ≡ (
      true,
      take_reply
          (record {
            body_len = 0;
            command = cmd_join_room;
            status = code_byte (result_to_resresultcode Result.room_full);
          })
          []
          (with_arrivals rest c),
    ))
    × (coming rest ≡ 2 ∷ [])
unfolding room_event command_of command_byte response_packet serialize_packet header_bytes le_bytes
    response_bytes
handle_packet-response_packet_example =
    handle_packet-response_packet answer 0 (2 ∷ [])
      (arriving (response_packet answer 0 ++ (2 ∷ []))) (omega arith) refl (omega arith) refl

handle_packet-message_packet_example :
    let c = arriving (message_packet 3 5 (b'h' ∷ []) 0 ++ (2 ∷ [])) in
    (rest : List Arrival) × (handle_packet c ≡ (
      true,
      take_notice
          (record { sender_id = 3; room_id = 5; body_len = 1; event = event_byte evt_message })
          (b'h' ∷ [])
          (with_arrivals rest c),
    ))
    × (coming rest ≡ 2 ∷ [])
unfolding message_packet serialize_packet header_bytes le_bytes broadcast_bytes
handle_packet-message_packet_example =
    handle_packet-message_packet 3 5 0 (b'h' ∷ []) (2 ∷ [])
      (arriving (message_packet 3 5 (b'h' ∷ []) 0 ++ (2 ∷ []))) (omega arith) (omega arith)
      (omega arith) refl

abbrev old_message : Message
old_message = record {
  id = 41;
  sender_id = 3;
  created_epoch = 100;
  sender_nick = b'n' ∷ [];
  content = b'o' ∷ [];
}

abbrev new_message : Message
new_message = record old_message { id = 42; content = b'k' ∷ [] }

abbrev pub two_messages : List Message
two_messages = new_message ∷ old_message ∷ []

pub two_messages-Fits : All Fits two_messages
two_messages-Fits = (
  record {
    id = omega arith;
    sender_id = omega arith;
    created_epoch = omega arith;
    sender_nick = omega arith;
    content = omega arith;
  },
  (
    record {
      id = omega arith;
      sender_id = omega arith;
      created_epoch = omega arith;
      sender_nick = omega arith;
      content = omega arith;
    },
    tt,
  ),
)

abbrev waits_for : Command → Client
waits_for cmd = record client { pending = some (record { command = cmd; room_id = 5 }) }

take_reply-join_example :
    take_reply
      (record { body_len = 0; command = cmd_join_room; status = 1 })
      (serialize two_messages)
      (waits_for cmd_join_room)
    ≡ print_prompt (
        paged two_messages (
          show
            (Line.joined 5)
            (moved in_room 5 (record (waits_for cmd_join_room) { pending = none }))))
unfolding serialize put_messages put_message put put_str le_bytes
take_reply-join_example =
    take_reply-join 5 two_messages (record { body_len = 0; command = cmd_join_room; status = 1 })
      (waits_for cmd_join_room) refl refl refl (omega arith) two_messages-Fits (omega arith)

-- The room is full, and the worker's answer arrives with a byte behind it.
abbrev refusal : List ℕ
refusal =
    drop (length (stream_at (world_with full_room) 0)) (
      stream_at
        (process_event 2 (planned_event (asks cmd_join_room (request_to 5)) alice)
          (world_with full_room))
        0)
    ++ (2 ∷ [])

abbrev refused_client : Client
refused_client = with_arrivals (kept refusal []) (waits_for cmd_join_room)

process_event_join_full-shown_example :
    (rest : List Arrival) × (handle_packet refused_client ≡ (
      true,
      refused cmd_join_room
          (code_byte (result_to_resresultcode Result.room_full))
          (with_arrivals rest refused_client),
    ))
    × (coming rest ≡ 2 ∷ [])
unfolding find rooms_of
process_event_join_full-shown_example =
    process_event_join_full-shown 2 (request_to 5) alice (world_with full_room) full_room (2 ∷ [])
      refused_client refl (omega arith) refl (coming-kept refusal [] ∙ append-nil refusal)
