-- ===== src/Client/Packets.antt =====
-- What the client reads of the packets that the server writes: `send_response` and `send_message` of
-- server/src/room/RoomWorker.cpp against `handle_packet` of client/src/Client.cpp.
use cpp_epoll_chat.Base.{
  ℕ, ◌+◌, ◌*◌, ◌^◌, ◌%◌, ◌<◌, ◌≡◌, refl, ◌∙◌, List, [], ◌∷◌, ◌++◌, append_assoc, length, Bool, true,
  arith,
}
use cpp_epoll_chat.Base.Bytes.{le_bytes, of_le}
use cpp_epoll_chat.Client.Replies.{handle_packet, by_kind, take_reply, take_notice}
use cpp_epoll_chat.Client.Socket.{Arrival}
use cpp_epoll_chat.Client.State.{Client}
use cpp_epoll_chat.Client.Stream.{coming}
use cpp_epoll_chat.Protocol.{
  command_of, command_byte, Response, Broadcast, event_byte, response_bytes, broadcast_bytes,
  header_bytes, header_size, serialize_packet, packet_type_byte, evt_message,
}
use cpp_epoll_chat.Result.{code_byte, result_to_resresultcode}
use cpp_epoll_chat.RoomEvent.{RoomEvent}
use cpp_epoll_chat.RoomWorker.{response_packet, message_packet}
use cpp_epoll_chat.Client.Arrivals.{
  with_arrivals, ahead, receive_lem, handle_response_lem, handle_broadcast_lem,
}

-- The first byte of a packet says which handler reads the rest.
handle_packet-by_kind :
    (kind : ℕ) (rest : List ℕ) (c : Client)
    → kind < 256
    → ahead c ≡ kind ∷ rest
    → (arrivals : List Arrival) × (handle_packet c ≡ by_kind kind (with_arrivals arrivals c))
      × (coming arrivals ≡ rest)
unfolding handle_packet of_le
handle_packet-by_kind kind rest c small e =
    let act : List ℕ → Client → Bool × Client = λ head. by_kind (of_le head) in
    let (arrivals, r, left) = receive_lem header_size (kind ∷ []) rest act c refl e in
    let value : kind + 256 * 0 ≡ kind = omega arith in
    (arrivals, r ∙ λ i. by_kind (value i) (with_arrivals arrivals c), left)

-- The server's response to an event, whole and in any portions: the client takes its code, its command
-- and its data, and what follows is left for the next packet. The data are below 2^32 bytes, and the
-- command is not an `unnamed` form of a named one.
pub handle_packet-response_packet :
    (e : RoomEvent) (pad : ℕ) (later : List ℕ) (c : Client)
    → length e.response_data < 2 ^ 32
    → command_of (command_byte e.initial_command) ≡ e.initial_command
    → command_byte e.initial_command < 256
    → ahead c ≡ response_packet e pad ++ later
    → (rest : List Arrival) × (handle_packet c ≡ (
      true,
      take_reply
          (record {
            body_len = length e.response_data;
            command = e.initial_command;
            status = code_byte (result_to_resresultcode e.result_code);
          })
          e.response_data
          (with_arrivals rest c),
    ))
      × (coming rest ≡ later)
unfolding response_packet serialize_packet header_bytes packet_type_byte le_bytes by_kind
handle_packet-response_packet e pad later c small known byte lies =
    let body = e.response_data in
    let fits : length body % 2 ^ 32 ≡ length body = omega arith in
    let s : Response = record {
      body_len = length body % 2 ^ 32;
      command = e.initial_command;
      status = result_to_resresultcode e.result_code;
    } in
    let bytes = response_bytes pad s in
    let (rest1, r1, e1) = handle_packet-by_kind 2 ((bytes ++ body) ++ later) c (omega arith) lies in
    let (rest2, r2, e2) =
      handle_response_lem pad s body later (with_arrivals rest1 c) (omega arith) (omega arith) known
        byte (e1 ∙ append_assoc bytes body later) in
    (
      rest2,
      r1 ∙ r2 ∙ λ i. (
        true,
        take_reply (record { body_len = fits i; command = s.command; status = code_byte s.status })
            body (with_arrivals rest2 c),
      ),
      e2,
    )

-- A message that the server passes on, whole and in any portions: the client takes the sender, the room
-- and the text, and what follows is left for the next packet. The text is below 2^32 bytes, and the ids
-- are 64-bit patterns.
pub handle_packet-message_packet :
    (sender_id room_id pad : ℕ) (text later : List ℕ) (c : Client)
    → length text < 2 ^ 32
    → sender_id < 2 ^ 64
    → room_id < 2 ^ 64
    → ahead c ≡ message_packet sender_id room_id text pad ++ later
    → (rest : List Arrival) × (handle_packet c ≡ (
      true,
      take_notice
          (record {
            sender_id = sender_id;
            room_id = room_id;
            body_len = length text;
            event = event_byte evt_message;
          })
          text
          (with_arrivals rest c),
    ))
      × (coming rest ≡ later)
unfolding message_packet serialize_packet header_bytes packet_type_byte le_bytes by_kind
handle_packet-message_packet sender_id room_id pad text later c small sender room lies =
    let fits : length text % 2 ^ 32 ≡ length text = omega arith in
    let b : Broadcast = record {
      sender_id = sender_id;
      room_id = room_id;
      body_len = length text % 2 ^ 32;
      event = evt_message;
    } in
    let bytes = broadcast_bytes pad b in
    let (rest1, r1, e1) = handle_packet-by_kind 3 ((bytes ++ text) ++ later) c (omega arith) lies in
    let (rest2, r2, e2) =
      handle_broadcast_lem pad b text later (with_arrivals rest1 c) (omega arith) (omega arith)
        sender room (e1 ∙ append_assoc bytes text later) in
    (
      rest2,
      r1 ∙ r2 ∙ λ i. (
        true,
        take_notice
            (record {
              sender_id = sender_id;
              room_id = room_id;
              body_len = fits i;
              event = event_byte evt_message;
            })
            text (with_arrivals rest2 c),
      ),
      e2,
    )
