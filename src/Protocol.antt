-- ===== src/Protocol.antt =====
-- protocol/Protocol.h: the packets and their layout in memory, which `memcpy` puts on the wire as it
-- is. The structures have the alignment of their largest field, so padding bytes are on the wire too;
-- their contents are whatever the memory held, and the `pad` of each function here.
pub mod Layout
use cpp_epoll_chat.Base.{ℕ, zero, suc, List, [], ◌∷◌, ◌++◌, take, drop}
use cpp_epoll_chat.Base.Bytes.{le_bytes, of_le}
use cpp_epoll_chat.Result.{ResponseResultCode, code_byte}

pub data PacketType : Type 0 where
  pkt_request pkt_response pkt_broadcast : PacketType

unfoldable pub packet_type_byte : PacketType → ℕ
packet_type_byte pkt_request = 1
packet_type_byte pkt_response = 2
packet_type_byte pkt_broadcast = 3

-- A `Command` that came over the wire may hold any byte: `unnamed b` is one that is no enumerator.
pub data Command : Type 0 where
  cmd_create_room cmd_join_room cmd_leave_room cmd_send_message cmd_load_message : Command
  unnamed : ℕ → Command

unfoldable pub command_byte : Command → ℕ
command_byte cmd_create_room = 1
command_byte cmd_join_room = 2
command_byte cmd_leave_room = 3
command_byte cmd_send_message = 4
command_byte cmd_load_message = 5
command_byte (unnamed b) = b

unfoldable pub command_of : ℕ → Command
command_of (suc zero) = cmd_create_room
command_of (suc (suc zero)) = cmd_join_room
command_of (suc (suc (suc zero))) = cmd_leave_room
command_of (suc (suc (suc (suc zero)))) = cmd_send_message
command_of (suc (suc (suc (suc (suc zero))))) = cmd_load_message
command_of b = unnamed b

pub data Event : Type 0 where
  evt_message evt_user_join evt_user_leave : Event

unfoldable pub event_byte : Event → ℕ
event_byte evt_message = 1
event_byte evt_user_join = 2
event_byte evt_user_leave = 3

-- `type` is the byte that arrived.
pub record Header : Type 0 where
  pub type : ℕ

pub record Request : Type 0 where
  pub room_id : ℕ
  pub body_len : ℕ
  pub command : Command

pub record Response : Type 0 where
  pub body_len : ℕ
  pub command : Command
  pub status : ResponseResultCode

pub record Broadcast : Type 0 where
  pub sender_id : ℕ
  pub room_id : ℕ
  pub body_len : ℕ
  pub event : Event

pub record Packet : Type 0 where
  pub header : Header
  pub request : Request
  pub body : List ℕ

abbrev pub header_size : ℕ
header_size = 1

abbrev pub request_size : ℕ
request_size = 16

abbrev pub response_size : ℕ
response_size = 8

abbrev pub broadcast_size : ℕ
broadcast_size = 24

unfoldable pub header_bytes : Header → List ℕ
header_bytes h = le_bytes 1 h.type

unfoldable pub request_bytes : ℕ → Request → List ℕ
request_bytes pad q =
    le_bytes 8 q.room_id
    ++ (le_bytes 4 q.body_len ++ (le_bytes 1 (command_byte q.command) ++ le_bytes 3 pad))

unfoldable pub response_bytes : ℕ → Response → List ℕ
response_bytes pad s =
    le_bytes 4 s.body_len
    ++ (le_bytes 1 (command_byte s.command) ++ (le_bytes 1 (code_byte s.status) ++ le_bytes 2 pad))

unfoldable pub broadcast_bytes : ℕ → Broadcast → List ℕ
broadcast_bytes pad b =
    le_bytes 8 b.sender_id
    ++ (le_bytes 8 b.room_id
        ++ (le_bytes 4 b.body_len ++ (le_bytes 1 (event_byte b.event) ++ le_bytes 3 pad)))

-- `memcpy` the other way: the fields at their offsets.
unfoldable pub header_of : List ℕ → Header
header_of bs = record { type = of_le (take 1 bs) }

unfoldable pub request_of : List ℕ → Request
request_of bs = record {
  room_id = of_le (take 8 bs);
  body_len = of_le (take 4 (drop 8 bs));
  command = command_of (of_le (take 1 (drop 12 bs)));
}

-- The packet's structure is given by its bytes; an empty body copies nothing.
unfoldable pub serialize_packet : Header → List ℕ → List ℕ → List ℕ
serialize_packet header packet body = header_bytes header ++ (packet ++ body)
