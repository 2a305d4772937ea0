-- ===== src/Journeys.antt =====
-- What becomes of a request on its way through the workers: the plans of
-- server/src/room/RoomManager.cpp, run by `process_event` of server/src/room/RoomWorker.cpp.
pub mod Rejected
pub mod Moves
pub mod Lobby
pub mod Shown
pub mod Sent
pub mod Heard
pub mod Created
pub mod Abandoned
use cpp_epoll_chat.Base.{ℕ, [], List}
use cpp_epoll_chat.Protocol.{
  Packet, Command, packet_type_byte, pkt_response, response_bytes, serialize_packet,
}
use cpp_epoll_chat.Result.{Result, result_to_resresultcode}
use cpp_epoll_chat.Room.{SessionRef}
use cpp_epoll_chat.RoomWorker.{send_packet}
use cpp_epoll_chat.World.{World}

-- A packet that asks for a command.
abbrev pub asks : Command → Packet → Packet
asks c p = record p { request = record (p.request) { command = c } }

-- A response without a body.
abbrev pub status_packet : Command → Result → ℕ → List ℕ
status_packet c result padding =
    serialize_packet (record { type = packet_type_byte pkt_response })
      (response_bytes padding
        (record { body_len = 0; command = c; status = result_to_resresultcode result }))
      []

-- The world in which the session was sent such a response, and nothing else happened.
abbrev pub answered : Command → Result → SessionRef → World → World
answered c result session w = send_packet session (status_packet c result w.padding) w
