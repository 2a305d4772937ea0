-- ===== src/Protocol/Layout.antt =====
-- The packet layouts of protocol/Protocol.h: their sizes, and that a request is read back.
use cpp_epoll_chat.Base.{ℕ, zero, suc, ◌+◌, ◌^◌, ◌<◌, ◌≡◌, ◌≢◌, refl, ap, ◌∙◌, arith}
use cpp_epoll_chat.Base.{List, ◌++◌, length}
use cpp_epoll_chat.Base.Bytes.{le_bytes, of_le, of_le-le_bytes}
use cpp_epoll_chat.Protocol.{
  Command, cmd_create_room, cmd_join_room, cmd_leave_room, cmd_send_message, cmd_load_message,
  unnamed, command_byte, command_of, Header, Request, Response, Broadcast, request_size,
  header_bytes, request_bytes, response_bytes, broadcast_bytes, request_of, serialize_packet,
}

-- A byte names one command.
pub command_of-command_byte :
    (c : Command) → ((b : ℕ) → c ≢ unnamed b) → command_of (command_byte c) ≡ c
unfolding command_of command_byte
command_of-command_byte cmd_create_room h = refl
command_of-command_byte cmd_join_room h = refl
command_of-command_byte cmd_leave_room h = refl
command_of-command_byte cmd_send_message h = refl
command_of-command_byte cmd_load_message h = refl
command_of-command_byte (unnamed b) h = absurd (h b refl)

pub command_byte-command_of : (b : ℕ) → command_byte (command_of b) ≡ b
unfolding command_of command_byte
command_byte-command_of zero = refl
command_byte-command_of (suc zero) = refl
command_byte-command_of (suc (suc zero)) = refl
command_byte-command_of (suc (suc (suc zero))) = refl
command_byte-command_of (suc (suc (suc (suc zero)))) = refl
command_byte-command_of (suc (suc (suc (suc (suc zero))))) = refl
command_byte-command_of (suc (suc (suc (suc (suc (suc b)))))) = refl

pub length-request_bytes : (pad : ℕ) (q : Request) → length (request_bytes pad q) ≡ request_size
unfolding request_bytes le_bytes
length-request_bytes pad q = refl

-- Each packet takes its header, its structure with the padding, and its body.
pub length-serialize_packet :
    (h : Header) (pad : ℕ) (q : Request) (s : Response) (b : Broadcast) (body : List ℕ)
    → (length (serialize_packet h (request_bytes pad q) body) ≡ 1 + 16 + length body)
      × (length (serialize_packet h (response_bytes pad s) body) ≡ 1 + 8 + length body)
      × (length (serialize_packet h (broadcast_bytes pad b) body) ≡ 1 + 24 + length body)
unfolding serialize_packet header_bytes request_bytes response_bytes broadcast_bytes le_bytes
length-serialize_packet h pad q s b body = (omega arith, omega arith, omega arith)

-- What `request_of` reads from a written request, whatever its padding and whatever follows it.
pub request_of-request_bytes :
    (pad : ℕ) (q : Request) (more : List ℕ)
    → q.room_id < 2 ^ 64
    → q.body_len < 2 ^ 32
    → command_of (command_byte q.command) ≡ q.command
    → command_byte q.command < 256
    → request_of (request_bytes pad q ++ more) ≡ q
unfolding request_of request_bytes
request_of-request_bytes pad q more room len known small =
    let r : of_le (le_bytes 8 q.room_id) ≡ q.room_id = of_le-le_bytes 8 q.room_id (omega arith) in
    let b : of_le (le_bytes 4 q.body_len) ≡ q.body_len =
      of_le-le_bytes 4 q.body_len (omega arith) in
    let c : command_of (of_le (le_bytes 1 (command_byte q.command))) ≡ q.command =
      ap command_of (of_le-le_bytes 1 (command_byte q.command) (omega arith)) ∙ known in
    unfold le_bytes in λ i. record { room_id = r i; body_len = b i; command = c i }
