-- ===== src/Client/Sending.antt =====
-- A request from the client (`send_request` of client/src/Client.cpp) to the server
-- (`Session::extract_packet` of server/src/network/Session.cpp).
use cpp_epoll_chat.Base.{
  ℕ, ◌^◌, ◌%◌, ◌<◌, ◌≡◌, ◌≢◌, refl, ap, ◌∙◌, List, [], ◌∷◌, ◌++◌, append_assoc, append-nil, length,
  drop, true, false, some, inl, inr, ◌⊎◌, drop-length_append, arith,
}
use cpp_epoll_chat.Client.Requests.{packed_request, send_request}
use cpp_epoll_chat.Client.Socket.{Socket}
use cpp_epoll_chat.Client.State.{Client}
use cpp_epoll_chat.Client.Stream.{flush_lem}
use cpp_epoll_chat.Protocol.{
  Command, command_of, command_byte, Packet, pkt_request, packet_type_byte, request_bytes,
  serialize_packet,
}
use cpp_epoll_chat.Session.{Session, extract_packet}
use cpp_epoll_chat.Session.Packets.{extracted}
use cpp_epoll_chat.Session.Received.{extract_packet-serialize_packet}

-- The request on the wire.
abbrev pub request_packet : Command → ℕ → List ℕ → ℕ → List ℕ
request_packet cmd room_id body padding =
    serialize_packet (record { type = packet_type_byte pkt_request })
      (request_bytes padding
        (record { room_id = room_id; body_len = length body % 2 ^ 32; command = cmd }))
      body

packed_request_lem :
    (cmd : Command) (room_id : ℕ) (body : List ℕ) (padding : ℕ) (s : Socket)
    → ((packed_request cmd room_id body padding s).send_buf
        ≡ s.send_buf ++ request_packet cmd room_id body padding)
      × ((packed_request cmd room_id body padding s).sent ≡ s.sent)
unfolding packed_request serialize_packet
packed_request_lem cmd room_id [] padding s = (simp (append_assoc, append-nil), refl)
packed_request_lem cmd room_id (b ∷ bs) padding s = (simp (append_assoc), refl)

-- How `send_request` may end: the whole request went out and its answer is awaited, or a part of it did
-- not go out, and nothing is awaited that was not before.
pub send_request_lem :
    (cmd : Command) (room_id : ℕ) (body : List ℕ) (c : Client)
    → c.sock.send_buf ≡ []
    → let r = send_request cmd room_id body c in
      (r.1.sock.send_buf ≡ [])
      × (((r.0 ≡ true)
            × (r.1.sock.sent ≡ c.sock.sent ++ request_packet cmd room_id body c.padding)
            × (r.1.pending ≡ some (record { command = cmd; room_id = room_id })))
          ⊎ ((r.0 ≡ false)
              × (front : List ℕ) × (lost : List ℕ) × (lost ≢ [])
              × (front ++ lost ≡ request_packet cmd room_id body c.padding)
              × (r.1.sock.sent ≡ c.sock.sent ++ front)
              × (r.1.pending ≡ c.pending)))
unfolding send_request
send_request_lem cmd room_id body c empty =
    let s = packed_request cmd room_id body c.padding c.sock in
    let (buf, sent) = packed_request_lem cmd room_id body c.padding c.sock in
    let full : s.send_buf ≡ request_packet cmd room_id body c.padding =
      buf ∙ ap (λ l. l ++ request_packet cmd room_id body c.padding) empty in
    let (cleared, ends) = flush_lem s in
    elim ends [
      | inl (ok, out) ↦
          rw (ok, send_request) (cleared, inl (refl, out ∙ (λ i. sent i ++ full i), refl))
      | inr (ok, front, lost, some', e, out) ↦
          rw (ok, send_request)
            (
              cleared,
              inr (refl, front, lost, some', e ∙ full, out ∙ ap (λ l. l ++ front) sent, refl),
            )
    ]

-- What the server reads of it: a session that has received what the client sent, from an empty buffer,
-- extracts the command, the room and the body, whatever follows. The body is below 2^32 bytes, the room
-- is a 64-bit pattern, the command is not an `unnamed` form of a named one, and `send_request` succeeded.
pub extract_packet-send_request :
    (cmd : Command) (room_id : ℕ) (body later : List ℕ) (c : Client) (s : Session) (p : Packet)
    → c.sock.send_buf ≡ []
    → (send_request cmd room_id body c).0 ≡ true
    → p.body ≡ []
    → s.recv_buffer
      ≡ drop (length c.sock.sent) (send_request cmd room_id body c).1.sock.sent ++ later
    → length body < 2 ^ 32
    → room_id < 2 ^ 64
    → command_of (command_byte cmd) ≡ cmd
    → command_byte cmd < 256
    → extracted (extract_packet s p)
      ≡ some (
        record {
          header = record { type = 1 };
          request = record { room_id = room_id; body_len = length body; command = cmd };
          body = body;
        },
        later,
      )
unfolding packet_type_byte
extract_packet-send_request cmd room_id body later c s p empty ok fresh buf small room known byte =
    let fits : length body % 2 ^ 32 ≡ length body = omega arith in
    let out : (send_request cmd room_id body c).1.sock.sent
        ≡ c.sock.sent ++ request_packet cmd room_id body c.padding =
      elim (send_request_lem cmd room_id body c empty).1 [
        | inl (_, e, _) ↦ e
        | inr (bad, _, _, _, _, _, _) ↦ cc
      ] in
    let arrived : s.recv_buffer ≡ request_packet cmd room_id body c.padding ++ later =
      buf
      ∙ ap (λ l. drop (length c.sock.sent) l ++ later) out
      ∙ ap (λ l. l ++ later)
          (drop-length_append c.sock.sent (request_packet cmd room_id body c.padding)) in
    extract_packet-serialize_packet s p (record { type = 1 }) c.padding
      (record { room_id = room_id; body_len = length body % 2 ^ 32; command = cmd }) body later
      fresh arrived (omega arith) room fits small known byte
    ∙ λ i. some (
      record {
        header = record { type = 1 };
        request = record { room_id = room_id; body_len = fits i; command = cmd };
        body = body;
      },
      later,
    )
