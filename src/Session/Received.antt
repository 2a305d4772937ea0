-- ===== src/Session/Received.antt =====
-- A request on the wire and what the server reads of it (`serialize_packet` of
-- protocol/Protocol.h, `Session::extract_packet` of server/src/network/Session.cpp).
use cpp_epoll_chat.Base.{ℕ, zero, suc, ◌+◌, ◌^◌, ◌%◌, ◌<◌, ◌≡◌, refl, ap, ◌∙◌, subst, arith}
use cpp_epoll_chat.Base.{List, [], ◌∷◌, ◌++◌, append_assoc, length, take, drop}
use cpp_epoll_chat.Base.{some}
use cpp_epoll_chat.Base.{length-append}
use cpp_epoll_chat.Base.{drop-length_append, take-length_append, drop-drop}
use cpp_epoll_chat.Base.Bytes.{of_le, le_bytes}
use cpp_epoll_chat.Protocol.{
  Header, Request, Packet, command_byte, command_of, header_of, header_bytes, request_of,
  request_bytes, serialize_packet,
}
use cpp_epoll_chat.Protocol.Layout.{length-request_bytes, request_of-request_bytes}
use cpp_epoll_chat.Session.{Session, extract_packet}
use cpp_epoll_chat.Session.Packets.{
  end_of, next_packet, next_packet_whole, extracted, extract_packet-next_packet,
}

next_packet_parts :
    (buf : List ℕ) (h : Header) (q : Request) (body later : List ℕ)
    → header_of buf ≡ h
    → request_of (drop 1 buf) ≡ q
    → q.body_len ≡ length body
    → drop 17 buf ≡ body ++ later
    → length buf ≡ 17 + length body + length later
    → next_packet buf ≡ some (record { header = h; request = q; body = body }, later)
next_packet_parts buf h q body later header request len past size =
    let same : (request_of (drop 1 buf)).body_len ≡ length body =
      ap (λ (x : Request). x.body_len) request ∙ len in
    let text : take (request_of (drop 1 buf)).body_len (drop 17 buf) ≡ body =
      ap (λ n. take n (drop 17 buf)) same
      ∙ ap (take (length body)) past
      ∙ take-length_append body later in
    let rest : drop (end_of buf) buf ≡ later =
      drop-drop 17 (length body) (end_of buf) buf (omega (arith, same))
      ∙ ap (drop (length body)) past
      ∙ drop-length_append body later in
    next_packet_whole buf (omega (arith, same, size)) ∙ λ i.
    some (record { header = header i; request = request i; body = text i }, rest i)

one_byte : (v : ℕ) → v < 256 → of_le ((v % 256) ∷ []) ≡ v
unfolding of_le
one_byte v h = omega arith

drop-drop_one : (n : ℕ) (xs : List ℕ) → drop (suc n) xs ≡ drop n (drop 1 xs)
drop-drop_one zero [] = refl
drop-drop_one (suc n) [] = refl
drop-drop_one n (x ∷ xs) = refl

-- A request that was serialised is the next packet, whatever its padding and whatever follows it: its
-- fields fit their widths, `body_len` is the length of the body, and the command is not an `unnamed`
-- form of a named one.
pub next_packet-serialize_packet :
    (h : Header) (pad : ℕ) (q : Request) (body later : List ℕ)
    → h.type < 256
    → q.room_id < 2 ^ 64
    → q.body_len ≡ length body
    → length body < 2 ^ 32
    → command_of (command_byte q.command) ≡ q.command
    → command_byte q.command < 256
    → next_packet (serialize_packet h (request_bytes pad q) body ++ later)
      ≡ some (record { header = h; request = q; body = body }, later)
unfolding serialize_packet header_bytes header_of
next_packet-serialize_packet h pad q body later type room len small known byte =
    let head = request_bytes pad q in
    let buf = serialize_packet h head body ++ later in
    let tail : drop 1 buf ≡ head ++ (body ++ later) =
      unfold le_bytes in append_assoc head body later in
    let request : request_of (drop 1 buf) ≡ q =
      ap request_of tail
      ∙ request_of-request_bytes pad q (body ++ later) room (omega (arith, len)) known byte in
    let size : length buf ≡ 17 + length body + length later =
      unfold le_bytes in
      omega (
        arith,
        length-append (head ++ body) later,
        length-append head body,
        length-request_bytes pad q,
      ) in
    let past : drop 17 buf ≡ body ++ later =
      drop-drop_one 16 buf
      ∙ ap (drop 16) tail
      ∙ subst (λ (n : ℕ). drop n (head ++ (body ++ later)) ≡ body ++ later)
          (length-request_bytes pad q) (drop-length_append head (body ++ later)) in
    let header : header_of buf ≡ h =
      unfold le_bytes in λ i. record { type = one_byte h.type type i } in
    next_packet_parts buf h q body later header request len past size

-- From a buffer that begins with a serialised request, `extract_packet` takes that request into a
-- packet whose body is empty, and leaves what follows it, whatever the padding and whatever
-- follows. The request's fields fit their widths, `body_len` is the length of the body, and the
-- command is not an `unnamed` form of a named one.
pub extract_packet-serialize_packet :
    (s : Session) (p : Packet) (h : Header) (pad : ℕ) (q : Request) (body later : List ℕ)
    → p.body ≡ []
    → s.recv_buffer ≡ serialize_packet h (request_bytes pad q) body ++ later
    → h.type < 256
    → q.room_id < 2 ^ 64
    → q.body_len ≡ length body
    → length body < 2 ^ 32
    → command_of (command_byte q.command) ≡ q.command
    → command_byte q.command < 256
    → extracted (extract_packet s p) ≡ some (record { header = h; request = q; body = body }, later)
extract_packet-serialize_packet s p h pad q body later empty buf type room len small known byte =
    (extract_packet-next_packet s p empty).0
    ∙ ap next_packet buf
    ∙ next_packet-serialize_packet h pad q body later type room len small known byte
