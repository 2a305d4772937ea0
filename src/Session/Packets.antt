-- ===== src/Session/Packets.antt =====
-- The packet at the front of the received bytes, described without the state of the session
-- (`Session::extract_packet` of server/src/network/Session.cpp).
use cpp_epoll_chat.Base.{ℕ, ◌+◌, ◌≤◌, ◌≡◌, ap, ◌∙◌, arith}
use cpp_epoll_chat.Base.{List, [], ◌++◌, length, take, drop, Bool}
use cpp_epoll_chat.Base.{Option, none, some, ltb, if◌then◌else◌}
use cpp_epoll_chat.Base.{length-append, length-drop, take-append, drop-append}
use cpp_epoll_chat.Protocol.{Request, Packet, header_of, request_of}
use cpp_epoll_chat.Session.{Session, extract_packet}

-- The packet at the front of the bytes, and what follows it. A packet has 1 + 16 bytes and its body.
abbrev pub end_of : List ℕ → ℕ
end_of buf = 17 + (request_of (drop 1 buf)).body_len

unfoldable pub next_packet : List ℕ → Option (Packet × List ℕ)
next_packet buf =
    if ltb (length buf) 17
    then none
    else (if ltb (length buf) (end_of buf)
        then none
        else some (
          record {
            header = header_of buf;
            request = request_of (drop 1 buf);
            body = take (request_of (drop 1 buf)).body_len (drop 17 buf);
          },
          drop (end_of buf) buf,
        ))

-- Whether `extract_packet` found a packet, and which.
abbrev pub extracted : Bool × Packet × Session → Option (Packet × List ℕ)
extracted r = if r.0 then some (r.1, r.2.recv_buffer) else none

-- From a packet whose body is empty, as `handle_request` hands it over, `extract_packet` yields the
-- packet at the front of the buffer if it is there whole, and else leaves the session as it was.
pub extract_packet-next_packet :
    (s : Session) (p : Packet)
    → p.body ≡ []
    → (extracted (extract_packet s p) ≡ next_packet s.recv_buffer)
      × (next_packet s.recv_buffer ≡ none → (extract_packet s p).2 ≡ s)
unfolding extract_packet next_packet
extract_packet-next_packet s p e = ground arith

-- A request takes 16 bytes: those behind it do not change it.
request_of-append : (xs ys : List ℕ) → 16 ≤ length xs → request_of (xs ++ ys) ≡ request_of xs
unfolding request_of
request_of-append xs ys h =
    let d8 : take 4 (drop 8 (xs ++ ys)) ≡ take 4 (drop 8 xs) =
      ap (take 4) (drop-append 8 xs ys (omega arith))
      ∙ take-append 4 (drop 8 xs) ys (omega (arith, length-drop 8 xs)) in
    let d12 : take 1 (drop 12 (xs ++ ys)) ≡ take 1 (drop 12 xs) =
      ap (take 1) (drop-append 12 xs ys (omega arith))
      ∙ take-append 1 (drop 12 xs) ys (omega (arith, length-drop 12 xs)) in
    rw (take-append 8 xs ys (omega arith), d8, d12)

pub next_packet-inv :
    (buf : List ℕ) {p : Packet} {rest : List ℕ}
    → next_packet buf ≡ some (p, rest)
    → (end_of buf ≤ length buf)
      × (p ≡ record {
        header = header_of buf;
        request = request_of (drop 1 buf);
        body = take (request_of (drop 1 buf)).body_len (drop 17 buf);
      })
      × (rest ≡ drop (end_of buf) buf)
unfolding next_packet
next_packet-inv buf e = ground arith

pub next_packet_whole :
    (buf : List ℕ)
    → end_of buf ≤ length buf
    → next_packet buf
      ≡ some (
        record {
          header = header_of buf;
          request = request_of (drop 1 buf);
          body = take (request_of (drop 1 buf)).body_len (drop 17 buf);
        },
        drop (end_of buf) buf,
      )
unfolding next_packet
next_packet_whole buf h = ground arith

-- A packet that is there whole is cut off the same way when more bytes follow.
pub next_packet-append :
    (buf more : List ℕ) (p : Packet) (rest : List ℕ)
    → next_packet buf ≡ some (p, rest)
    → next_packet (buf ++ more) ≡ some (p, rest ++ more)
unfolding header_of
next_packet-append buf more p rest e =
    let (fits, ep, er) = next_packet-inv buf e in
    let body_len = (request_of (drop 1 buf)).body_len in
    let req : request_of (drop 1 (buf ++ more)) ≡ request_of (drop 1 buf) =
      ap request_of (drop-append 1 buf more (omega arith))
      ∙ request_of-append (drop 1 buf) more (omega (arith, length-drop 1 buf)) in
    let end : end_of (buf ++ more) ≡ end_of buf = ap (λ (q : Request). 17 + q.body_len) req in
    let body : take body_len (drop 17 (buf ++ more)) ≡ take body_len (drop 17 buf) =
      ap (take body_len) (drop-append 17 buf more (omega arith))
      ∙ take-append body_len (drop 17 buf) more (omega (arith, length-drop 17 buf)) in
    next_packet_whole (buf ++ more) (omega (arith, end, length-append buf more))
    ∙ rw (
      req,
      take-append 1 buf more (omega arith),
      body,
      drop-append (end_of buf) buf more fits,
      ep,
      er,
    )
