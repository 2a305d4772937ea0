-- ===== src/Client/Arrivals.antt =====
-- What the client reads of the bytes ahead of it (`handle_response` and `handle_broadcast` of
-- client/src/Client.cpp).
use cpp_epoll_chat.Base.{
  ℕ, ◌^◌, ◌≤◌, ◌<◌, ◌≡◌, refl, ap, ◌∙◌, List, ◌++◌, length, take, drop, Bool, true, length-append,
  take-length_append, drop-length_append, arith,
}
use cpp_epoll_chat.Base.Bytes.{le_bytes, of_le, of_le-le_bytes}
use cpp_epoll_chat.Client.Replies.{
  Reply, Notice, reply_of, notice_of, received, receive, handle_response, handle_broadcast,
  take_reply, take_notice,
}
use cpp_epoll_chat.Client.Socket.{Arrival}
use cpp_epoll_chat.Client.State.{Client}
use cpp_epoll_chat.Client.Stream.{coming, recv_all_enough}
use cpp_epoll_chat.Protocol.{
  command_of, command_byte, Response, Broadcast, event_byte, response_bytes, broadcast_bytes,
  response_size, broadcast_size, evt_message, Event, evt_user_join, evt_user_leave,
}
use cpp_epoll_chat.Result.{code_byte, ResponseResultCode}

-- The client with other bytes ahead of it.
abbrev pub with_arrivals : List Arrival → Client → Client
with_arrivals rest c = record c { sock = record (c.sock) { arrivals = rest } }

abbrev pub ahead : Client → List ℕ
ahead c = coming c.sock.arrivals

-- A read of bytes that are coming.
pub receive_lem :
    (n : ℕ) (head later : List ℕ) (act : List ℕ → Client → Bool × Client) (c : Client)
    → n ≡ length head
    → ahead c ≡ head ++ later
    → (rest : List Arrival) × (receive n act c ≡ act head (with_arrivals rest c))
      × (coming rest ≡ later)
receive_lem n head later act c size e =
    let enough : n ≤ length (coming c.sock.arrivals) =
      omega (arith, ap length e, length-append head later) in
    let (rest, r, left) = recv_all_enough n c.sock.arrivals enough in
    let front : take n (coming c.sock.arrivals) ≡ head =
      ap (take n) e ∙ ap (λ (k : ℕ). take k (head ++ later)) size ∙ take-length_append head later in
    (
      rest,
      ap (received act c) r ∙ λ i. act (front i) (with_arrivals rest c),
      left
          ∙ ap (drop n) e
          ∙ ap (λ (k : ℕ). drop k (head ++ later)) size
          ∙ drop-length_append head later,
    )

code_byte-lt : (s : ResponseResultCode) → code_byte s < 256
unfolding code_byte
code_byte-lt ResponseResultCode.no_result = omega arith
code_byte-lt _ = omega arith

abbrev pub reply : Response → Reply
reply s = record { body_len = s.body_len; command = s.command; status = code_byte s.status }

reply_of-response_bytes :
    (pad : ℕ) (s : Response)
    → s.body_len < 2 ^ 32
    → command_of (command_byte s.command) ≡ s.command
    → command_byte s.command < 256
    → reply_of (response_bytes pad s) ≡ reply s
unfolding reply_of response_bytes
reply_of-response_bytes pad s len known small =
    let b : of_le (le_bytes 4 s.body_len) ≡ s.body_len =
      of_le-le_bytes 4 s.body_len (omega arith) in
    let c : command_of (of_le (le_bytes 1 (command_byte s.command))) ≡ s.command =
      ap command_of (of_le-le_bytes 1 (command_byte s.command) (omega arith)) ∙ known in
    let t : of_le (le_bytes 1 (code_byte s.status)) ≡ code_byte s.status =
      of_le-le_bytes 1 (code_byte s.status) (omega (arith, code_byte-lt s.status)) in
    unfold le_bytes in λ i. record { body_len = b i; command = c i; status = t i }

-- A response that lies ahead is read whole, and what follows it is left, however the bytes arrive.
pub handle_response_lem :
    (pad : ℕ) (s : Response) (body later : List ℕ) (c : Client)
    → s.body_len ≡ length body
    → s.body_len < 2 ^ 32
    → command_of (command_byte s.command) ≡ s.command
    → command_byte s.command < 256
    → ahead c ≡ response_bytes pad s ++ (body ++ later)
    → (rest : List Arrival) × (handle_response c
        ≡ (true, take_reply (reply s) body (with_arrivals rest c)))
      × (coming rest ≡ later)
unfolding handle_response
handle_response_lem pad s body later c len fits known small e =
    let head = response_bytes pad s in
    let same = reply_of-response_bytes pad s fits known small in
    let size : response_size ≡ length head = unfold response_bytes le_bytes in refl in
    let act : List ℕ → List ℕ → Client → Bool × Client =
      λ h b x. (true, take_reply (reply_of h) b x) in
    let (rest1, r1, e1) =
      receive_lem response_size head (body ++ later) (λ h. receive (reply_of h).body_len (act h)) c
        size e in
    let (rest2, r2, e2) =
      receive_lem (reply_of head).body_len body later (act head) (with_arrivals rest1 c)
        (ap (λ (q : Reply). q.body_len) same ∙ len) e1 in
    (rest2, r1 ∙ r2 ∙ (λ i. (true, take_reply (same i) body (with_arrivals rest2 c))), e2)

abbrev pub notice : Broadcast → Notice
notice b = record {
  sender_id = b.sender_id;
  room_id = b.room_id;
  body_len = b.body_len;
  event = event_byte b.event;
}

event_byte-lt : (e : Event) → event_byte e < 256
unfolding event_byte
event_byte-lt evt_message = omega arith
event_byte-lt evt_user_join = omega arith
event_byte-lt evt_user_leave = omega arith

notice_of-broadcast_bytes :
    (pad : ℕ) (b : Broadcast)
    → b.sender_id < 2 ^ 64
    → b.room_id < 2 ^ 64
    → b.body_len < 2 ^ 32
    → notice_of (broadcast_bytes pad b) ≡ notice b
unfolding notice_of broadcast_bytes
notice_of-broadcast_bytes pad b sender room len =
    let s : of_le (le_bytes 8 b.sender_id) ≡ b.sender_id =
      of_le-le_bytes 8 b.sender_id (omega arith) in
    let r : of_le (le_bytes 8 b.room_id) ≡ b.room_id = of_le-le_bytes 8 b.room_id (omega arith) in
    let l : of_le (le_bytes 4 b.body_len) ≡ b.body_len =
      of_le-le_bytes 4 b.body_len (omega arith) in
    let v : of_le (le_bytes 1 (event_byte b.event)) ≡ event_byte b.event =
      of_le-le_bytes 1 (event_byte b.event) (omega (arith, event_byte-lt b.event)) in
    unfold le_bytes in λ i. record { sender_id = s i; room_id = r i; body_len = l i; event = v i }

pub handle_broadcast_lem :
    (pad : ℕ) (b : Broadcast) (body later : List ℕ) (c : Client)
    → b.body_len ≡ length body
    → b.body_len < 2 ^ 32
    → b.sender_id < 2 ^ 64
    → b.room_id < 2 ^ 64
    → ahead c ≡ broadcast_bytes pad b ++ (body ++ later)
    → (rest : List Arrival) × (handle_broadcast c
        ≡ (true, take_notice (notice b) body (with_arrivals rest c)))
      × (coming rest ≡ later)
unfolding handle_broadcast
handle_broadcast_lem pad b body later c len fits sender room e =
    let head = broadcast_bytes pad b in
    let same = notice_of-broadcast_bytes pad b sender room fits in
    let size : broadcast_size ≡ length head = unfold broadcast_bytes le_bytes in refl in
    let act : List ℕ → List ℕ → Client → Bool × Client =
      λ h x y. (true, take_notice (notice_of h) x y) in
    let (rest1, r1, e1) =
      receive_lem broadcast_size head (body ++ later) (λ h. receive (notice_of h).body_len (act h))
        c size e in
    let (rest2, r2, e2) =
      receive_lem (notice_of head).body_len body later (act head) (with_arrivals rest1 c)
        (ap (λ (q : Notice). q.body_len) same ∙ len) e1 in
    (rest2, r1 ∙ r2 ∙ (λ i. (true, take_notice (same i) body (with_arrivals rest2 c))), e2)
