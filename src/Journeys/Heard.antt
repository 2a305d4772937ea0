-- ===== src/Journeys/Heard.antt =====
-- A message on its way from the worker (server/src/room/RoomWorker.cpp) to another client of the room
-- (`handle_broadcast` of client/src/Client.cpp).
use cpp_epoll_chat.Base.{
  ℕ, ◌+◌, ◌^◌, ◌<◌, ◌≡◌, refl, ap, ◌∙◌, List, [], ◌∷◌, ◌++◌, append-nil, length, drop, true, false,
  some, not, ◌==◌, ◌&&◌, if◌then◌else◌, arith, Bool-cases, inl, inr,
}
use cpp_epoll_chat.Base.Lists.{drop-length_append}
use cpp_epoll_chat.Client.Arrivals.{ahead, with_arrivals}
use cpp_epoll_chat.Client.Packets.{handle_packet-message_packet}
use cpp_epoll_chat.Client.Replies.{handle_packet, take_notice, is_in_room}
use cpp_epoll_chat.Client.Socket.{Arrival}
use cpp_epoll_chat.Client.State.{Client, in_room, show, says}
use cpp_epoll_chat.Client.Stream.{coming}
use cpp_epoll_chat.RoomWorker.Delivery.{
  stream_at, stands_in, copies, stream-send_packet, stream-broadcast,
}
use cpp_epoll_chat.Base.Map.{find}
use cpp_epoll_chat.Journeys.{asks, answered, status_packet}
use cpp_epoll_chat.Protocol.{Packet, cmd_send_message, evt_message, event_byte}
use cpp_epoll_chat.Result.{success}
use cpp_epoll_chat.Room.{SessionRef, Room}
use cpp_epoll_chat.RoomManager.Dispatch.{planned_event}
use cpp_epoll_chat.RoomWorker.Process.{process_event}
use cpp_epoll_chat.User.{UserManager, get_user, get_user_id}
use cpp_epoll_chat.World.{World, rooms_of, post_job}
use cpp_epoll_chat.Journeys.Sent.{message_of, keeping, told, process_event_sent}

-- How often a message reaches the connection at an address: once for each session of the room there that
-- is not the sender's and whose user is in the room.
abbrev pub hears : ℕ → ℕ → UserManager → List (ℕ × SessionRef) → ℕ → ℕ
hears sender room_id users [] a = 0
hears sender room_id users ((_, s) ∷ sessions) a =
    (if not (s.fd == sender) && stands_in room_id (get_user s.fd users)
      then (if s.address == a then 1 else 0)
      else 0)
    + hears sender room_id users sessions a

copies-hears :
    (sender room_id : ℕ) (bytes : List ℕ) (users : UserManager) (sessions : List (ℕ × SessionRef))
    (a : ℕ)
    → (hears sender room_id users sessions a ≡ 0
        → copies sender room_id bytes users sessions a ≡ [])
      × (hears sender room_id users sessions a ≡ 1
          → copies sender room_id bytes users sessions a ≡ bytes)
copies-hears sender room_id bytes users [] a = (λ e. refl, λ e. absurd (omega arith))
copies-hears sender room_id bytes users ((j, s) ∷ sessions) a =
    let (never, once) = copies-hears sender room_id bytes users sessions a in
    elim (Bool-cases (not (s.fd == sender) && stands_in room_id (get_user s.fd users))) [
      | inr no' ↦ rw no' (λ e. never (omega arith), λ e. once (omega arith))
      | inl yes' ↦ elim (Bool-cases (s.address == a)) [
        | inr other ↦ rw yes' (rw other (λ e. never (omega arith), λ e. once (omega arith)))
        | inl here' ↦ rw yes' (
            rw here' (
              λ e. absurd (omega arith),
              λ e. ap (λ rest. bytes ++ rest) (never (omega arith)) ∙ append-nil bytes,
            ))
      ]
    ]

-- The answer, and the job, touch no other connection.
stream-answered :
    (p : Packet) (session : SessionRef) (w : World) (a : ℕ)
    → (session.address == a) ≡ false
    → stream_at (answered cmd_send_message success session (post_job (keeping p session w) w)) a
      ≡ stream_at w a
unfolding post_job
stream-answered p session w a other =
    stream-send_packet session (status_packet cmd_send_message success w.padding)
      (post_job (keeping p session w) w) a
    ∙ rw other (append-nil (stream_at w a))

pub stream-sent :
    (k a : ℕ) (p : Packet) (session : SessionRef) (w : World) (r : Room)
    → find p.request.room_id (rooms_of k w) ≡ some r
    → (session.address == a) ≡ false
    → hears session.fd p.request.room_id w.users r.sessions a ≡ 1
    → drop
        (length (stream_at w a))
        (stream_at (process_event k (planned_event (asks cmd_send_message p) session) w) a)
      ≡ message_of p session w
stream-sent k a p session w r there other once =
    let bytes = message_of p session w in
    let heard = (copies-hears session.fd p.request.room_id bytes w.users r.sessions a).1 once in
    let streams =
      ap (λ (x : World). stream_at x a) (process_event_sent k p session w r there)
      ∙ stream-answered p session (told p session r w) a other
      ∙ stream-broadcast session.fd p.request.room_id bytes r.sessions w a
      ∙ ap (λ more. stream_at w a ++ more) heard in
    ap (drop (length (stream_at w a))) streams ∙ drop-length_append (stream_at w a) bytes

take_notice_says :
    (sender_id room_id : ℕ) (text : List ℕ) (c : Client)
    → c.state ≡ in_room
    → c.room_id ≡ room_id
    → take_notice
        (record {
          sender_id = sender_id;
          room_id = room_id;
          body_len = length text;
          event = event_byte evt_message;
        })
        text
        c
      ≡ show (says sender_id text) c
unfolding take_notice event_byte
take_notice_says sender_id room_id text c state where' =
    let here' : (is_in_room c.state && (room_id == c.room_id)) ≡ true =
      rw (state, where') (ground arith) in
    rw (take_notice, here') refl

-- A message that a client sends to its room is read by another client there. Once that client has, in
-- any portions, the bytes that the worker's handling of the request added to its connection, it reads
-- them as one packet: the sender's id and the text, for the room; what follows is left.
pub process_event_sent-heard :
    (k a : ℕ) (p : Packet) (session : SessionRef) (w : World) (r : Room) (later : List ℕ)
    (c : Client)
    → find p.request.room_id (rooms_of k w) ≡ some r
    → (session.address == a) ≡ false
    → hears session.fd p.request.room_id w.users r.sessions a ≡ 1
    → length p.body < 2 ^ 32
    → get_user_id session.fd w.users < 2 ^ 64
    → p.request.room_id < 2 ^ 64
    → c.state ≡ in_room
    → c.room_id ≡ p.request.room_id
    → ahead c
      ≡ drop
          (length (stream_at w a))
          (stream_at (process_event k (planned_event (asks cmd_send_message p) session) w) a)
        ++ later
    → (rest : List Arrival) × (handle_packet c
        ≡ (true, show (says (get_user_id session.fd w.users) p.body) (with_arrivals rest c)))
      × (coming rest ≡ later)
process_event_sent-heard k a p session w r later c there other once small sender room state where'
      lies =
    let (rest, handled, left) =
      handle_packet-message_packet (get_user_id session.fd w.users) p.request.room_id w.padding
        p.body later c small sender room
        (lies ∙ ap (λ bytes. bytes ++ later) (stream-sent k a p session w r there other once)) in
    (
      rest,
      handled
          ∙ ap (λ (x : Client). (true, x))
              (take_notice_says (get_user_id session.fd w.users) p.request.room_id p.body
                (with_arrivals rest c) state where'),
      left,
    )
