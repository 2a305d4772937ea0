-- ===== src/RoomWorker/Delivery.antt =====
-- Who is sent what by `RoomWorker::send_packet` and `send_message` (server/src/room/RoomWorker.cpp),
-- in terms of each connection's byte stream.
use cpp_epoll_chat.Base.{ℕ, ◌≡◌, refl, sym, ap, ◌∙◌, List, [], ◌∷◌, ◌++◌, append_assoc, append-nil}
use cpp_epoll_chat.Base.{
  Bool, false, Option, none, some, ◌&&◌, arith, Bool-cases, Option-cases, not, inl, inr, ◌==◌,
  ==_iff, if◌then◌else◌,
}
use cpp_epoll_chat.Base.Map.{find}
use cpp_epoll_chat.Room.{SessionRef, Room}
use cpp_epoll_chat.RoomWorker.{
  send_packet, after_send, receives, broadcast, message_packet, send_message,
}
use cpp_epoll_chat.Session.{
  Session, FlushResult, complete, pending, error, pack, flush as session_flush,
}
use cpp_epoll_chat.Session.Stream.{stream, stream-pack, stream-flush}
use cpp_epoll_chat.User.{User, UserManager, get_user, get_user_id}
use cpp_epoll_chat.World.{World, update, rooms_of, request_enable_epollout, request_close_session}

-- What waits or went out on the connection of the session at an address.
abbrev pub stream_at : World → ℕ → List ℕ
stream_at w a = stream (w.heap a)

after_send_keeps :
    (result : FlushResult) (fd : ℕ) (w : World)
    → ((after_send result fd w).heap ≡ w.heap) × ((after_send result fd w).users ≡ w.users)
unfolding after_send request_enable_epollout request_close_session
after_send_keeps pending fd w = (refl, refl)
after_send_keeps error fd w = (refl, refl)
after_send_keeps complete fd w = (refl, refl)

pub send_packet_users :
    (s : SessionRef) (bytes : List ℕ) (w : World) → (send_packet s bytes w).users ≡ w.users
unfolding send_packet
send_packet_users s bytes w =
    let (result, session) = session_flush (pack bytes (w.heap s.address)) in
    (after_send_keeps result s.fd (record w { heap = update w.heap s.address session })).1

-- A packet that is sent goes behind all that its connection was due, and touches no other connection.
pub stream-send_packet :
    (s : SessionRef) (bytes : List ℕ) (w : World) (a : ℕ)
    → stream_at (send_packet s bytes w) a ≡ stream_at w a ++ (if s.address == a then bytes else [])
unfolding send_packet
stream-send_packet s bytes w a =
    let (result, session) = session_flush (pack bytes (w.heap s.address)) in
    let w' : World = record w { heap = update w.heap s.address session } in
    ap (λ (h : ℕ → Session). stream (h a)) (after_send_keeps result s.fd w').0
    ∙ elim (Bool-cases (s.address == a)) [
      | inl same ↦ rw same (
          stream-flush (pack bytes (w.heap s.address))
          ∙ stream-pack bytes (w.heap s.address)
          ∙ ap (λ (x : ℕ). stream (w.heap x) ++ bytes) ((==_iff s.address a).0 same))
      | inr other ↦ rw other (sym (append-nil (stream_at w a)))
    ]

-- Whether the user, if there is one, is in the room.
abbrev pub stands_in : ℕ → Option User → Bool
stands_in room_id none = false
stands_in room_id (some u) = u.current_room == room_id

receives_lem :
    (sender room_id : ℕ) (users : UserManager) (s : SessionRef)
    → receives sender room_id users s
      ≡ (not (s.fd == sender) && stands_in room_id (get_user s.fd users))
unfolding receives
receives_lem sender room_id users s = elim (Option-cases (get_user s.fd users)) [
  | inl e ↦ ground arith
  | inr (u, e) ↦ ground arith
]

-- The copies that the connection at an address gets of a message to some sessions.
abbrev pub copies : ℕ → ℕ → List ℕ → UserManager → List (ℕ × SessionRef) → ℕ → List ℕ
copies sender room_id bytes users [] a = []
copies sender room_id bytes users ((_, s) ∷ sessions) a =
    (if not (s.fd == sender) && stands_in room_id (get_user s.fd users)
      then (if s.address == a then bytes else [])
      else [])
    ++ copies sender room_id bytes users sessions a

pub stream-broadcast :
    (sender room_id : ℕ) (bytes : List ℕ) (sessions : List (ℕ × SessionRef)) (w : World) (a : ℕ)
    → stream_at (broadcast sender room_id bytes sessions w) a
      ≡ stream_at w a ++ copies sender room_id bytes w.users sessions a
unfolding broadcast
stream-broadcast sender room_id bytes [] w a = sym (append-nil (stream_at w a))
stream-broadcast sender room_id bytes ((j, s) ∷ sessions) w a =
    let test = sym (receives_lem sender room_id w.users s) in
    elim (Bool-cases (receives sender room_id w.users s)) [
      | inl yes' ↦
          let more = if s.address == a then bytes else [] in
          rw (test, yes', broadcast)
            (stream-broadcast sender room_id bytes sessions (send_packet s bytes w) a
              ∙ ap (λ l. l ++ copies sender room_id bytes (send_packet s bytes w).users sessions a)
                  (stream-send_packet s bytes w a)
              ∙ ap (λ u. (stream_at w a ++ more) ++ copies sender room_id bytes u sessions a)
                  (send_packet_users s bytes w)
              ∙ append_assoc (stream_at w a) more (copies sender room_id bytes w.users sessions a))
      | inr no' ↦ rw (test, no', broadcast) (stream-broadcast sender room_id bytes sessions w a)
    ]

-- A message to a room that the worker has: the connection at each address is due, behind what it was
-- due before, one broadcast packet for each session of the room at that address that is not the
-- sender's descriptor and whose user is in the room, and nothing else.
pub stream-send_message :
    (k : ℕ) (s : SessionRef) (room_id : ℕ) (request_data : List ℕ) (r : Room) (w : World) (a : ℕ)
    → find room_id (rooms_of k w) ≡ some r
    → let bytes = message_packet (get_user_id s.fd w.users) room_id request_data w.padding in
      stream_at (send_message k s room_id request_data w).1 a
      ≡ stream_at w a ++ copies s.fd room_id bytes w.users r.sessions a
unfolding send_message
stream-send_message k s room_id request_data r w a found =
    rw (found, send_message) (stream-broadcast s.fd room_id _ r.sessions w a)
