-- ===== src/RoomWorker.antt =====
-- server/src/room/RoomWorker.{h,cpp}: what a worker does with the rooms that it owns. `k` is the id of
-- the worker that runs.
pub mod Process
pub mod WellFormed
pub mod Rooms
pub mod Sends
pub mod Membership
pub mod Steps
pub mod Fuel
pub mod Delivery
pub mod Invariant
use cpp_epoll_chat.Base.{
  ℕ, zero, suc, ◌+◌, ◌-◌, ◌%◌, ◌^◌, List, [], ◌∷◌, Bool, true, false, Option, none, some,
}
use cpp_epoll_chat.Base.{length, take, leb, ltb, ◌==◌, ◌||◌, if◌then◌else◌}
use cpp_epoll_chat.Base.Map.{find, emplace, erase, assign}
use cpp_epoll_chat.Base.Bytes.{of_le}
use cpp_epoll_chat.Decimal.{to_string}
use cpp_epoll_chat.Protocol.{
  Command, Header, Response, Broadcast, PacketType, pkt_response, pkt_broadcast, packet_type_byte,
  evt_message, response_bytes, broadcast_bytes, serialize_packet,
}
use cpp_epoll_chat.Result.{Result, is_success, success, result_to_resresultcode}
use cpp_epoll_chat.Result.{room_not_found, room_already_exists, room_full, user_not_found}
use cpp_epoll_chat.Room.{SessionRef, Room, new_room, join_session, exit_session}
use cpp_epoll_chat.RoomEvent.{RoomEvent, begun_target}
use cpp_epoll_chat.RoomManager.Routing.{erase_room_to_worker}
use cpp_epoll_chat.Session.{FlushResult, complete, pending, error, flush as session_flush, pack}
use cpp_epoll_chat.User.{User, UserManager, get_user, get_user_id, update_user, set_current_room}
use cpp_epoll_chat.World.{
  World, WorkerType, room, lobby, DbJob, DbJobType, OnResult, no_callback, db_create_room,
  db_load_messages, fails, update, rooms_of, put_rooms, type_of, post_job, request_enable_epollout,
  request_disable_epollout, request_close_session,
}

abbrev pub max_lobby_sessions : ℕ
max_lobby_sessions = 999

unfoldable pub create_room : ℕ → ℕ → ℕ → World → Result × World
create_room k room_id max_session w = elim (find room_id (rooms_of k w)) [
  | some _ ↦ (room_already_exists, w)
  | none ↦ (success, put_rooms k (emplace room_id (new_room room_id max_session) (rooms_of k w)) w)
]

-- The user's room is written once the session stands in the room.
unfoldable pub enter : ℕ → ℕ → World → Result × World
enter fd room_id w = elim (get_user fd w.users) [
  | none ↦ (user_not_found, w)
  | some _ ↦ (success, record w { users = update_user fd (set_current_room room_id) w.users })
]

unfoldable pub join_room : ℕ → SessionRef → ℕ → World → Result × World
unfolding enter
join_room k session room_id w = elim (find room_id (rooms_of k w)) [
  | none ↦ (room_not_found, w)
  | some r ↦
      let (joined, r') = join_session session r in
      if joined
      then enter session.fd room_id (put_rooms k (assign room_id r' (rooms_of k w)) w)
      else (room_full, w)
]

abbrev pub is_room : WorkerType → Bool
is_room room = true
is_room lobby = false

-- An empty room goes away, with the manager's entry for it; the lobby stays.
unfoldable pub drop_if_empty : ℕ → Room → World → World
drop_if_empty k r w =
    if leb r.current_sessions 0
    then (if is_room (type_of k w)
        then (let w1 = erase_room_to_worker r.room_id w in
            put_rooms k (erase r.room_id (rooms_of k w1)) w1)
        else w)
    else w

unfoldable pub leave_room : ℕ → ℕ → ℕ → World → Result × World
unfolding drop_if_empty
leave_room k fd room_id w = elim (find room_id (rooms_of k w)) [
  | none ↦ (room_not_found, w)
  | some r ↦
      let (left, r') = exit_session fd r in
      if left
      then (success, drop_if_empty k r' (put_rooms k (assign room_id r' (rooms_of k w)) w))
      else (user_not_found, w)
]

unfoldable pub after_send : FlushResult → ℕ → World → World
after_send pending fd w = request_enable_epollout fd w
after_send error fd w = request_close_session fd w
after_send complete fd w = w

unfoldable pub send_packet : SessionRef → List ℕ → World → World
unfolding after_send
send_packet session bytes w =
    let (result, s) = session_flush (pack bytes (w.heap session.address)) in
    after_send result session.fd (record w { heap = update w.heap session.address s })

-- Whether the loop of `send_message` sends to this session.
unfoldable pub receives : ℕ → ℕ → UserManager → SessionRef → Bool
receives sender room_id users s =
    if s.fd == sender
    then false
    else elim (get_user s.fd users) [ none ↦ false | some u ↦ u.current_room == room_id ]

unfoldable pub broadcast : ℕ → ℕ → List ℕ → List (ℕ × SessionRef) → World → World
broadcast sender room_id bytes [] w = w
broadcast sender room_id bytes ((_, s) ∷ sessions) w =
    broadcast sender room_id bytes sessions
      (if receives sender room_id w.users s then send_packet s bytes w else w)

unfoldable pub message_packet : ℕ → ℕ → List ℕ → ℕ → List ℕ
message_packet sender_id room_id request_data padding =
    serialize_packet (record { type = packet_type_byte pkt_broadcast })
      (broadcast_bytes padding (record {
        sender_id = sender_id;
        room_id = room_id;
        body_len = length request_data % 2 ^ 32;
        event = evt_message;
      }))
      request_data

unfoldable pub send_message : ℕ → SessionRef → ℕ → List ℕ → World → Result × World
unfolding message_packet
send_message k session room_id request_data w = elim (find room_id (rooms_of k w)) [
  | none ↦ (room_not_found, w)
  | some r ↦
      let bytes = message_packet (get_user_id session.fd w.users) room_id request_data w.padding in
      (success, broadcast session.fd room_id bytes r.sessions w)
]

unfoldable pub response_packet : RoomEvent → ℕ → List ℕ
response_packet e padding =
    serialize_packet (record { type = packet_type_byte pkt_response })
      (response_bytes padding (record {
        body_len = length e.response_data % 2 ^ 32;
        command = e.initial_command;
        status = result_to_resresultcode e.result_code;
      }))
      e.response_data

-- An event with no session is a null pointer here.
abbrev pub with_session : RoomEvent → (SessionRef → World → World) → World → World
with_session e act w = elim e.session [ none ↦ fails w | some session ↦ act session w ]

unfoldable pub send_response : RoomEvent → World → World
unfolding response_packet
send_response e w = with_session e (λ session. send_packet session (response_packet e w.padding)) w

-- "tempnickname".
abbrev pub temp_nick : List ℕ
temp_nick = b't' ∷ b'e' ∷ b'm' ∷ b'p' ∷ b'n' ∷ b'i' ∷ b'c' ∷ b'k' ∷ b'n' ∷ b'a' ∷ b'm' ∷ b'e' ∷ []

-- `params_for_save` of server/src/db/MessageRepository.h.
abbrev pub params_for_save : ℕ → ℕ → List ℕ → List ℕ → List (List ℕ)
params_for_save room_id sender_id sender_nick content =
    to_string room_id ∷ to_string sender_id ∷ sender_nick ∷ content ∷ []

unfoldable pub save_message : RoomEvent → World → World
save_message e w =
    with_session e
      (λ session. post_job (record {
        type = DbJobType.save_message;
        params =
            params_for_save (begun_target e) (get_user_id session.fd w.users) temp_nick
              e.request_data;
        on_result = no_callback;
      }))
      w

unfoldable pub request_db_create_room : RoomEvent → World → World
request_db_create_room e =
    post_job (record { type = DbJobType.create_room; params = []; on_result = db_create_room e })

-- The cursor of a request for older messages: 0, a negative number or too few bytes mean the newest.
unfoldable pub cursor : List ℕ → ℕ
cursor request_data =
    let id : ℕ = if leb 8 (length request_data) then of_le (take 8 request_data) else 0 in
    if (id == 0) || leb (2 ^ 63) id then 2 ^ 63 - 1 else id

unfoldable pub request_db_load_message : RoomEvent → World → World
unfolding cursor
request_db_load_message e = post_job (record {
  type = DbJobType.load_history;
  params = to_string (begun_target e) ∷ to_string (cursor e.request_data) ∷ [];
  on_result = db_load_messages e;
})

unfoldable pub after_flush : FlushResult → ℕ → World → World
after_flush pending fd w = w
after_flush error fd w = request_close_session fd w
after_flush complete fd w = request_disable_epollout fd w

unfoldable pub flush : SessionRef → World → World
unfolding after_flush
flush session w =
    let (result, s) = session_flush (w.heap session.address) in
    after_flush result session.fd (record w { heap = update w.heap session.address s })

-- The loop over the other rooms stops at the first that the session leaves; a room that it does not
-- leave stays as it is, so the rooms are those at the start.
unfoldable pub leave_any : ℕ → ℕ → List (ℕ × Room) → World → Bool × World
leave_any k fd [] w = (false, w)
leave_any k fd ((_, r) ∷ rooms) w =
    let rest = leave_any k fd rooms w in
    let (result, w') = leave_room k fd r.room_id w in if is_success result then (true, w') else rest

unfoldable pub diconnect_session : ℕ → ℕ → ℕ → World → Bool × World
unfolding leave_any
diconnect_session k fd room_id w =
    let (result, w') = leave_room k fd room_id w in
    if is_success result then (true, w') else leave_any k fd (rooms_of k w) w
