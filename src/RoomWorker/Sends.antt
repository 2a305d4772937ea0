-- ===== src/RoomWorker/Sends.antt =====
-- Sending to sessions, and jobs for the database (server/src/room/RoomWorker.cpp), keep the shared state
-- well formed.
use cpp_epoll_chat.Base.{ℕ, List, [], ◌∷◌}
use cpp_epoll_chat.Base.{Option-cases, Bool-cases, inl, inr}
use cpp_epoll_chat.Base.Map.{find}
use cpp_epoll_chat.Room.{SessionRef}
use cpp_epoll_chat.RoomEvent.{RoomEvent}
use cpp_epoll_chat.RoomWorker.{
  send_packet, after_send, broadcast, receives, send_message, send_response, save_message,
  request_db_create_room, request_db_load_message, flush, after_flush,
}
use cpp_epoll_chat.Session.{FlushResult, complete, pending, error, pack, flush as session_flush}
use cpp_epoll_chat.World.{
  World, update, rooms_of, post_job, request_enable_epollout, request_disable_epollout,
  request_close_session,
}
use cpp_epoll_chat.RoomWorker.WellFormed.{IsWellFormed}

-- Sending touches only the sessions and the queues of the main thread.
after_send-IsWellFormed :
    {ids : List (ℕ × ℕ)}
    → (result : FlushResult) (fd : ℕ) (w : World) → IsWellFormed ids w
    → IsWellFormed ids (after_send result fd w)
unfolding after_send request_enable_epollout request_close_session
after_send-IsWellFormed pending fd w h = record { rooms = h.rooms; users = h.users; keys = h.keys }
after_send-IsWellFormed error fd w h = record { rooms = h.rooms; users = h.users; keys = h.keys }
after_send-IsWellFormed complete fd w h = h

pub send_packet-IsWellFormed :
    {ids : List (ℕ × ℕ)}
    → (s : SessionRef) (bytes : List ℕ) (w : World) → IsWellFormed ids w
    → IsWellFormed ids (send_packet s bytes w)
unfolding send_packet
send_packet-IsWellFormed s bytes w h =
    let (result, session) = session_flush (pack bytes (w.heap s.address)) in
    after_send-IsWellFormed result s.fd (record w { heap = update w.heap s.address session })
      (record { rooms = h.rooms; users = h.users; keys = h.keys })

after_flush-IsWellFormed :
    {ids : List (ℕ × ℕ)}
    → (result : FlushResult) (fd : ℕ) (w : World) → IsWellFormed ids w
    → IsWellFormed ids (after_flush result fd w)
unfolding after_flush request_disable_epollout request_close_session
after_flush-IsWellFormed pending fd w h = h
after_flush-IsWellFormed error fd w h = record { rooms = h.rooms; users = h.users; keys = h.keys }
after_flush-IsWellFormed complete fd w h = record {
  rooms = h.rooms;
  users = h.users;
  keys = h.keys;
}

pub flush-IsWellFormed :
    {ids : List (ℕ × ℕ)}
    → (s : SessionRef) (w : World) → IsWellFormed ids w
    → IsWellFormed ids (flush s w)
unfolding flush
flush-IsWellFormed s w h =
    let (result, session) = session_flush (w.heap s.address) in
    after_flush-IsWellFormed result s.fd (record w { heap = update w.heap s.address session })
      (record { rooms = h.rooms; users = h.users; keys = h.keys })

broadcast-IsWellFormed :
    {ids : List (ℕ × ℕ)}
    → (sender room_id : ℕ) (bytes : List ℕ) (sessions : List (ℕ × SessionRef)) (w : World)
    → IsWellFormed ids w
    → IsWellFormed ids (broadcast sender room_id bytes sessions w)
unfolding broadcast
broadcast-IsWellFormed sender room_id bytes [] w h = h
broadcast-IsWellFormed sender room_id bytes ((j, s) ∷ sessions) w h =
    elim (Bool-cases (receives sender room_id w.users s)) [
      | inl yes' ↦ rw yes' (
          broadcast-IsWellFormed sender room_id bytes sessions _
            (send_packet-IsWellFormed s bytes w h))
      | inr no' ↦ rw no' (broadcast-IsWellFormed sender room_id bytes sessions w h)
    ]

pub send_message-IsWellFormed :
    {ids : List (ℕ × ℕ)}
    → (k : ℕ) (s : SessionRef) (room_id : ℕ) (request_data : List ℕ) (w : World)
    → IsWellFormed ids w
    → IsWellFormed ids (send_message k s room_id request_data w).1
unfolding send_message
send_message-IsWellFormed k s room_id request_data w h =
    elim (Option-cases (find room_id (rooms_of k w))) [
      | inl e ↦ rw (e, send_message) h
      | inr (r, e) ↦ rw (e, send_message) (broadcast-IsWellFormed s.fd room_id _ r.sessions w h)
    ]

pub send_response-IsWellFormed :
    {ids : List (ℕ × ℕ)}
    → (e : RoomEvent) (w : World) → IsWellFormed ids w
    → IsWellFormed ids (send_response e w)
unfolding send_response
send_response-IsWellFormed e w h = elim (Option-cases e.session) [
  | inl q ↦ rw (q, send_response) (record { rooms = h.rooms; users = h.users; keys = h.keys })
  | inr (s, q) ↦ rw (q, send_response) (send_packet-IsWellFormed s _ w h)
]

pub save_message-IsWellFormed :
    {ids : List (ℕ × ℕ)}
    → (e : RoomEvent) (w : World) → IsWellFormed ids w
    → IsWellFormed ids (save_message e w)
unfolding save_message post_job
save_message-IsWellFormed e w h = elim (Option-cases e.session) [
  | inl q ↦ rw (q, save_message) (record { rooms = h.rooms; users = h.users; keys = h.keys })
  | inr (s, q) ↦ rw (q, save_message) (record { rooms = h.rooms; users = h.users; keys = h.keys })
]

pub request_db-IsWellFormed :
    {ids : List (ℕ × ℕ)}
    → (e : RoomEvent) (w : World) → IsWellFormed ids w
    → IsWellFormed ids (request_db_create_room e w) × IsWellFormed ids (request_db_load_message e w)
unfolding request_db_create_room request_db_load_message post_job
request_db-IsWellFormed e w h = (
  record { rooms = h.rooms; users = h.users; keys = h.keys },
  record { rooms = h.rooms; users = h.users; keys = h.keys },
)
