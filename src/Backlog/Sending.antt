-- ===== src/Backlog/Sending.antt =====
-- Sending (server/src/room/RoomWorker.cpp) leaves the threads of the server no more to do.
use cpp_epoll_chat.Base.{
  ℕ, ◌+◌, ◌≤◌, ◌≡◌, refl, ◌∙◌, List, [], ◌∷◌, arith, Bool-cases, Option-cases, inl, inr,
}
use cpp_epoll_chat.Backlog.{event_work, backlog}
use cpp_epoll_chat.Backlog.Quiet.{backlog-post_job}
use cpp_epoll_chat.Base.Map.{find}
use cpp_epoll_chat.Room.{SessionRef}
use cpp_epoll_chat.RoomEvent.{RoomEvent}
use cpp_epoll_chat.RoomWorker.{
  send_packet, after_send, broadcast, receives, send_message, send_response, save_message,
  request_db_create_room, request_db_load_message, flush, after_flush,
}
use cpp_epoll_chat.Session.{FlushResult, complete, pending, error, pack, flush as session_flush}
use cpp_epoll_chat.World.{
  World, update, rooms_of, request_enable_epollout, request_disable_epollout, request_close_session,
}

backlog-after_send :
    (result : FlushResult) (fd : ℕ) (w : World) → backlog (after_send result fd w) ≡ backlog w
unfolding after_send request_enable_epollout request_close_session
backlog-after_send pending fd w = refl
backlog-after_send error fd w = refl
backlog-after_send complete fd w = refl

backlog-send_packet :
    (s : SessionRef) (bytes : List ℕ) (w : World) → backlog (send_packet s bytes w) ≡ backlog w
unfolding send_packet
backlog-send_packet s bytes w =
    let (result, session) = session_flush (pack bytes (w.heap s.address)) in
    backlog-after_send result s.fd (record w { heap = update w.heap s.address session })

backlog-after_flush :
    (result : FlushResult) (fd : ℕ) (w : World) → backlog (after_flush result fd w) ≡ backlog w
unfolding after_flush request_disable_epollout request_close_session
backlog-after_flush pending fd w = refl
backlog-after_flush error fd w = refl
backlog-after_flush complete fd w = refl

pub backlog-flush : (s : SessionRef) (w : World) → backlog (flush s w) ≡ backlog w
unfolding flush
backlog-flush s w =
    let (result, session) = session_flush (w.heap s.address) in
    backlog-after_flush result s.fd (record w { heap = update w.heap s.address session })

backlog-broadcast :
    (sender room_id : ℕ) (bytes : List ℕ) (sessions : List (ℕ × SessionRef)) (w : World)
    → backlog (broadcast sender room_id bytes sessions w) ≡ backlog w
unfolding broadcast
backlog-broadcast sender room_id bytes [] w = refl
backlog-broadcast sender room_id bytes ((j, s) ∷ sessions) w =
    elim (Bool-cases (receives sender room_id w.users s)) [
      | inl yes' ↦
          rw (broadcast, yes')
            (backlog-broadcast sender room_id bytes sessions _ ∙ backlog-send_packet s bytes w)
      | inr no' ↦ rw (broadcast, no') (backlog-broadcast sender room_id bytes sessions w)
    ]

pub backlog-send_message :
    (k : ℕ) (s : SessionRef) (room_id : ℕ) (request_data : List ℕ) (w : World)
    → backlog (send_message k s room_id request_data w).1 ≡ backlog w
unfolding send_message
backlog-send_message k s room_id request_data w =
    elim (Option-cases (find room_id (rooms_of k w))) [
      | inl e ↦ rw (e, send_message) refl
      | inr (r, e) ↦ rw (e, send_message) (backlog-broadcast s.fd room_id _ r.sessions w)
    ]

pub backlog-send_response : (e : RoomEvent) (w : World) → backlog (send_response e w) ≡ backlog w
unfolding send_response
backlog-send_response e w = elim (Option-cases e.session) [
  | inl q ↦ rw (q, send_response) refl
  | inr (s, q) ↦ rw (q, send_response) (backlog-send_packet s _ w)
]

pub backlog-save_message : (e : RoomEvent) (w : World) → backlog (save_message e w) ≤ backlog w + 1
unfolding save_message
backlog-save_message e w = elim (Option-cases e.session) [
  | inl q ↦ rw (q, save_message) (omega arith)
  | inr (s, q) ↦ rw (q, save_message) (omega (arith, backlog-post_job _ w))
]

pub backlog-request_db :
    (e : RoomEvent) (w : World)
    → (backlog (request_db_create_room e w) ≡ backlog w + (1 + event_work e))
      × (backlog (request_db_load_message e w) ≡ backlog w + (1 + event_work e))
unfolding request_db_create_room request_db_load_message
backlog-request_db e w = (backlog-post_job _ w, backlog-post_job _ w)
