-- ===== src/Journeys/Abandoned.antt =====
-- A client that is gone before the room that it asked for is made (server/src/room/RoomWorker.cpp).
use cpp_epoll_chat.Base.{ℕ, ◌≡◌, refl, ap, ◌∙◌, List, [], none, some, arith}
use cpp_epoll_chat.Base.Map.{find, assign, emplace, find-assign}
use cpp_epoll_chat.Journeys.Created.{creating_event, with_new_room, created, there}
use cpp_epoll_chat.Protocol.{Packet}
use cpp_epoll_chat.Result.{user_not_found}
use cpp_epoll_chat.Room.{SessionRef, new_room, join_session}
use cpp_epoll_chat.RoomEvent.{RoomEvent, ActionCommand, begun_target, resolve_room_id}
use cpp_epoll_chat.RoomManager.Dispatch.{planned_event}
use cpp_epoll_chat.RoomWorker.{
  join_room, enter, send_response, send_packet, after_send, response_packet,
}
use cpp_epoll_chat.RoomWorker.Membership.{rooms_of-put_rooms, worker-put_rooms}
use cpp_epoll_chat.RoomWorker.Process
use cpp_epoll_chat.RoomWorker.Process.{process_event, do_action, with_result}
use cpp_epoll_chat.RoomWorker.Steps.{begun, loop_goes_on, loop_fails}
use cpp_epoll_chat.Session.{FlushResult, complete, pending, error, pack, flush as session_flush}
use cpp_epoll_chat.User.{get_user}
use cpp_epoll_chat.World.{
  World, RoomWorker, update, rooms_of, put_rooms, request_enable_epollout, request_close_session,
}

-- Sending touches no room and no route.
abbrev Stands : World → World → Type 0
Stands w v = (v.workers ≡ w.workers) × (v.room_to_worker ≡ w.room_to_worker)

after_send-Stands : (result : FlushResult) (fd : ℕ) (w : World) → Stands w (after_send result fd w)
unfolding after_send request_enable_epollout request_close_session
after_send-Stands pending fd w = (refl, refl)
after_send-Stands error fd w = (refl, refl)
after_send-Stands complete fd w = (refl, refl)

send_packet-Stands :
    (s : SessionRef) (bytes : List ℕ) (w : World) → Stands w (send_packet s bytes w)
unfolding send_packet
send_packet-Stands s bytes w =
    let (result, session) = session_flush (pack bytes (w.heap s.address)) in
    after_send-Stands result s.fd (record w { heap = update w.heap s.address session })

-- The room that the session is in by now, in the world before the response.
abbrev abandoned : ℕ → ℕ → SessionRef → World → World
abandoned k room_id session w =
    let w1 = with_new_room k room_id w in
    put_rooms k (assign room_id (join_session session (new_room room_id 5)).1 (rooms_of k w1)) w1

join_room_gone :
    (k room_id : ℕ) (session : SessionRef) (w : World)
    → find room_id (rooms_of k (with_new_room k room_id w)) ≡ some (new_room room_id 5)
    → get_user session.fd w.users ≡ none
    → join_room k session room_id (with_new_room k room_id w)
      ≡ (user_not_found, abandoned k room_id session w)
unfolding join_room enter put_rooms join_session new_room
join_room_gone k room_id session w room' gone = rw (room', join_room) (rw (gone, enter) refl)

rooms_of-Stands : (k : ℕ) (w v : World) → Stands w v → rooms_of k v ≡ rooms_of k w
unfolding rooms_of
rooms_of-Stands k w v stands =
    ap (λ (workers : List (ℕ × RoomWorker)). elim (find k workers) [ none ↦ [] | some x ↦ x.rooms ])
      stands.0

find-abandoned :
    (k room_id : ℕ) (session : SessionRef) (w : World) (x : RoomWorker)
    → find k w.workers ≡ some x
    → find room_id (rooms_of k (with_new_room k room_id w)) ≡ some (new_room room_id 5)
    → find room_id (rooms_of k (abandoned k room_id session w))
      ≡ some (join_session session (new_room room_id 5)).1
find-abandoned k room_id session w x worker room' =
    let w1 = with_new_room k room_id w in
    let r = (join_session session (new_room room_id 5)).1 in
    let rooms = emplace room_id (new_room room_id 5) (rooms_of k w) in
    ap (find room_id) (
      rooms_of-put_rooms k (assign room_id r (rooms_of k w1)) w1 (record x { rooms = rooms })
        (worker-put_rooms k rooms w x worker))
    ∙ ground (arith, find-assign room_id room_id r (rooms_of k w1), room')

-- The user of a client that asked for a new room is gone when the worker comes to the request: the room is
-- made, and the session is put into it before the user is looked for. The room keeps the session, and
-- the route to it stays, although the request failed.
pub process_event_created_gone :
    (k room_id : ℕ) (p : Packet) (session : SessionRef) (bytes : List ℕ) (w : World)
    (x : RoomWorker)
    → find k w.workers ≡ some x
    → find room_id (rooms_of k w) ≡ none
    → get_user session.fd w.users ≡ none
    → let w' = process_event k (creating_event p session room_id bytes) w in
      (find room_id (rooms_of k w') ≡ some (join_session session (new_room room_id 5)).1)
      × (w'.room_to_worker ≡ w.room_to_worker)
unfolding planned_event process_event do_action begun_target resolve_room_id Process.fail_event
    send_response put_rooms
process_event_created_gone k room_id p session bytes w x worker new gone =
    let e0 = creating_event p session room_id bytes in
    let w1 = with_new_room k room_id w in
    let e1 : RoomEvent = begun e0 in
    let e2 : RoomEvent = record (begun e1) { result_code = user_not_found } in
    let w2 = abandoned k room_id session w in
    let room' = there k room_id w x worker new in
    let sent = send_packet-Stands session (response_packet e2 w2.padding) w2 in
    let whole : process_event k e0 w ≡ send_packet session (response_packet e2 w2.padding) w2 =
      loop_goes_on 5 k e0 (record { command = ActionCommand.create_room; target_room_id = room_id })
        w refl refl (ap (with_result (begun e0)) (created k room_id w new)) refl
      ∙ loop_fails 4 k e1 (record { command = ActionCommand.join_room; target_room_id = room_id })
          w1 refl refl (ap (with_result (begun e1)) (join_room_gone k room_id session w room' gone))
          refl in
    let stays =
      ap (λ (v : World). find room_id (rooms_of k v)) whole
      ∙ ap (find room_id) (rooms_of-Stands k w2 _ sent)
      ∙ find-abandoned k room_id session w x worker room' in
    (stays, ap (λ (v : World). v.room_to_worker) whole ∙ sent.1)
