-- ===== src/Journeys/Created.antt =====
-- A request to create a room, at the worker that the new room was bound to (server/src/room/RoomWorker.cpp).
use cpp_epoll_chat.Base.{ℕ, ◌≡◌, refl, ap, ◌∙◌, List, none, some, arith}
use cpp_epoll_chat.Base.Map.{find, emplace, find-emplace}
use cpp_epoll_chat.Journeys.{asks}
use cpp_epoll_chat.Protocol.{Packet, cmd_create_room}
use cpp_epoll_chat.Result.{success}
use cpp_epoll_chat.Room.{SessionRef, new_room}
use cpp_epoll_chat.RoomEvent.{RoomEvent, ActionCommand, begun_target, resolve_room_id}
use cpp_epoll_chat.RoomManager.Dispatch.{planned_event}
use cpp_epoll_chat.RoomManager.Plans.{lobby_room_id}
use cpp_epoll_chat.RoomManager.Routing.{route_event, lobby_worker_id}
use cpp_epoll_chat.RoomWorker.{create_room}
use cpp_epoll_chat.RoomWorker.Membership.{join_room_ok, joined, rooms_of-put_rooms}
use cpp_epoll_chat.RoomWorker.Process.{process_event, do_action, with_result}
use cpp_epoll_chat.RoomWorker.Steps.{begun, loop_returns, loop_goes_on}
use cpp_epoll_chat.User.{User, get_user}
use cpp_epoll_chat.World.{World, RoomWorker, rooms_of, put_rooms, post_event}

-- The event of a request to create a room, once the database gave the id and `bytes` for it.
abbrev pub creating_event : Packet → SessionRef → ℕ → List ℕ → RoomEvent
creating_event p session room_id bytes =
    record (resolve_room_id room_id (planned_event (asks cmd_create_room p) session)) {
      current_action = 1;
      result_code = success;
      response_data = bytes;
    }

abbrev pub with_new_room : ℕ → ℕ → World → World
with_new_room k room_id w = put_rooms k (emplace room_id (new_room room_id 5) (rooms_of k w)) w

-- On its way to the lobby, which is to be left.
abbrev pub moving_event : Packet → SessionRef → ℕ → List ℕ → RoomEvent
moving_event p session room_id bytes = record (creating_event p session room_id bytes) {
  current_action = 4;
  target_room_id = lobby_room_id;
}

pub created :
    (k room_id : ℕ) (w : World)
    → find room_id (rooms_of k w) ≡ none
    → create_room k room_id 5 w ≡ (success, with_new_room k room_id w)
unfolding create_room
created k room_id w new = rw (new, create_room) refl

pub there :
    (k room_id : ℕ) (w : World) (x : RoomWorker)
    → find k w.workers ≡ some x
    → find room_id (rooms_of k w) ≡ none
    → find room_id (rooms_of k (with_new_room k room_id w)) ≡ some (new_room room_id 5)
there k room_id w x worker new =
    ap (find room_id)
      (rooms_of-put_rooms k (emplace room_id (new_room room_id 5) (rooms_of k w)) w x worker)
    ∙ ground (arith, find-emplace room_id room_id (new_room room_id 5) (rooms_of k w))

-- The worker that a new room was bound to makes the room, of five places, and lets a known user in; then
-- it hands the event to the lobby's worker. The client is told nothing yet.
pub process_event_created :
    (k room_id : ℕ) (p : Packet) (session : SessionRef) (bytes : List ℕ) (w : World)
    (x : RoomWorker) (u : User)
    → find k w.workers ≡ some x
    → find room_id (rooms_of k w) ≡ none
    → get_user session.fd w.users ≡ some u
    → find lobby_room_id w.room_to_worker ≡ some lobby_worker_id
    → process_event k (creating_event p session room_id bytes) w
      ≡ post_event lobby_worker_id
          (moving_event p session room_id bytes)
          (joined k session room_id (with_new_room k room_id w) (new_room room_id 5))
unfolding planned_event process_event do_action begun_target resolve_room_id route_event put_rooms
    new_room
process_event_created k room_id p session bytes w x u worker new user lobby' =
    let e0 = creating_event p session room_id bytes in
    let w1 = with_new_room k room_id w in
    let e1 : RoomEvent = begun e0 in
    let room' = there k room_id w x worker new in
    loop_goes_on 5 k e0 (record { command = ActionCommand.create_room; target_room_id = room_id }) w
      refl refl (ap (with_result (begun e0)) (created k room_id w new)) refl
    ∙ loop_goes_on 4 k e1 (record { command = ActionCommand.join_room; target_room_id = room_id })
        w1 refl refl
        (ap (with_result (begun e1))
          (join_room_ok k session room_id w1 (new_room room_id 5) u room' (omega arith) user))
        refl
    ∙ loop_returns 3 k (begun e1)
        (record { command = ActionCommand.request_leave_room; target_room_id = lobby_room_id })
        (joined k session room_id w1 (new_room room_id 5)) refl refl refl
    ∙ ground arith
