-- ===== src/RoomManager/Routed.antt =====
-- What `RoomManager::route_event` (server/src/room/RoomManager.cpp) leaves alone.
use cpp_epoll_chat.Base.{ℕ, ◌≡◌, refl, ap, ◌==◌, if◌then◌else◌, Bool-cases, Option-cases, inl, inr}
use cpp_epoll_chat.Base.Map.{find}
use cpp_epoll_chat.RoomEvent.{RoomEvent}
use cpp_epoll_chat.RoomManager.Routing.{route_event, find_worker}
use cpp_epoll_chat.World.{World, post_event}

-- Only the queues of the workers, and the fault where there is no such worker.
pub route_event-routed :
    (e : RoomEvent) (target : ℕ) (w : World)
    → let w' = (route_event e target w).1 in
      w' ≡ record w { workers = w'.workers; fault = w'.fault }
unfolding route_event post_event
route_event-routed e target w =
    let worker_id = if target == 0 then find_worker e.target_room_id w else target in
    elim (Bool-cases (worker_id == 0)) [
      | inl z ↦ rw (z, route_event) refl
      | inr n ↦ elim (Option-cases (find worker_id w.workers)) [
        | inl q ↦ rw (n, route_event) (rw (q, post_event) refl)
        | inr (x, q) ↦ rw (n, route_event) (rw (q, post_event) refl)
      ]
    ]

pub route_event-users :
    (e : RoomEvent) (target : ℕ) (w : World) → (route_event e target w).1.users ≡ w.users
route_event-users e target w = ap (λ (x : World). x.users) (route_event-routed e target w)

pub route_event-main_events :
    (e : RoomEvent) (target : ℕ) (w : World)
    → (route_event e target w).1.main_events ≡ w.main_events
route_event-main_events e target w =
    ap (λ (x : World). x.main_events) (route_event-routed e target w)
