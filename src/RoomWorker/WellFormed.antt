-- ===== src/RoomWorker/WellFormed.antt =====
-- The state that the threads keep well formed (server/src/room/RoomWorker.h, server/src/user/UserManager.h):
-- every room of every worker within its limit, and the user maps in agreement; and the posting of events.
use cpp_epoll_chat.Base.{ℕ, ◌≡◌, List, [], ◌∷◌}
use cpp_epoll_chat.Base.{Option-cases, Bool-cases, inl, inr, ◌++◌, ◌==◌, if◌then◌else◌}
use cpp_epoll_chat.Base.Map.{find, AllValues, AllValues-assign, AllValues-find}
use cpp_epoll_chat.Room.{Room}
use cpp_epoll_chat.Room.Capacity.{IsValid}
use cpp_epoll_chat.RoomEvent.{RoomEvent}
use cpp_epoll_chat.RoomManager.Routing.{find_worker, route_event}
use cpp_epoll_chat.User.Managed.{IsConsistent}
use cpp_epoll_chat.World.{World, RoomWorker, rooms_of, put_rooms, post_event}

abbrev pub RoomsValid : List (ℕ × Room) → Type 0
RoomsValid = AllValues IsValid

abbrev pub WorkerValid : RoomWorker → Type 0
WorkerValid x = RoomsValid x.rooms

-- `ids` leads from descriptors to the ids of users; a worker's step leaves it alone.
pub record IsWellFormed (ids : List (ℕ × ℕ)) (w : World) : Type 0 where
  pub rooms : AllValues WorkerValid w.workers
  pub users : IsConsistent w.users
  pub keys : w.users.fd_to_user_id ≡ ids

pub rooms_of-Valid :
    {ids : List (ℕ × ℕ)} → (k : ℕ) (w : World) → IsWellFormed ids w → RoomsValid (rooms_of k w)
unfolding rooms_of
rooms_of-Valid k w h = elim (Option-cases (find k w.workers)) [
  | inl e ↦ rw (e, rooms_of) tt
  | inr (x, e) ↦ rw (e, rooms_of) (AllValues-find WorkerValid k {v = x} w.workers e h.rooms)
]

pub put_rooms-IsWellFormed :
    {ids : List (ℕ × ℕ)}
    → (k : ℕ) (rooms : List (ℕ × Room)) (w : World) → IsWellFormed ids w
    → RoomsValid rooms
    → IsWellFormed ids (put_rooms k rooms w)
unfolding put_rooms
put_rooms-IsWellFormed k rooms w h v = elim (Option-cases (find k w.workers)) [
  | inl e ↦ rw (e, put_rooms) (record { rooms = h.rooms; users = h.users; keys = h.keys })
  | inr (x, e) ↦
      rw (e, put_rooms)
        (record {
          rooms = AllValues-assign WorkerValid k (record x { rooms = rooms }) w.workers v h.rooms;
          users = h.users;
          keys = h.keys;
        })
]

pub post_event-IsWellFormed :
    {ids : List (ℕ × ℕ)}
    → (k : ℕ) (e : RoomEvent) (w : World) → IsWellFormed ids w
    → IsWellFormed ids (post_event k e w)
unfolding post_event
post_event-IsWellFormed k e w h = elim (Option-cases (find k w.workers)) [
  | inl q ↦ rw (q, post_event) (record { rooms = h.rooms; users = h.users; keys = h.keys })
  | inr (x, q) ↦
      rw (q, post_event)
        (record {
          rooms =
              AllValues-assign WorkerValid k (record x { event_queue = x.event_queue ++ (e ∷ []) })
                w.workers (AllValues-find WorkerValid k {v = x} w.workers q h.rooms) h.rooms;
          users = h.users;
          keys = h.keys;
        })
]

pub route_event-IsWellFormed :
    {ids : List (ℕ × ℕ)}
    → (e : RoomEvent) (target : ℕ) (w : World) → IsWellFormed ids w
    → IsWellFormed ids (route_event e target w).1
unfolding route_event
route_event-IsWellFormed e target w h =
    let worker_id = if target == 0 then find_worker e.target_room_id w else target in
    elim (Bool-cases (worker_id == 0)) [
      | inl z ↦ rw (z, route_event) h
      | inr n ↦ rw (n, route_event) (post_event-IsWellFormed worker_id e w h)
    ]
