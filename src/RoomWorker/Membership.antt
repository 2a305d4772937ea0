-- ===== src/RoomWorker/Membership.antt =====
-- `join_room` and `leave_room` (server/src/room/RoomWorker.cpp), case by case.
use cpp_epoll_chat.Base.{ℕ, ◌≤◌, ◌<◌, ◌≡◌, refl, ap, ◌∙◌, List, true, false, none, some, arith}
use cpp_epoll_chat.Base.{Option-cases, Bool-cases, inl, inr, leb, le→leb}
use cpp_epoll_chat.Base.Map.{find, assign, find-assign}
use cpp_epoll_chat.Result.{success, room_not_found, room_full, user_not_found}
use cpp_epoll_chat.Room.{SessionRef, Room, join_session, exit_session, find_session}
use cpp_epoll_chat.Room.Capacity.{join_session_admits, exit_session_found}
use cpp_epoll_chat.RoomWorker.{join_room, enter, leave_room, drop_if_empty, is_room}
use cpp_epoll_chat.User.{User, get_user, update_user, set_current_room}
use cpp_epoll_chat.World.{World, RoomWorker, rooms_of, put_rooms, type_of}

module _ (k : ℕ) (s : SessionRef) (room_id : ℕ) (w : World) where
  pub join_room_missing :
      find room_id (rooms_of k w) ≡ none → join_room k s room_id w ≡ (room_not_found, w)
  unfolding join_room
  join_room_missing e = rw (e, join_room) refl

  pub join_room_full :
      (r : Room)
      → find room_id (rooms_of k w) ≡ some r
      → r.max_sessions ≤ r.current_sessions
      → join_room k s room_id w ≡ (room_full, w)
  unfolding join_room join_session
  join_room_full r e full = let h = le→leb _ _ full in rw (e, join_room) (rw (h, join_session) refl)

  -- The world after the session got in: it stands in the room, and the user's room is written.
  abbrev pub joined : Room → World
  joined r = record (put_rooms k (assign room_id (join_session s r).1 (rooms_of k w)) w) {
    users = update_user s.fd (set_current_room room_id) w.users;
  }

  pub join_room_ok :
      (r : Room) (u : User)
      → find room_id (rooms_of k w) ≡ some r
      → r.current_sessions < r.max_sessions
      → get_user s.fd w.users ≡ some u
      → join_room k s room_id w ≡ (success, joined r)
  unfolding join_room enter put_rooms
  join_room_ok r u e room' user =
      rw (e, join_room) (rw (join_session_admits s r room') (rw (user, enter) refl))

-- Rooms of the worker itself, as it writes them.
pub rooms_of-put_rooms :
    (k : ℕ) (rooms : List (ℕ × Room)) (w : World) (x : RoomWorker)
    → find k w.workers ≡ some x
    → rooms_of k (put_rooms k rooms w) ≡ rooms
unfolding rooms_of put_rooms
rooms_of-put_rooms k rooms w x e =
    ground (arith, find-assign k k (record x { rooms = rooms }) w.workers)

pub worker-put_rooms :
    (k : ℕ) (rooms : List (ℕ × Room)) (w : World) (x : RoomWorker)
    → find k w.workers ≡ some x
    → find k (put_rooms k rooms w).workers ≡ some (record x { rooms = rooms })
unfolding put_rooms
worker-put_rooms k rooms w x e =
    ground (arith, find-assign k k (record x { rooms = rooms }) w.workers)

type_of-put_rooms :
    (k : ℕ) (rooms : List (ℕ × Room)) (w : World) → type_of k (put_rooms k rooms w) ≡ type_of k w
unfolding type_of put_rooms
type_of-put_rooms k rooms w = elim (Option-cases (find k w.workers)) [
  | inl e ↦ ground arith
  | inr (x, e) ↦ ground (arith, find-assign k k (record x { rooms = rooms }) w.workers)
]

module _ (k fd room_id : ℕ) (w : World) (r : Room) where
  pub leave_room_absent :
      find room_id (rooms_of k w) ≡ some r
      → find_session fd r ≡ false
      → leave_room k fd room_id w ≡ (user_not_found, w)
  unfolding leave_room exit_session find_session
  leave_room_absent e absent = elim (Option-cases (find fd r.sessions)) [
    | inl q ↦ rw (e, leave_room) (rw (q, exit_session) refl)
    | inr (s, q) ↦ absurd (ground arith)
  ]

  -- The lobby stays, whoever leaves it.
  pub leave_room_lobby :
      find room_id (rooms_of k w) ≡ some r
      → find_session fd r ≡ true
      → is_room (type_of k w) ≡ false
      → leave_room k fd room_id w
        ≡ (success, put_rooms k (assign room_id (exit_session fd r).1 (rooms_of k w)) w)
  unfolding leave_room drop_if_empty
  leave_room_lobby e there lobby' =
      let r' = (exit_session fd r).1 in
      let rooms1 = assign room_id r' (rooms_of k w) in
      let kind : is_room (type_of k (put_rooms k rooms1 w)) ≡ false =
        ap is_room (type_of-put_rooms k rooms1 w) ∙ lobby' in
      elim (Bool-cases (leb r'.current_sessions 0)) [
        | inl z ↦ rw (e, leave_room) (rw (exit_session_found fd r there) (rw z (rw kind refl)))
        | inr z ↦ rw (e, leave_room) (rw (exit_session_found fd r there) (rw z refl))
      ]
