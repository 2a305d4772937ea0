-- ===== src/RoomWorker/Rooms.antt =====
-- Joining and leaving rooms (server/src/room/RoomWorker.cpp) keeps the shared state well formed.
use cpp_epoll_chat.Base.{ℕ, refl, ◌∙◌, List, [], ◌∷◌}
use cpp_epoll_chat.Base.{Option-cases, Bool-cases, inl, inr, leb}
use cpp_epoll_chat.Base.Map.{
  find, assign, AllValues-emplace, AllValues-erase, AllValues-assign, AllValues-find,
}
use cpp_epoll_chat.Result.{is_success}
use cpp_epoll_chat.Room.{SessionRef, Room, join_session, exit_session, new_room}
use cpp_epoll_chat.Room.Capacity.{
  IsValid, new_room-IsValid, join_session-IsValid, exit_session-IsValid,
}
use cpp_epoll_chat.RoomManager.Routing.{erase_room_to_worker}
use cpp_epoll_chat.RoomWorker.{
  create_room, enter, join_room, is_room, drop_if_empty, leave_room, leave_any, diconnect_session,
}
use cpp_epoll_chat.User.{get_user, set_current_room}
use cpp_epoll_chat.User.Managed.{update_user-IsConsistent, update_user-keys}
use cpp_epoll_chat.World.{World, rooms_of, put_rooms, type_of}
use cpp_epoll_chat.RoomWorker.WellFormed.{IsWellFormed, rooms_of-Valid, put_rooms-IsWellFormed}

pub create_room-IsWellFormed :
    {ids : List (ℕ × ℕ)}
    → (k room_id max : ℕ) (w : World) → IsWellFormed ids w
    → IsWellFormed ids (create_room k room_id max w).1
unfolding create_room
create_room-IsWellFormed k room_id max w h = elim (Option-cases (find room_id (rooms_of k w))) [
  | inl e ↦
      rw (e, create_room)
        (put_rooms-IsWellFormed k _ w h (
          AllValues-emplace IsValid room_id (new_room room_id max) (rooms_of k w)
            (new_room-IsValid room_id max) (rooms_of-Valid k w h)))
  | inr (r, e) ↦ rw (e, create_room) h
]

enter-IsWellFormed :
    {ids : List (ℕ × ℕ)}
    → (fd room_id : ℕ) (w : World) → IsWellFormed ids w
    → IsWellFormed ids (enter fd room_id w).1
unfolding enter set_current_room
enter-IsWellFormed fd room_id w h = elim (Option-cases (get_user fd w.users)) [
  | inl e ↦ rw (e, enter) h
  | inr (u, e) ↦
      rw (e, enter)
        (record {
          rooms = h.rooms;
          users =
              update_user-IsConsistent (set_current_room room_id) (λ u. refl) (λ u. refl) fd w.users
                h.users;
          keys = update_user-keys (set_current_room room_id) fd w.users ∙ h.keys;
        })
]

-- What a write through the reference to a room leaves behind.
assign-IsWellFormed :
    {ids : List (ℕ × ℕ)}
    → (k room_id : ℕ) (r : Room) (w : World) → IsWellFormed ids w
    → IsValid r
    → IsWellFormed ids (put_rooms k (assign room_id r (rooms_of k w)) w)
assign-IsWellFormed k room_id r w h v =
    put_rooms-IsWellFormed k _ w h
      (AllValues-assign IsValid room_id r (rooms_of k w) v (rooms_of-Valid k w h))

pub join_room-IsWellFormed :
    {ids : List (ℕ × ℕ)}
    → (k : ℕ) (s : SessionRef) (room_id : ℕ) (w : World) → IsWellFormed ids w
    → IsWellFormed ids (join_room k s room_id w).1
unfolding join_room
join_room-IsWellFormed k s room_id w h = elim (Option-cases (find room_id (rooms_of k w))) [
  | inl e ↦ rw (e, join_room) h
  | inr (r, e) ↦
      let v =
        join_session-IsValid s r
          (AllValues-find IsValid room_id {v = r} _ e (rooms_of-Valid k w h)) in
      elim (Bool-cases (join_session s r).0) [
        | inl yes' ↦
            rw (e, join_room)
              (rw yes' (enter-IsWellFormed s.fd room_id _ (assign-IsWellFormed k room_id _ w h v)))
        | inr no' ↦ rw (e, join_room) (rw no' h)
      ]
]

drop_if_empty-IsWellFormed :
    {ids : List (ℕ × ℕ)}
    → (k : ℕ) (r : Room) (w : World) → IsWellFormed ids w
    → IsWellFormed ids (drop_if_empty k r w)
unfolding drop_if_empty erase_room_to_worker
drop_if_empty-IsWellFormed {ids = ids} k r w h = elim (Bool-cases (leb r.current_sessions 0)) [
  | inr full ↦ rw (full, drop_if_empty) h
  | inl empty ↦ elim (Bool-cases (is_room (type_of k w))) [
    | inr lobby' ↦ rw (empty, drop_if_empty) (rw lobby' h)
    | inl room' ↦
        let w1 = erase_room_to_worker r.room_id w in
        let h1 : IsWellFormed ids w1 = record { rooms = h.rooms; users = h.users; keys = h.keys } in
        rw (empty, drop_if_empty)
          (rw room' (
            put_rooms-IsWellFormed k _ w1 h1
              (AllValues-erase IsValid r.room_id (rooms_of k w1) (rooms_of-Valid k w1 h1))))
  ]
]

pub leave_room-IsWellFormed :
    {ids : List (ℕ × ℕ)}
    → (k fd room_id : ℕ) (w : World) → IsWellFormed ids w
    → IsWellFormed ids (leave_room k fd room_id w).1
unfolding leave_room
leave_room-IsWellFormed k fd room_id w h = elim (Option-cases (find room_id (rooms_of k w))) [
  | inl e ↦ rw (e, leave_room) h
  | inr (r, e) ↦
      let v =
        exit_session-IsValid fd r
          (AllValues-find IsValid room_id {v = r} _ e (rooms_of-Valid k w h)) in
      elim (Bool-cases (exit_session fd r).0) [
        | inl left ↦
            rw (e, leave_room)
              (rw left (
                drop_if_empty-IsWellFormed k (exit_session fd r).1 _
                  (assign-IsWellFormed k room_id _ w h v)))
        | inr stays ↦ rw (e, leave_room) (rw stays h)
      ]
]

leave_any-IsWellFormed :
    {ids : List (ℕ × ℕ)}
    → (k fd : ℕ) (rooms : List (ℕ × Room)) (w : World) → IsWellFormed ids w
    → IsWellFormed ids (leave_any k fd rooms w).1
unfolding leave_any
leave_any-IsWellFormed k fd [] w h = h
leave_any-IsWellFormed k fd ((j, r) ∷ rooms) w h =
    elim (Bool-cases (is_success (leave_room k fd r.room_id w).0)) [
      | inl yes' ↦ rw yes' (leave_room-IsWellFormed k fd r.room_id w h)
      | inr no' ↦ rw no' (leave_any-IsWellFormed k fd rooms w h)
    ]

pub diconnect_session-IsWellFormed :
    {ids : List (ℕ × ℕ)}
    → (k fd room_id : ℕ) (w : World) → IsWellFormed ids w
    → IsWellFormed ids (diconnect_session k fd room_id w).1
unfolding diconnect_session
diconnect_session-IsWellFormed k fd room_id w h =
    elim (Bool-cases (is_success (leave_room k fd room_id w).0)) [
      | inl yes' ↦ rw yes' (leave_room-IsWellFormed k fd room_id w h)
      | inr no' ↦ rw no' (leave_any-IsWellFormed k fd (rooms_of k w) w h)
    ]
