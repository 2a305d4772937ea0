-- ===== src/Backlog/Quiet.antt =====
-- What the workers do to rooms and sessions (server/src/room/RoomWorker.cpp) queues no event and no job.
use cpp_epoll_chat.Base.{
  ℕ, ◌+◌, ◌≤◌, ◌≡◌, refl, ◌∙◌, List, [], ◌∷◌, ◌++◌, some, ◌==◌, if◌then◌else◌, leb, arith,
  Bool-cases, Option-cases, inl, inr,
}
use cpp_epoll_chat.Backlog.{queue_work, workers_work, jobs_work, event_work, backlog, result_work}
use cpp_epoll_chat.Base.Map.{find, assign}
use cpp_epoll_chat.Result.{is_success}
use cpp_epoll_chat.Room.{SessionRef, Room, join_session, exit_session}
use cpp_epoll_chat.RoomEvent.{RoomEvent}
use cpp_epoll_chat.RoomManager.Routing.{find_worker, route_event, erase_room_to_worker}
use cpp_epoll_chat.RoomWorker.{
  create_room, enter, join_room, is_room, drop_if_empty, leave_room, leave_any, diconnect_session,
}
use cpp_epoll_chat.User.{get_user}
use cpp_epoll_chat.World.{
  World, RoomWorker, DbJob, rooms_of, put_rooms, type_of, post_event, post_job,
}

pub workers_work-assign :
    (k : ℕ) (x y : RoomWorker) (workers : List (ℕ × RoomWorker))
    → find k workers ≡ some x
    → workers_work (assign k y workers) + queue_work x.event_queue
      ≡ workers_work workers + queue_work y.event_queue
unfolding find assign
workers_work-assign k x y [] e = cc
workers_work-assign k x y ((j, z) ∷ workers) e = ground (arith, workers_work-assign k x y workers)

pub queue_work-append :
    (queue : List RoomEvent) (e : RoomEvent)
    → queue_work (queue ++ (e ∷ [])) ≡ queue_work queue + event_work e
queue_work-append [] e = omega arith
queue_work-append (x ∷ queue) e = omega (arith, queue_work-append queue e)

pub jobs_work-append :
    (jobs : List DbJob) (job : DbJob)
    → jobs_work (jobs ++ (job ∷ [])) ≡ jobs_work jobs + (1 + result_work job.on_result)
jobs_work-append [] job = omega arith
jobs_work-append (x ∷ jobs) job = omega (arith, jobs_work-append jobs job)

pub backlog-put_rooms :
    (k : ℕ) (rooms : List (ℕ × Room)) (w : World) → backlog (put_rooms k rooms w) ≡ backlog w
unfolding put_rooms
backlog-put_rooms k rooms w = elim (Option-cases (find k w.workers)) [
  | inl e ↦ rw (e, put_rooms) refl
  | inr (x, e) ↦
      let h = workers_work-assign k x (record x { rooms = rooms }) w.workers e in
      rw (e, put_rooms) (omega arith)
]

pub backlog-post_event :
    (k : ℕ) (e : RoomEvent) (w : World) → backlog (post_event k e w) ≤ backlog w + event_work e
unfolding post_event
backlog-post_event k e w = elim (Option-cases (find k w.workers)) [
  | inl q ↦ rw (q, post_event) (omega arith)
  | inr (x, q) ↦
      let h =
        workers_work-assign k x (record x { event_queue = x.event_queue ++ (e ∷ []) }) w.workers
          q in
      let a = queue_work-append x.event_queue e in rw (q, post_event) (omega arith)
]

pub backlog-route_event :
    (e : RoomEvent) (target : ℕ) (w : World)
    → backlog (route_event e target w).1 ≤ backlog w + event_work e
unfolding route_event
backlog-route_event e target w =
    let worker_id = if target == 0 then find_worker e.target_room_id w else target in
    elim (Bool-cases (worker_id == 0)) [
      | inl z ↦ rw (z, route_event) (omega arith)
      | inr n ↦ rw (n, route_event) (backlog-post_event worker_id e w)
    ]

pub backlog-post_job :
    (job : DbJob) (w : World)
    → backlog (post_job job w) ≡ backlog w + (1 + result_work job.on_result)
unfolding post_job
backlog-post_job job w = omega (arith, jobs_work-append w.job_queue job)

pub backlog-create_room :
    (k room_id max : ℕ) (w : World) → backlog (create_room k room_id max w).1 ≡ backlog w
unfolding create_room
backlog-create_room k room_id max w = elim (Option-cases (find room_id (rooms_of k w))) [
  | inl e ↦ rw (e, create_room) (backlog-put_rooms k _ w)
  | inr (r, e) ↦ rw (e, create_room) refl
]

backlog-enter : (fd room_id : ℕ) (w : World) → backlog (enter fd room_id w).1 ≡ backlog w
unfolding enter
backlog-enter fd room_id w = elim (Option-cases (get_user fd w.users)) [
  | inl e ↦ rw (e, enter) refl
  | inr (u, e) ↦ rw (e, enter) refl
]

pub backlog-join_room :
    (k : ℕ) (s : SessionRef) (room_id : ℕ) (w : World)
    → backlog (join_room k s room_id w).1 ≡ backlog w
unfolding join_room
backlog-join_room k s room_id w = elim (Option-cases (find room_id (rooms_of k w))) [
  | inl e ↦ rw (e, join_room) refl
  | inr (r, e) ↦ elim (Bool-cases (join_session s r).0) [
    | inl yes' ↦
        rw (e, join_room) (rw yes' (backlog-enter s.fd room_id _ ∙ backlog-put_rooms k _ w))
    | inr no' ↦ rw (e, join_room) (rw no' refl)
  ]
]

backlog-drop_if_empty : (k : ℕ) (r : Room) (w : World) → backlog (drop_if_empty k r w) ≡ backlog w
unfolding drop_if_empty erase_room_to_worker
backlog-drop_if_empty k r w = elim (Bool-cases (leb r.current_sessions 0)) [
  | inr full ↦ rw (full, drop_if_empty) refl
  | inl empty ↦ elim (Bool-cases (is_room (type_of k w))) [
    | inr lobby' ↦ rw (empty, drop_if_empty) (rw lobby' refl)
    | inl room' ↦
        rw (empty, drop_if_empty)
          (rw room' (backlog-put_rooms k _ (erase_room_to_worker r.room_id w)))
  ]
]

pub backlog-leave_room :
    (k fd room_id : ℕ) (w : World) → backlog (leave_room k fd room_id w).1 ≡ backlog w
unfolding leave_room
backlog-leave_room k fd room_id w = elim (Option-cases (find room_id (rooms_of k w))) [
  | inl e ↦ rw (e, leave_room) refl
  | inr (r, e) ↦ elim (Bool-cases (exit_session fd r).0) [
    | inl left ↦
        rw (e, leave_room)
          (rw left (backlog-drop_if_empty k (exit_session fd r).1 _ ∙ backlog-put_rooms k _ w))
    | inr stays ↦ rw (e, leave_room) (rw stays refl)
  ]
]

backlog-leave_any :
    (k fd : ℕ) (rooms : List (ℕ × Room)) (w : World)
    → backlog (leave_any k fd rooms w).1 ≡ backlog w
unfolding leave_any
backlog-leave_any k fd [] w = refl
backlog-leave_any k fd ((j, r) ∷ rooms) w =
    elim (Bool-cases (is_success (leave_room k fd r.room_id w).0)) [
      | inl yes' ↦ rw yes' (backlog-leave_room k fd r.room_id w)
      | inr no' ↦ rw no' (backlog-leave_any k fd rooms w)
    ]

pub backlog-diconnect_session :
    (k fd room_id : ℕ) (w : World) → backlog (diconnect_session k fd room_id w).1 ≡ backlog w
unfolding diconnect_session
backlog-diconnect_session k fd room_id w =
    elim (Bool-cases (is_success (leave_room k fd room_id w).0)) [
      | inl yes' ↦ rw yes' (backlog-leave_room k fd room_id w)
      | inr no' ↦ rw no' (backlog-leave_any k fd (rooms_of k w) w)
    ]
