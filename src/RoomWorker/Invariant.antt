-- ===== src/RoomWorker/Invariant.antt =====
-- Processing an event (`RoomWorker::process_event` and the database callbacks of
-- server/src/room/RoomWorker.cpp) keeps the shared state well formed.
use cpp_epoll_chat.Base.{ℕ, zero, suc, ◌+◌, List, [], ◌∷◌}
use cpp_epoll_chat.Base.{Option-cases, Bool-cases, inl, inr, length, get_elem?, leb}
use cpp_epoll_chat.Base.Map.{find, AllValues-assign, AllValues-find}
use cpp_epoll_chat.Result.{is_success}
use cpp_epoll_chat.RoomEvent.{RoomEvent, RoomAction, ActionCommand, begun_target}
use cpp_epoll_chat.RoomManager.Routing.{erase_room_to_worker}
use cpp_epoll_chat.RoomWorker.Rooms
use cpp_epoll_chat.RoomWorker.Sends
use cpp_epoll_chat.RoomWorker.WellFormed.{IsWellFormed, WorkerValid, route_event-IsWellFormed}
use cpp_epoll_chat.RoomWorker.Process.{
  Flow, returns, breaks, null_sender, null_joiner, do_action, creates_room, fail_event, follow,
  failed_before, process_loop, process_event, take_event, run_worker,
}
use cpp_epoll_chat.World.{World, RoomWorker, fails, rooms_of}

abbrev FlowValid : List (ℕ × ℕ) → Flow → Type 0
FlowValid ids (returns w) = IsWellFormed ids w
FlowValid ids (breaks e w) = IsWellFormed ids w

fails-IsWellFormed :
    {ids : List (ℕ × ℕ)} → (w : World) → IsWellFormed ids w → IsWellFormed ids (fails w)
fails-IsWellFormed w h = record { rooms = h.rooms; users = h.users; keys = h.keys }

null_sender-Valid :
    {ids : List (ℕ × ℕ)}
    → (k : ℕ) (e : RoomEvent) (w : World) → IsWellFormed ids w
    → FlowValid ids (null_sender k e w)
null_sender-Valid k e w h = elim (Option-cases (find (begun_target e) (rooms_of k w))) [
  | inl q ↦ rw (q, null_sender) h
  | inr (r, q) ↦ rw (q, null_sender) (fails-IsWellFormed w h)
]

null_joiner-Valid :
    {ids : List (ℕ × ℕ)}
    → (k : ℕ) (e : RoomEvent) (w : World) → IsWellFormed ids w
    → FlowValid ids (null_joiner k e w)
null_joiner-Valid k e w h = elim (Option-cases (find (begun_target e) (rooms_of k w))) [
  | inl q ↦ rw (q, null_joiner) h
  | inr (r, q) ↦ elim (Bool-cases (leb r.max_sessions r.current_sessions)) [
    | inl full ↦ rw (q, null_joiner) (rw full h)
    | inr free ↦ rw (q, null_joiner) (rw free (fails-IsWellFormed w h))
  ]
]

do_action-Valid :
    {ids : List (ℕ × ℕ)}
    → (c : ActionCommand) (k : ℕ) (a : RoomAction) (e : RoomEvent) (w : World) → IsWellFormed ids w
    → FlowValid ids (do_action c k a e w)
unfolding do_action
do_action-Valid ActionCommand.request_db_create_room k a e w h =
    (Sends.request_db-IsWellFormed e w h).0
do_action-Valid ActionCommand.create_room k a e w h =
    Rooms.create_room-IsWellFormed k (begun_target e) 5 w h
do_action-Valid ActionCommand.join_room k a e w h = elim (Option-cases e.session) [
  | inl q ↦ rw (q, do_action) (null_joiner-Valid k e w h)
  | inr (s, q) ↦ rw (q, do_action) (Rooms.join_room-IsWellFormed k s (begun_target e) w h)
]
do_action-Valid ActionCommand.leave_room k a e w h = elim (Option-cases e.session) [
  | inl q ↦ rw (q, do_action) (fails-IsWellFormed w h)
  | inr (s, q) ↦ rw (q, do_action) (Rooms.leave_room-IsWellFormed k s.fd (begun_target e) w h)
]
do_action-Valid ActionCommand.request_join_room k a e w h = route_event-IsWellFormed _ 0 w h
do_action-Valid ActionCommand.request_leave_room k a e w h = route_event-IsWellFormed _ 0 w h
do_action-Valid ActionCommand.send_message k a e w h = elim (Option-cases e.session) [
  | inl q ↦ rw (q, do_action) (null_sender-Valid k e w h)
  | inr (s, q) ↦
      rw (q, do_action) (Sends.send_message-IsWellFormed k s (begun_target e) e.request_data w h)
]
do_action-Valid ActionCommand.request_db_load_message k a e w h =
    (Sends.request_db-IsWellFormed e w h).1
do_action-Valid ActionCommand.save_message k a e w h = Sends.save_message-IsWellFormed e w h
do_action-Valid ActionCommand.send_response k a e w h = Sends.send_response-IsWellFormed e w h
do_action-Valid ActionCommand.flush k a e w h = elim (Option-cases e.session) [
  | inl q ↦ rw (q, do_action) (fails-IsWellFormed w h)
  | inr (s, q) ↦ rw (q, do_action) (Sends.flush-IsWellFormed s w h)
]
do_action-Valid ActionCommand.disconnect_session k a e w h =
    Rooms.diconnect_session-IsWellFormed k e.fd e.target_room_id w h

fail_event-IsWellFormed :
    {ids : List (ℕ × ℕ)}
    → (e : RoomEvent) (w : World) → IsWellFormed ids w
    → IsWellFormed ids (fail_event e w)
unfolding fail_event erase_room_to_worker
fail_event-IsWellFormed e w h = elim (Bool-cases (creates_room e.actions)) [
  | inl yes' ↦
      rw (yes', fail_event)
        (Sends.send_response-IsWellFormed e _
          (record { rooms = h.rooms; users = h.users; keys = h.keys }))
  | inr no' ↦ rw (no', fail_event) (Sends.send_response-IsWellFormed e w h)
]

follow-IsWellFormed :
    {ids : List (ℕ × ℕ)}
    → (next : RoomEvent → World → World) (f : Flow)
    → ((e : RoomEvent) (w : World) → IsWellFormed ids w → IsWellFormed ids (next e w))
    → FlowValid ids f
    → IsWellFormed ids (follow next f)
unfolding follow
follow-IsWellFormed next (returns w) keep h = h
follow-IsWellFormed next (breaks e w) keep h = elim (Bool-cases (is_success e.result_code)) [
  | inl yes' ↦ rw (yes', follow) (keep e w h)
  | inr no' ↦ rw (no', follow) (fail_event-IsWellFormed e w h)
]

process_loop-IsWellFormed :
    {ids : List (ℕ × ℕ)}
    → (fuel k : ℕ) (e : RoomEvent) (w : World) → IsWellFormed ids w
    → IsWellFormed ids (process_loop fuel k e w)
unfolding process_loop
process_loop-IsWellFormed zero k e w h = h
process_loop-IsWellFormed (suc fuel) k e w h =
    elim (Option-cases (get_elem? e.actions e.current_action)) [
      | inl q ↦ rw (q, process_loop) h
      | inr (a, q) ↦ elim (Bool-cases (failed_before e)) [
        | inl f ↦ rw (q, process_loop) (rw f (Sends.send_response-IsWellFormed e w h))
        | inr f ↦
            let e' : RoomEvent = record e { current_action = e.current_action + 1 } in
            let next =
              follow-IsWellFormed (process_loop fuel k) (do_action a.command k a e' w)
                (λ x y. process_loop-IsWellFormed fuel k x y)
                (do_action-Valid a.command k a e' w h) in
            rw (q, process_loop) (rw f next)
      ]
    ]

-- Whatever event a worker processes, afterwards every room of every worker holds no session twice and
-- no more than its limit, its counter lies between the two, and the two user maps agree
-- and lead from the same descriptors to the same ids.
pub process_event-IsWellFormed :
    {ids : List (ℕ × ℕ)}
    → (k : ℕ) (e : RoomEvent) (w : World) → IsWellFormed ids w
    → IsWellFormed ids (process_event k e w)
unfolding process_event
process_event-IsWellFormed k e w h = process_loop-IsWellFormed (length e.actions) k e w h

take_event-IsWellFormed :
    {ids : List (ℕ × ℕ)}
    → (k : ℕ) (x : RoomWorker) (queue : List RoomEvent) (w : World) → IsWellFormed ids w
    → WorkerValid x
    → IsWellFormed ids (take_event k x queue w)
unfolding take_event
take_event-IsWellFormed k x [] w h v = h
take_event-IsWellFormed k x (e ∷ queue) w h v = process_event-IsWellFormed k e _ (record {
  rooms = AllValues-assign WorkerValid k (record x { event_queue = queue }) w.workers v h.rooms;
  users = h.users;
  keys = h.keys;
})

pub run_worker-IsWellFormed :
    {ids : List (ℕ × ℕ)}
    → (k : ℕ) (w : World) → IsWellFormed ids w
    → IsWellFormed ids (run_worker k w)
unfolding run_worker
run_worker-IsWellFormed k w h = elim (Option-cases (find k w.workers)) [
  | inl q ↦ rw (q, run_worker) h
  | inr (x, q) ↦
      rw (q, run_worker)
        (take_event-IsWellFormed k x x.event_queue w h
          (AllValues-find WorkerValid k {v = x} w.workers q h.rooms))
]
