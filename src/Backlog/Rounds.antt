-- ===== src/Backlog/Rounds.antt =====
-- Each event that a worker takes from its queue (`thread_main` and `process_event` in
-- server/src/room/RoomWorker.cpp) leaves the threads of the server less to do.
use cpp_epoll_chat.Base.{
  ℕ, zero, suc, ◌+◌, ◌*◌, ◌≤◌, ◌<◌, ◌≡◌, refl, sym, subst, List, ◌∷◌, length, get_elem?, some,
  arith, leb, Bool-cases, Option-cases, inl, inr,
}
use cpp_epoll_chat.Backlog.{actions_left, event_work, queue_work, backlog}
use cpp_epoll_chat.Backlog.Quiet.{
  workers_work-assign, backlog-route_event, backlog-create_room, backlog-join_room,
  backlog-leave_room, backlog-diconnect_session,
}
use cpp_epoll_chat.Backlog.Sending.{
  backlog-flush, backlog-send_message, backlog-send_response, backlog-save_message,
  backlog-request_db,
}
use cpp_epoll_chat.Base.Map.{find, assign}
use cpp_epoll_chat.Result.{is_success}
use cpp_epoll_chat.RoomEvent.{RoomEvent, RoomAction, ActionCommand, begun_target}
use cpp_epoll_chat.RoomManager.Routing.{erase_room_to_worker}
use cpp_epoll_chat.RoomWorker.Fuel.{KeepsPlan, do_action-KeepsPlan, get_elem-beyond}
use cpp_epoll_chat.RoomWorker.Process.{
  Flow, returns, breaks, null_sender, null_joiner, rerouted, do_action, follow, fail_event,
  creates_room, failed_before, process_loop, process_event, take_event, run_worker, queue_of,
}
use cpp_epoll_chat.World.{World, RoomWorker, rooms_of}

-- One action queues at most one job for the database, or one event with what is left of the plan.
abbrev Spends : RoomEvent → World → Flow → Type 0
Spends e w (returns w') = backlog w' ≤ backlog w + 1 + event_work e
Spends e w (breaks e' w') = backlog w' ≤ backlog w + 1

null_sender-Spends : (k : ℕ) (e : RoomEvent) (w : World) → Spends e w (null_sender k e w)
null_sender-Spends k e w = elim (Option-cases (find (begun_target e) (rooms_of k w))) [
  | inl q ↦ rw (q, null_sender) (omega arith)
  | inr (r, q) ↦ rw (q, null_sender) (omega arith)
]

null_joiner-Spends : (k : ℕ) (e : RoomEvent) (w : World) → Spends e w (null_joiner k e w)
null_joiner-Spends k e w = elim (Option-cases (find (begun_target e) (rooms_of k w))) [
  | inl q ↦ rw (q, null_joiner) (omega arith)
  | inr (r, q) ↦ elim (Bool-cases (leb r.max_sessions r.current_sessions)) [
    | inl full ↦ rw (q, null_joiner) (rw full (omega arith))
    | inr free ↦ rw (q, null_joiner) (rw free (omega arith))
  ]
]

rerouted-Spends : (a : RoomAction) (e : RoomEvent) (w : World) → Spends e w (rerouted a e w)
rerouted-Spends a e w =
    let h = backlog-route_event (record e { target_room_id = a.target_room_id }) 0 w in omega arith

do_action-Spends :
    (c : ActionCommand) (k : ℕ) (a : RoomAction) (e : RoomEvent) (w : World)
    → Spends e w (do_action c k a e w)
unfolding do_action
do_action-Spends ActionCommand.join_room k a e w = elim (Option-cases e.session) [
  | inl q ↦ rw (q, do_action) (null_joiner-Spends k e w)
  | inr (s, q) ↦ rw (q, do_action) (omega (arith, backlog-join_room k s (begun_target e) w))
]
do_action-Spends ActionCommand.leave_room k a e w = elim (Option-cases e.session) [
  | inl q ↦ rw (q, do_action) (omega arith)
  | inr (s, q) ↦ rw (q, do_action) (omega (arith, backlog-leave_room k s.fd (begun_target e) w))
]
do_action-Spends ActionCommand.send_message k a e w = elim (Option-cases e.session) [
  | inl q ↦ rw (q, do_action) (null_sender-Spends k e w)
  | inr (s, q) ↦
      rw (q, do_action) (omega (arith, backlog-send_message k s (begun_target e) e.request_data w))
]
do_action-Spends ActionCommand.flush k a e w = elim (Option-cases e.session) [
  | inl q ↦ rw (q, do_action) (omega arith)
  | inr (s, q) ↦ rw (q, do_action) (omega (arith, backlog-flush s w))
]
do_action-Spends ActionCommand.create_room k a e w =
    omega (arith, backlog-create_room k (begun_target e) 5 w)
do_action-Spends ActionCommand.save_message k a e w = backlog-save_message e w
do_action-Spends ActionCommand.request_db_create_room k a e w =
    omega (arith, (backlog-request_db e w).0)
do_action-Spends ActionCommand.request_db_load_message k a e w =
    omega (arith, (backlog-request_db e w).1)
do_action-Spends ActionCommand.request_join_room k a e w = rerouted-Spends a e w
do_action-Spends ActionCommand.request_leave_room k a e w = rerouted-Spends a e w
do_action-Spends ActionCommand.send_response k a e w = omega (arith, backlog-send_response e w)
do_action-Spends ActionCommand.disconnect_session k a e w =
    omega (arith, backlog-diconnect_session k e.fd e.target_room_id w)

backlog-fail_event : (e : RoomEvent) (w : World) → backlog (fail_event e w) ≡ backlog w
unfolding fail_event erase_room_to_worker
backlog-fail_event e w = elim (Bool-cases (creates_room e.actions)) [
  | inl q ↦ rw (fail_event, q) (backlog-send_response e (erase_room_to_worker e.target_room_id w))
  | inr q ↦ rw (fail_event, q) (backlog-send_response e w)
]

-- What follows the action that `e1` has begun, in terms of what was there before.
follow-Spends :
    (next : RoomEvent → World → World) (e1 : RoomEvent) (w : World) (flow : Flow)
    → KeepsPlan e1 flow
    → Spends e1 w flow
    → ((e' : RoomEvent) (w' : World) → backlog (next e' w') ≤ backlog w' + 2 * actions_left e')
    → backlog (follow next flow) ≤ backlog w + 2 + 2 * actions_left e1
unfolding follow
follow-Spends next e1 w (returns w') kept spent rest = omega arith
follow-Spends next e1 w (breaks e' w') kept spent rest =
    let left : actions_left e' ≡ actions_left e1 = rw (kept.0, kept.1) refl in
    elim (Bool-cases (is_success e'.result_code)) [
      | inl q ↦ rw (q, follow) (omega (arith, rest e' w', left))
      | inr q ↦ rw (q, follow) (omega (arith, backlog-fail_event e' w'))
    ]

get_elem-within :
    (xs : List RoomAction) (i : ℕ) (a : RoomAction) → get_elem? xs i ≡ some a → i < length xs
get_elem-within xs i a q = elim (Bool-cases (leb (length xs) i)) [
  | inl beyond ↦ ground (arith, get_elem-beyond xs i)
  | inr within ↦ ground arith
]

backlog-process_loop :
    (fuel k : ℕ) (e : RoomEvent) (w : World)
    → backlog (process_loop fuel k e w) ≤ backlog w + 2 * actions_left e
unfolding process_loop
backlog-process_loop zero k e w = omega arith
backlog-process_loop (suc fuel) k e w = elim (Option-cases (get_elem? e.actions e.current_action)) [
  | inl q ↦ rw (q, process_loop) (omega arith)
  | inr (a, q) ↦ elim (Bool-cases (failed_before e)) [
    | inl f ↦ rw (q, process_loop) (rw f (omega (arith, backlog-send_response e w)))
    | inr f ↦
        let e1 : RoomEvent = record e { current_action = e.current_action + 1 } in
        let spent =
          follow-Spends (process_loop fuel k) e1 w (do_action a.command k a e1 w)
            (do_action-KeepsPlan a.command k a e1 w) (do_action-Spends a.command k a e1 w)
            (backlog-process_loop fuel k) in
        let one_less = get_elem-within e.actions e.current_action a q in
        rw (q, process_loop) (rw f (omega arith))
  ]
]

take_event_less :
    (k : ℕ) (x : RoomWorker) (e : RoomEvent) (queue : List RoomEvent) (w : World)
    → find k w.workers ≡ some x
    → x.event_queue ≡ e ∷ queue
    → backlog (take_event k x (e ∷ queue) w) < backlog w
unfolding take_event process_event
take_event_less k x e queue w found front =
    let popped : World = record w {
      workers = assign k (record x { event_queue = queue }) w.workers;
    } in
    let moved = workers_work-assign k x (record x { event_queue = queue }) w.workers found in
    let taken : queue_work x.event_queue ≡ event_work e + queue_work queue = rw front refl in
    let spent = backlog-process_loop (length e.actions) k e popped in omega arith

pub run_worker_less :
    (k : ℕ) (e : RoomEvent) (queue : List RoomEvent) (w : World)
    → queue_of k w ≡ e ∷ queue
    → backlog (run_worker k w) < backlog w
unfolding run_worker queue_of
run_worker_less k e queue w front = elim (Option-cases (find k w.workers)) [
  | inl q ↦ ground arith
  | inr (x, q) ↦
      let there : x.event_queue ≡ e ∷ queue = ground (arith, front) in
      rw (q, run_worker)
        (subst (λ waiting. backlog (take_event k x waiting w) < backlog w) (sym there)
          (take_event_less k x e queue w q there))
]
