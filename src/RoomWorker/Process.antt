-- ===== src/RoomWorker/Process.antt =====
-- `RoomWorker::process_event` and the handlers of database results (server/src/room/RoomWorker.cpp).
use cpp_epoll_chat.Base.{ℕ, zero, suc, ◌+◌, List, [], ◌∷◌, Bool, true, false, Option, none, some}
use cpp_epoll_chat.Base.{length, get_elem?, leb, if◌then◌else◌}
use cpp_epoll_chat.Base.Map.{find, assign}
use cpp_epoll_chat.Codec.{reader, take_int}
use cpp_epoll_chat.Result.{
  Result, is_success, is_none, success, room_not_found, room_full, db_not_found, db_error,
  db_duplicate,
}
use cpp_epoll_chat.RoomEvent.{RoomEvent, RoomAction, ActionCommand, begun_target, resolve_room_id}
use cpp_epoll_chat.RoomManager.Routing.{
  route_event, erase_room_to_worker, Binding, out_of_draws, throws, bound, bind_room_worker,
  lobby_worker_id,
}
use cpp_epoll_chat.RoomWorker
use cpp_epoll_chat.World.{World, RoomWorker, DbStatus, fails, rooms_of}

-- How the switch ends for one action: `process_event` returns, or goes on behind the switch.
pub data Flow : Type 0 where
  returns : World → Flow
  breaks : RoomEvent → World → Flow

abbrev pub with_result : RoomEvent → Result × World → Flow
with_result e (result, w) = breaks (record e { result_code = result }) w

-- `join_room` and `send_message` look for the room, and `join_room` at its limit, before they read
-- through the session's pointer.
abbrev pub null_sender : ℕ → RoomEvent → World → Flow
null_sender k e w = elim (find (begun_target e) (rooms_of k w)) [
  | none ↦ with_result e (room_not_found, w)
  | some _ ↦ returns (fails w)
]

abbrev pub null_joiner : ℕ → RoomEvent → World → Flow
null_joiner k e w = elim (find (begun_target e) (rooms_of k w)) [
  | none ↦ with_result e (room_not_found, w)
  | some r ↦
      if leb r.max_sessions r.current_sessions
      then with_result e (room_full, w)
      else returns (fails w)
]

abbrev pub rerouted : RoomAction → RoomEvent → World → Flow
rerouted a e w = returns (route_event (record e { target_room_id = a.target_room_id }) 0 w).1

-- The switch, for the action that was just begun.
unfoldable pub do_action : ActionCommand → ℕ → RoomAction → RoomEvent → World → Flow
do_action ActionCommand.request_db_create_room k a e w =
    returns (RoomWorker.request_db_create_room e w)
do_action ActionCommand.create_room k a e w =
    with_result e (RoomWorker.create_room k (begun_target e) 5 w)
do_action ActionCommand.join_room k a e w = elim e.session [
  | none ↦ null_joiner k e w
  | some s ↦ with_result e (RoomWorker.join_room k s (begun_target e) w)
]
do_action ActionCommand.leave_room k a e w = elim e.session [
  | none ↦ returns (fails w)
  | some s ↦ with_result e (RoomWorker.leave_room k s.fd (begun_target e) w)
]
do_action ActionCommand.request_join_room k a e w = rerouted a e w
do_action ActionCommand.request_leave_room k a e w = rerouted a e w
do_action ActionCommand.send_message k a e w = elim e.session [
  | none ↦ null_sender k e w
  | some s ↦ with_result e (RoomWorker.send_message k s (begun_target e) e.request_data w)
]
do_action ActionCommand.request_db_load_message k a e w =
    returns (RoomWorker.request_db_load_message e w)
do_action ActionCommand.save_message k a e w = breaks e (RoomWorker.save_message e w)
do_action ActionCommand.send_response k a e w = returns (RoomWorker.send_response e w)
do_action ActionCommand.flush k a e w = elim e.session [
  | none ↦ returns (fails w)
  | some s ↦ returns (RoomWorker.flush s w)
]
do_action ActionCommand.disconnect_session k a e w =
    returns (RoomWorker.diconnect_session k e.fd e.target_room_id w).1

abbrev pub creates_room : List RoomAction → Bool
creates_room [] = false
creates_room (a ∷ _) = elim a.command [ ActionCommand.create_room ↦ true | _ ↦ false ]

-- Behind the switch, for an action that failed.
unfoldable pub fail_event : RoomEvent → World → World
fail_event e w =
    RoomWorker.send_response e
      (if creates_room e.actions then erase_room_to_worker e.target_room_id w else w)

-- Behind the switch: the loop goes on with `next` if the action succeeded.
unfoldable pub follow : (RoomEvent → World → World) → Flow → World
follow next (returns w) = w
follow next (breaks e w) = elim (is_success e.result_code) [
  | true ↦ next e w
  | false ↦ fail_event e w
]

-- A code other than success and none, set before the action begins.
abbrev pub failed_before : RoomEvent → Bool
failed_before e =
    if is_success e.result_code then false else (if is_none e.result_code then false else true)

-- The loop. The fuel is the number of actions: each round begins one more.
unfoldable pub process_loop : ℕ → ℕ → RoomEvent → World → World
process_loop zero k e w = w
process_loop (suc fuel) k e w = elim (get_elem? e.actions e.current_action) [
  | none ↦ w
  | some a ↦ elim (failed_before e) [
    | true ↦ RoomWorker.send_response e w
    | false ↦
        follow (process_loop fuel k)
          (do_action a.command k a (record e { current_action = e.current_action + 1 }) w)
  ]
]

unfoldable pub process_event : ℕ → RoomEvent → World → World
unfolding process_loop
process_event k e w = process_loop (length e.actions) k e w

-- One round of the inner loop of `thread_main`: the event at the front of the queue.
unfoldable pub take_event : ℕ → RoomWorker → List RoomEvent → World → World
take_event k x [] w = w
take_event k x (e ∷ queue) w =
    process_event k e (record w { workers = assign k (record x { event_queue = queue }) w.workers })

unfoldable pub run_worker : ℕ → World → World
unfolding take_event
run_worker k w = elim (find k w.workers) [ none ↦ w | some x ↦ take_event k x x.event_queue w ]

-- The callbacks, on the database thread, which catches what they throw. `none`: the draws ran out.
abbrev pub routes_bound : RoomEvent → World → Binding → Option World
routes_bound e w out_of_draws = none
routes_bound e w throws = some w
routes_bound e w (bound worker_id w') = some (route_event e worker_id w').1

unfoldable pub db_create_room_on_result :
    RoomEvent → DbStatus → List ℕ → ℕ → List ℕ → World → Option World
db_create_room_on_result e status bytes first draws w =
    let failed = (route_event (record e { result_code = db_error }) lobby_worker_id w).1 in
    elim (take_int 8 (reader bytes)) [
      | none ↦ some failed
      | some (room_id, _) ↦ elim status [
        | DbStatus.error ↦ some failed
        | _ ↦
            let e1 = resolve_room_id room_id (record e { result_code = success }) in
            let e2 : RoomEvent = record e1 { response_data = bytes } in
            routes_bound e2 w (bind_room_worker e2.target_room_id first draws w)
      ]
    ]

abbrev pub load_result : DbStatus → List ℕ → RoomEvent → RoomEvent
load_result DbStatus.success bytes e = record e { result_code = success; response_data = bytes }
load_result DbStatus.not_found bytes e = record e { result_code = db_not_found }
load_result DbStatus.error bytes e = record e { result_code = db_error }
load_result DbStatus.duplicate bytes e = record e { result_code = db_duplicate }

unfoldable pub db_load_messages_on_result : RoomEvent → DbStatus → List ℕ → World → World
db_load_messages_on_result e status bytes w =
    let e1 = load_result status bytes e in
    (route_event (record e1 { target_room_id = begun_target e1 }) 0 w).1

-- The events that wait at worker `k`.
unfoldable pub queue_of : ℕ → World → List RoomEvent
queue_of k w = elim (find k w.workers) [ none ↦ [] | some x ↦ x.event_queue ]

-- The inner loop of `thread_main`, while no other thread runs. Each round may queue more events; the fuel
-- is enough for the backlog.
unfoldable pub drain_queue : ℕ → ℕ → World → World
unfolding queue_of run_worker
drain_queue zero k w = w
drain_queue (suc fuel) k w = elim (queue_of k w) [
  | [] ↦ w
  | _ ∷ _ ↦ drain_queue fuel k (run_worker k w)
]
