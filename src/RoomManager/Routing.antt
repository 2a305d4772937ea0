-- ===== src/RoomManager/Routing.antt =====
-- The routing half of server/src/room/RoomManager.cpp: which worker owns a room.
use cpp_epoll_chat.Base.{ℕ, List, [], ◌∷◌, Option, none, some}
use cpp_epoll_chat.Base.{leb, ltb, ◌==◌, ◌&&◌, length, if◌then◌else◌}
use cpp_epoll_chat.Base.Map.{find, emplace, erase}
use cpp_epoll_chat.Result.{Result, success, room_not_found}
use cpp_epoll_chat.RoomEvent.{RoomEvent}
use cpp_epoll_chat.World.{World, post_event}

abbrev pub lobby_worker_id : ℕ
lobby_worker_id = 1

-- 0 stands for no worker.
unfoldable pub find_worker : ℕ → World → ℕ
find_worker room_id w = elim (find room_id w.room_to_worker) [
  | none ↦ 0
  | some worker_id ↦ worker_id
]

-- A target of 0 asks for the worker of the event's room.
unfoldable pub route_event : RoomEvent → ℕ → World → Result × World
unfolding find_worker
route_event e target w =
    let worker_id = if target == 0 then find_worker e.target_room_id w else target in
    if worker_id == 0 then (room_not_found, w) else (success, post_event worker_id e w)

unfoldable pub erase_room_to_worker : ℕ → World → World
erase_room_to_worker room_id w = record w { room_to_worker = erase room_id w.room_to_worker }

-- The second draw is taken again while it equals the first and there are three workers or more. `none`:
-- the draws given here ran out.
unfoldable pub draw_second : ℕ → ℕ → List ℕ → Option ℕ
draw_second num first [] = none
draw_second num first (d ∷ draws) =
    let again = draw_second num first draws in if (first == d) && leb 3 num then again else some d

-- How `bind_room_worker` ends: `at` throws for a worker that is not there.
pub data Binding : Type 0 where
  out_of_draws throws : Binding
  bound : ℕ → World → Binding

-- The draws come from `uniform_int_distribution(LOBBY_WORKER_ID + 1, room_worker_num_)`. The worker with
-- fewer rooms is taken, and `emplace` keeps a binding that is there.
unfoldable pub bind_to : ℕ → ℕ → ℕ → World → Binding
bind_to room_id first second w = elim (find first w.workers) [
  | none ↦ throws
  | some x ↦ elim (find second w.workers) [
    | none ↦ throws
    | some y ↦
        let worker_id = if ltb (length x.rooms) (length y.rooms) then first else second in
        bound worker_id (record w { room_to_worker = emplace room_id worker_id w.room_to_worker })
  ]
]

unfoldable pub bind_room_worker : ℕ → ℕ → List ℕ → World → Binding
unfolding draw_second bind_to
bind_room_worker room_id first draws w = elim (draw_second w.room_worker_num first draws) [
  | none ↦ out_of_draws
  | some second ↦ bind_to room_id first second w
]
