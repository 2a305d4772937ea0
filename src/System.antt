-- ===== src/System.antt =====
-- The steps that the workers (server/src/room/RoomWorker.cpp) and the database thread
-- (server/src/db/DBWorker.cpp) take on the shared state, in any order, and with them the single calls of
-- the main thread (server/src/server/Server.cpp) while sessions neither come nor go. What a callback is
-- given by the database is any answer at all. What the main thread does as a whole, accept_client,
-- close_session and handle_events included, is a step of Server.Running.
use cpp_epoll_chat.Base.{
  ℕ, ◌≡◌, subst, List, ◌∷◌, Option, none, some, Option-cases, Bool-cases, inl, inr,
}
use cpp_epoll_chat.Base.Map.{find}
use cpp_epoll_chat.Codec.{reader, take_int}
use cpp_epoll_chat.Db.{call_back}
use cpp_epoll_chat.Protocol.{Command, Packet}
use cpp_epoll_chat.Result.{is_success, db_error, success}
use cpp_epoll_chat.Room.{SessionRef}
use cpp_epoll_chat.RoomEvent.{RoomEvent, resolve_room_id}
use cpp_epoll_chat.RoomManager.Dispatch.{
  planned_event, fail_event, dispatch_packet, disconnect_session, request_flush,
}
use cpp_epoll_chat.RoomManager.Routing.{
  route_event, lobby_worker_id, Binding, out_of_draws, throws, bound, bind_to, bind_room_worker,
  draw_second,
}
use cpp_epoll_chat.RoomWorker.Invariant.{run_worker-IsWellFormed}
use cpp_epoll_chat.RoomWorker.Process.{
  run_worker, routes_bound, db_create_room_on_result, db_load_messages_on_result,
}
use cpp_epoll_chat.RoomWorker.WellFormed.{IsWellFormed, route_event-IsWellFormed}
use cpp_epoll_chat.Session.{on_readable}
use cpp_epoll_chat.User.{get_user}
use cpp_epoll_chat.World.{
  World, DbJob, DbStatus, OnResult, no_callback, db_create_room, db_load_messages, update,
}

-- The bytes that wait at a session's socket are read.
unfoldable pub reads_session : ℕ → World → World
reads_session address w = record w { heap = update w.heap address (on_readable (w.heap address)).1 }

pub data Step : World → World → Type 0 where
  reads : (address : ℕ) (w : World) → Step w (reads_session address w)
  dispatches :
      (p : Packet) (session : SessionRef) (w : World) → Step w (dispatch_packet p session w)
  disconnects :
      (garbage : Command) (fd room_id : ℕ) (w : World)
      → Step w (disconnect_session garbage fd room_id w)
  asks_flush :
      (garbage : Command) (session : SessionRef) (w : World)
      → Step w (request_flush garbage session w)
  works : (k : ℕ) (w : World) → Step w (run_worker k w)
  -- A round of the database thread: the job at the front of the queue is taken, and its callback runs.
  answers :
      (job : DbJob) (rest : List DbJob) (status : DbStatus) (bytes : List ℕ) (first : ℕ)
      (draws : List ℕ) (w w' : World)
      → w.job_queue ≡ job ∷ rest
      → call_back job.on_result status bytes first draws (record w { job_queue = rest }) ≡ some w'
      → Step w w'

pub data Reaches : World → World → Type 0 where
  here : (w : World) → Reaches w w
  after : {w v u : World} → Step w v → Reaches v u → Reaches w u

pub dispatch_packet-IsWellFormed :
    {ids : List (ℕ × ℕ)}
    → (p : Packet) (session : SessionRef) (w : World) → IsWellFormed ids w
    → IsWellFormed ids (dispatch_packet p session w)
unfolding dispatch_packet
dispatch_packet-IsWellFormed p session w h =
    let routed = route_event-IsWellFormed (planned_event p session) 0 w h in
    elim (Bool-cases (is_success (route_event (planned_event p session) 0 w).0)) [
      | inl q ↦ rw (q, dispatch_packet) routed
      | inr q ↦
          rw (q, dispatch_packet)
            (route_event-IsWellFormed (fail_event p session) lobby_worker_id _ routed)
    ]

pub request_flush-IsWellFormed :
    {ids : List (ℕ × ℕ)}
    → (garbage : Command) (session : SessionRef) (w : World) → IsWellFormed ids w
    → IsWellFormed ids (request_flush garbage session w)
unfolding request_flush
request_flush-IsWellFormed garbage session w h = elim (Option-cases (get_user session.fd w.users)) [
  | inl q ↦ rw (q, request_flush) h
  | inr (u, q) ↦ rw (q, request_flush) (route_event-IsWellFormed _ 0 w h)
]

-- The answer of a callback: if there is one, it is well formed.
abbrev AnswersWell : List (ℕ × ℕ) → Option World → Type 0
AnswersWell ids none = Unit {0}
AnswersWell ids (some w) = IsWellFormed ids w

-- Binding a room to a worker touches no room and no user.
abbrev BindsWell : List (ℕ × ℕ) → Binding → Type 0
BindsWell ids out_of_draws = Unit {0}
BindsWell ids throws = Unit {0}
BindsWell ids (bound k w) = IsWellFormed ids w

bind_to-BindsWell :
    {ids : List (ℕ × ℕ)}
    → (room_id first second : ℕ) (w : World) → IsWellFormed ids w
    → BindsWell ids (bind_to room_id first second w)
unfolding bind_to
bind_to-BindsWell room_id first second w h = elim (Option-cases (find first w.workers)) [
  | inl q ↦ rw (q, bind_to) tt
  | inr (x, q) ↦ elim (Option-cases (find second w.workers)) [
    | inl z ↦ rw (q, bind_to) (rw z tt)
    | inr (y, z) ↦
        rw (q, bind_to) (rw z (record { rooms = h.rooms; users = h.users; keys = h.keys }))
  ]
]

bind_room_worker-BindsWell :
    {ids : List (ℕ × ℕ)}
    → (room_id first : ℕ) (draws : List ℕ) (w : World) → IsWellFormed ids w
    → BindsWell ids (bind_room_worker room_id first draws w)
unfolding bind_room_worker
bind_room_worker-BindsWell room_id first draws w h =
    elim (Option-cases (draw_second w.room_worker_num first draws)) [
      | inl q ↦ rw (q, bind_room_worker) tt
      | inr (second, q) ↦ rw (q, bind_room_worker) (bind_to-BindsWell room_id first second w h)
    ]

routes_bound-AnswersWell :
    {ids : List (ℕ × ℕ)}
    → (e : RoomEvent) (w : World) (b : Binding) → IsWellFormed ids w
    → BindsWell ids b
    → AnswersWell ids (routes_bound e w b)
routes_bound-AnswersWell e w out_of_draws h v = tt
routes_bound-AnswersWell e w throws h v = h
routes_bound-AnswersWell e w (bound worker_id w') h v = route_event-IsWellFormed e worker_id w' v

creates-AnswersWell :
    {ids : List (ℕ × ℕ)}
    → (e : RoomEvent) (status : DbStatus) (bytes : List ℕ) (first : ℕ) (draws : List ℕ) (w : World)
    → IsWellFormed ids w
    → AnswersWell ids (db_create_room_on_result e status bytes first draws w)
unfolding db_create_room_on_result
creates-AnswersWell {ids = ids} e status bytes first draws w h =
    elim (Option-cases (take_int 8 (reader bytes))) [
      | inl q ↦
          rw (q, db_create_room_on_result)
            (route_event-IsWellFormed (record e { result_code = db_error }) lobby_worker_id w h)
      | inr ((room_id, _), q) ↦
          let e2 : RoomEvent =
            record (resolve_room_id room_id (record e { result_code = success })) {
              response_data = bytes;
            } in
          let bind = bind_room_worker e2.target_room_id first draws w in
          let well =
            routes_bound-AnswersWell e2 w bind h
              (bind_room_worker-BindsWell e2.target_room_id first draws w h) in
          elim status as (λ x. AnswersWell ids (db_create_room_on_result e x bytes first draws w)) [
            | DbStatus.error ↦
                rw (q, db_create_room_on_result)
                  (route_event-IsWellFormed (record e { result_code = db_error }) lobby_worker_id w
                    h)
            | DbStatus.success ↦ rw (q, db_create_room_on_result) well
            | DbStatus.not_found ↦ rw (q, db_create_room_on_result) well
            | DbStatus.duplicate ↦ rw (q, db_create_room_on_result) well
          ]
    ]

call_back-AnswersWell :
    {ids : List (ℕ × ℕ)}
    → (c : OnResult) (status : DbStatus) (bytes : List ℕ) (first : ℕ) (draws : List ℕ) (w : World)
    → IsWellFormed ids w
    → AnswersWell ids (call_back c status bytes first draws w)
unfolding db_load_messages_on_result
call_back-AnswersWell no_callback status bytes first draws w h = h
call_back-AnswersWell (db_create_room e) status bytes first draws w h =
    creates-AnswersWell e status bytes first draws w h
call_back-AnswersWell (db_load_messages e) status bytes first draws w h =
    route_event-IsWellFormed _ 0 w h

pub Step-IsWellFormed :
    {ids : List (ℕ × ℕ)} → {w w' : World} → Step w w' → IsWellFormed ids w → IsWellFormed ids w'
unfolding reads_session disconnect_session
Step-IsWellFormed (reads address w) h = record { rooms = h.rooms; users = h.users; keys = h.keys }
Step-IsWellFormed (dispatches p session w) h = dispatch_packet-IsWellFormed p session w h
Step-IsWellFormed (disconnects garbage fd room_id w) h = route_event-IsWellFormed _ 0 w h
Step-IsWellFormed (asks_flush garbage session w) h = request_flush-IsWellFormed garbage session w h
Step-IsWellFormed (works k w) h = run_worker-IsWellFormed k w h
Step-IsWellFormed {ids = ids} (answers job rest status bytes first draws w w' q a) h =
    subst (AnswersWell ids) a (
      call_back-AnswersWell job.on_result status bytes first draws (record w { job_queue = rest })
        (record { rooms = h.rooms; users = h.users; keys = h.keys }))

-- Whatever steps of these are taken from a well-formed state, in whatever order and with whatever answers
-- of the kernel, the database and the random draws, afterwards every room of every worker holds no
-- session twice and no more than its limit, its counter lies between the two, and the user maps agree
-- and lead from the same descriptors to the same ids.
pub Reaches-IsWellFormed :
    {ids : List (ℕ × ℕ)} → {w w' : World} → Reaches w w' → IsWellFormed ids w → IsWellFormed ids w'
Reaches-IsWellFormed (here w) h = h
Reaches-IsWellFormed (after step rest) h = Reaches-IsWellFormed rest (Step-IsWellFormed step h)
