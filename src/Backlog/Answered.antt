-- ===== src/Backlog/Answered.antt =====
-- Each job that the database thread takes (`thread_main` and `process_job` in
-- server/src/db/DBWorker.cpp) leaves the threads of the server less to do.
use cpp_epoll_chat.Base.{
  ℕ, ◌+◌, ◌≤◌, ◌<◌, ◌≡◌, refl, sym, subst, ◌∙◌, List, [], ◌∷◌, length, map, Option, none, some,
  arith, Option-cases, inl, inr,
}
use cpp_epoll_chat.Backlog.{event_work, result_work, jobs_work, backlog}
use cpp_epoll_chat.Backlog.Quiet.{backlog-route_event}
use cpp_epoll_chat.Base.Map.{find}
use cpp_epoll_chat.Codec.{reader, take_int}
use cpp_epoll_chat.Db.{Libpq, query_of, status_of, call_back, process_job, take_job}
use cpp_epoll_chat.Result.{db_error, success}
use cpp_epoll_chat.RoomEvent.{RoomEvent, RoomAction, resolve_action, resolve_room_id, begun_target}
use cpp_epoll_chat.RoomManager.Routing.{
  lobby_worker_id, Binding, out_of_draws, throws, bound, bind_to, bind_room_worker, draw_second,
}
use cpp_epoll_chat.RoomWorker.Process.{
  load_result, routes_bound, db_create_room_on_result, db_load_messages_on_result,
}
use cpp_epoll_chat.World.{
  World, DbJob, DbStatus, OnResult, no_callback, db_create_room, db_load_messages,
}

-- The answer of a callback, if there is one, leaves at most so much to do.
abbrev Within : ℕ → Option World → Type 0
Within n none = Unit {0}
Within n (some w) = backlog w ≤ n

abbrev BindsWithin : ℕ → Binding → Type 0
BindsWithin n out_of_draws = Unit {0}
BindsWithin n throws = Unit {0}
BindsWithin n (bound k w) = backlog w ≤ n

bind_to-BindsWithin :
    (room_id first second : ℕ) (w : World)
    → BindsWithin (backlog w) (bind_to room_id first second w)
unfolding bind_to
bind_to-BindsWithin room_id first second w = elim (Option-cases (find first w.workers)) [
  | inl q ↦ rw (q, bind_to) tt
  | inr (x, q) ↦ elim (Option-cases (find second w.workers)) [
    | inl z ↦ rw (q, bind_to) (rw z tt)
    | inr (y, z) ↦ rw (q, bind_to) (rw z (omega arith))
  ]
]

bind_room_worker-BindsWithin :
    (room_id first : ℕ) (draws : List ℕ) (w : World)
    → BindsWithin (backlog w) (bind_room_worker room_id first draws w)
unfolding bind_room_worker
bind_room_worker-BindsWithin room_id first draws w =
    elim (Option-cases (draw_second w.room_worker_num first draws)) [
      | inl q ↦ rw (q, bind_room_worker) tt
      | inr (second, q) ↦ rw (q, bind_room_worker) (bind_to-BindsWithin room_id first second w)
    ]

routes_bound-Within :
    (e : RoomEvent) (w : World) (b : Binding)
    → BindsWithin (backlog w) b
    → Within (backlog w + event_work e) (routes_bound e w b)
routes_bound-Within e w out_of_draws h = tt
routes_bound-Within e w throws h = omega arith
routes_bound-Within e w (bound worker_id w') h =
    let routed = backlog-route_event e worker_id w' in omega arith

length-resolve_action :
    (room_id : ℕ) (actions : List RoomAction)
    → length (map (resolve_action room_id) actions) ≡ length actions
length-resolve_action room_id [] = refl
length-resolve_action room_id (a ∷ actions) = omega (arith, length-resolve_action room_id actions)

-- The room's id, once the database gives it, changes no action's number.
event_work-resolve_room_id :
    (room_id : ℕ) (e : RoomEvent) → event_work (resolve_room_id room_id e) ≡ event_work e
unfolding resolve_room_id
event_work-resolve_room_id room_id e = rw (length-resolve_action room_id e.actions) refl

created-Within :
    (e : RoomEvent) (status : DbStatus) (bytes : List ℕ) (first : ℕ) (draws : List ℕ) (w : World)
    → Within (backlog w + event_work e) (db_create_room_on_result e status bytes first draws w)
unfolding db_create_room_on_result
created-Within e status bytes first draws w =
    let refused = backlog-route_event (record e { result_code = db_error }) lobby_worker_id w in
    elim (Option-cases (take_int 8 (reader bytes))) [
      | inl q ↦ rw (q, db_create_room_on_result) (omega arith)
      | inr ((room_id, _), q) ↦
          let e2 : RoomEvent =
            record (resolve_room_id room_id (record e { result_code = success })) {
              response_data = bytes;
            } in
          let b = bind_room_worker e2.target_room_id first draws w in
          let answered =
            subst (λ n. Within (backlog w + n) (routes_bound e2 w b))
              (event_work-resolve_room_id room_id (record e { result_code = success }))
              (routes_bound-Within e2 w b
                (bind_room_worker-BindsWithin e2.target_room_id first draws w)) in
          elim status
            as (λ x.
              Within (backlog w + event_work e)
                (db_create_room_on_result e x bytes first draws w)) [
                  | DbStatus.error ↦ rw (q, db_create_room_on_result) (omega arith)
                  | DbStatus.success ↦ rw (q, db_create_room_on_result) answered
                  | DbStatus.not_found ↦ rw (q, db_create_room_on_result) answered
                  | DbStatus.duplicate ↦ rw (q, db_create_room_on_result) answered
                ]
    ]

event_work-load_result :
    (status : DbStatus) (bytes : List ℕ) (e : RoomEvent)
    → event_work (load_result status bytes e) ≡ event_work e
event_work-load_result DbStatus.success bytes e = refl
event_work-load_result DbStatus.not_found bytes e = refl
event_work-load_result DbStatus.error bytes e = refl
event_work-load_result DbStatus.duplicate bytes e = refl

call_back-Within :
    (c : OnResult) (status : DbStatus) (bytes : List ℕ) (first : ℕ) (draws : List ℕ) (w : World)
    → Within (backlog w + result_work c) (call_back c status bytes first draws w)
unfolding db_load_messages_on_result
call_back-Within no_callback status bytes first draws w = omega arith
call_back-Within (db_create_room e) status bytes first draws w =
    created-Within e status bytes first draws w
call_back-Within (db_load_messages e) status bytes first draws w =
    let e1 = load_result status bytes e in
    let routed = backlog-route_event (record e1 { target_room_id = begun_target e1 }) 0 w in
    let same = event_work-load_result status bytes e in omega arith

module _ (pq : Libpq) (account_serialize : Option (pq.Res) → List ℕ) where
  process_job-Within :
      (job : DbJob) (conn : pq.Conn) (first : ℕ) (draws : List ℕ) (w : World)
      → Within
          (backlog w + result_work job.on_result)
          (process_job pq account_serialize job conn first draws w).0
  unfolding process_job
  process_job-Within job conn first draws w =
      let (res, bytes, conn') = query_of pq account_serialize job conn in
      call_back-Within job.on_result (status_of pq job.type res) bytes first draws w

  pub take_job_less :
      (conn : pq.Conn) (first : ℕ) (draws : List ℕ) (job : DbJob) (jobs : List DbJob) (w w' : World)
      → w.job_queue ≡ job ∷ jobs
      → (take_job pq account_serialize conn first draws w).0 ≡ some w'
      → backlog w' < backlog w
  unfolding take_job
  take_job_less conn first draws job jobs w w' front answered =
      let popped : World = record w { job_queue = jobs } in
      let taken : (take_job pq account_serialize conn first draws w).0
          ≡ (process_job pq account_serialize job conn first draws popped).0 =
        rw (front, take_job) refl in
      let spent =
        subst (Within (backlog popped + result_work job.on_result)) (sym taken ∙ answered)
          (process_job-Within job conn first draws popped) in
      let there : jobs_work w.job_queue ≡ (1 + result_work job.on_result) + jobs_work jobs =
        rw front refl in
      omega arith
