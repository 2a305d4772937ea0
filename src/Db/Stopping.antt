-- ===== src/Db/Stopping.antt =====
-- The jobs that are left when the database thread stops (`DBWorker::stop` in
-- server/src/db/DBWorker.cpp).
use cpp_epoll_chat.Base.{
  ℕ, ◌≡◌, ◌≤◌, refl, ap, ◌∙◌, List, [], ◌∷◌, length, Option, none, some, ◌==◌, if◌then◌else◌,
  Bool-cases, Option-cases, inl, inr,
}
use cpp_epoll_chat.Base.Map.{find}
use cpp_epoll_chat.Codec.{reader, take_int, take_bytes}
use cpp_epoll_chat.Backlog.{backlog}
use cpp_epoll_chat.Backlog.Rest.{Empties, run_jobs-Empties, run_jobs_ends}
use cpp_epoll_chat.Db.{Libpq, call_back, drain, then_drain}
use cpp_epoll_chat.Db.Thread.{at_test, behind_test, until_empty, run_jobs, join, stop}
use cpp_epoll_chat.Result.{db_error}
use cpp_epoll_chat.RoomEvent.{RoomEvent, begun_target}
use cpp_epoll_chat.RoomManager.Routing.{route_event, find_worker, lobby_worker_id}
use cpp_epoll_chat.RoomWorker.Process.{db_create_room_on_result, db_load_messages_on_result}
use cpp_epoll_chat.World.{
  World, DbJob, DbStatus, OnResult, no_callback, db_create_room, db_load_messages, post_event,
}

-- What waits for a database that is gone hears of an error: a new room in the lobby, older messages in
-- the room that asked.
abbrev pub refuse : OnResult → World → World
refuse no_callback w = w
refuse (db_create_room e) w =
    (route_event (record e { result_code = db_error }) lobby_worker_id w).1
refuse (db_load_messages e) w =
    (route_event (record e { result_code = db_error; target_room_id = begun_target e }) 0 w).1

abbrev pub refuse_all : List DbJob → World → World
refuse_all [] w = w
refuse_all (job ∷ jobs) w = refuse_all jobs (refuse job.on_result w)

abbrev with_jobs : List DbJob → World → World
with_jobs jobs w = record w { job_queue = jobs }

call_back-error :
    (c : OnResult) (first : ℕ) (draws : List ℕ) (w : World)
    → call_back c DbStatus.error [] first draws w ≡ some (refuse c w)
unfolding db_create_room_on_result db_load_messages_on_result take_int take_bytes reader
    begun_target
call_back-error no_callback first draws w = refl
call_back-error (db_create_room e) first draws w = refl
call_back-error (db_load_messages e) first draws w = refl

route_event-with_jobs :
    (e : RoomEvent) (target : ℕ) (jobs : List DbJob) (w : World)
    → (route_event e target (with_jobs jobs w)).1 ≡ with_jobs jobs (route_event e target w).1
unfolding route_event post_event find_worker
route_event-with_jobs e target jobs w =
    let worker_id = if target == 0 then find_worker e.target_room_id w else target in
    elim (Bool-cases (worker_id == 0)) [
      | inl z ↦ rw (z, route_event) refl
      | inr n ↦ elim (Option-cases (find worker_id w.workers)) [
        | inl q ↦ rw (n, route_event) (rw (q, post_event) refl)
        | inr (x, q) ↦ rw (n, route_event) (rw (q, post_event) refl)
      ]
    ]

refuse-with_jobs :
    (c : OnResult) (jobs : List DbJob) (w : World)
    → refuse c (with_jobs jobs w) ≡ with_jobs jobs (refuse c w)
refuse-with_jobs no_callback jobs w = refl
refuse-with_jobs (db_create_room e) jobs w = route_event-with_jobs _ lobby_worker_id jobs w
refuse-with_jobs (db_load_messages e) jobs w = route_event-with_jobs _ 0 jobs w

refuse_all-with_jobs :
    (jobs left : List DbJob) (w : World)
    → refuse_all jobs (with_jobs left w) ≡ with_jobs left (refuse_all jobs w)
refuse_all-with_jobs [] left w = refl
refuse_all-with_jobs (job ∷ jobs) left w =
    ap (refuse_all jobs) (refuse-with_jobs job.on_result left w)
    ∙ refuse_all-with_jobs jobs left (refuse job.on_result w)

drain_lem :
    (jobs : List DbJob) (first : ℕ) (draws : List ℕ) (w : World)
    → w.job_queue ≡ jobs
    → drain jobs first draws w ≡ some (refuse_all jobs (with_jobs [] w))
unfolding drain
drain_lem [] first draws w e = rw⁻¹ e refl
drain_lem (job ∷ rest) first draws w e =
    rw (drain, call_back-error job.on_result first draws (with_jobs rest w))
      (rw (refuse-with_jobs job.on_result rest w, refuse-with_jobs job.on_result [] w)
        (drain_lem rest first draws (with_jobs rest (refuse job.on_result w)) refl))

module _ (pq : Libpq) (account_serialize : Option (pq.Res) → List ℕ) where
  open pq use {Conn}

  join_behind :
      (ran : Option World) (first : ℕ) (draws : List ℕ)
      → ((w : World) → ran ≡ some w → w.job_queue ≡ [])
      → then_drain (λ (v : World). drain v.job_queue first draws v) (until_empty ran) ≡ ran
  unfolding drain
  join_behind none first draws empty = refl
  join_behind (some w) first draws empty = rw (empty w refl) (rw (empty w refl) refl)

  -- When the database stops, no job is left. If its thread is at the test of its outer loop, the
  -- jobs that wait are taken in order, without a random draw: the event that waits for a new room
  -- goes to the lobby's worker with an error, and the one that waits for older messages goes with
  -- an error to the worker of the room that asked, if there is one. If the thread is behind that
  -- test, stop does what the thread does with these jobs and nothing else. There are as many rounds
  -- as the backlog of all threads counts. Where the draws of a callback run out, there is no
  -- answer.
  pub stop-refuse_all :
      (conn : Conn) (rounds : List (ℕ × List ℕ)) (first : ℕ) (draws : List ℕ) (w : World)
      → backlog w ≤ length rounds
      → (stop pq account_serialize at_test conn rounds first draws w
          ≡ some (refuse_all w.job_queue (record w { job_queue = [] })))
        × (stop pq account_serialize behind_test conn rounds first draws w
            ≡ (run_jobs pq account_serialize conn rounds w).0)
        × ((refuse_all w.job_queue (record w { job_queue = [] })).job_queue ≡ [])
        × Empties (run_jobs pq account_serialize conn rounds w).0
  unfolding stop join
  stop-refuse_all conn rounds first draws w enough = (
    drain_lem w.job_queue first draws w refl,
    join_behind (run_jobs pq account_serialize conn rounds w).0 first draws
        λ v e. run_jobs_ends pq account_serialize conn rounds w v enough e,
    ap (λ (v : World). v.job_queue) (refuse_all-with_jobs w.job_queue [] w),
    run_jobs-Empties pq account_serialize conn rounds w enough,
  )
