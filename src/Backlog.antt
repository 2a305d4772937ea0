-- ===== src/Backlog.antt =====
-- How much the threads of the server still have to do: the actions of the events that wait at the workers
-- (server/src/room/RoomWorker.cpp) and behind the jobs of the database (server/src/db/DBWorker.cpp).
pub mod Quiet
pub mod Sending
pub mod Rounds
pub mod Answered
pub mod Rest
use cpp_epoll_chat.Base.{ℕ, ◌+◌, ◌*◌, ◌-◌, List, [], ◌∷◌, length}
use cpp_epoll_chat.RoomEvent.{RoomEvent}
use cpp_epoll_chat.World.{
  World, RoomWorker, DbJob, OnResult, no_callback, db_create_room, db_load_messages,
}

abbrev pub actions_left : RoomEvent → ℕ
actions_left e = length e.actions - e.current_action

-- An action may become a job, and a job an event again.
abbrev pub event_work : RoomEvent → ℕ
event_work e = 1 + 2 * actions_left e

abbrev pub queue_work : List RoomEvent → ℕ
queue_work [] = 0
queue_work (e ∷ queue) = event_work e + queue_work queue

abbrev pub workers_work : List (ℕ × RoomWorker) → ℕ
workers_work [] = 0
workers_work ((_, x) ∷ workers) = queue_work x.event_queue + workers_work workers

abbrev pub result_work : OnResult → ℕ
result_work no_callback = 0
result_work (db_create_room e) = event_work e
result_work (db_load_messages e) = event_work e

abbrev pub jobs_work : List DbJob → ℕ
jobs_work [] = 0
jobs_work (job ∷ jobs) = (1 + result_work job.on_result) + jobs_work jobs

abbrev pub backlog : World → ℕ
backlog w = workers_work w.workers + jobs_work w.job_queue
