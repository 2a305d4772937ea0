-- ===== src/Tests/Database.antt =====
-- The database thread (server/src/db) at concrete states.
use cpp_epoll_chat.Base.{
  ℕ, zero, suc, ◌+◌, ◌≡◌, refl, [], ◌∷◌, List, length, true, false, none, some, Option, not, ◌&&◌,
  if◌then◌else◌, get_elem?, arith,
}
use cpp_epoll_chat.Base.Bytes.{le_bytes}
use cpp_epoll_chat.Codec.{put, put_str}
use cpp_epoll_chat.Db.{
  Libpq, insert_room, Column, id_column, sender_id_column, created_epoch_column, sender_nick_column,
  content_column, room_id_column, tuples_ok, to_messages, process_job, exec, exec_once, ok,
  is_alive, reconnect,
}
use cpp_epoll_chat.Db.Answers.{parse-to_messages, ShowsMessage}
use cpp_epoll_chat.Db.Created.{GoesOn, process_job-GoesOn}
use cpp_epoll_chat.Backlog.Rest.{Empties}
use cpp_epoll_chat.Db.Thread.{at_test, behind_test, run_jobs, stop}
use cpp_epoll_chat.Db.Retrying.{sent-exec}
use cpp_epoll_chat.Db.Stopping.{stop-refuse_all, refuse_all}
use cpp_epoll_chat.Decimal.{to_string}
use cpp_epoll_chat.Message.{Message, serialize, parse, put_messages, put_message}
use cpp_epoll_chat.Protocol.{cmd_create_room}
use cpp_epoll_chat.Result.{success}
use cpp_epoll_chat.RoomEvent.{RoomEvent, room_event, resolve_room_id}
use cpp_epoll_chat.RoomManager.Routing.{draw_second}
use cpp_epoll_chat.Base.Map.{find}
use cpp_epoll_chat.Tests.Client.{two_messages, two_messages-Fits}
use cpp_epoll_chat.Tests.Fixtures.{world, chat_room}
use cpp_epoll_chat.World.{World, RoomWorker, WorkerType, DbJob, create_room, db_create_room}

-- A database that answers with the messages, and shows the id of the first one for a new room's. Its
-- connection is the count of statements that it took; the first one fails, and the connection with it.
abbrev field : ℕ → Message → List ℕ
field zero m = to_string m.id
field (suc zero) m = to_string m.sender_id
field (suc (suc zero)) m = to_string m.created_epoch
field (suc (suc (suc zero))) m = m.sender_nick
field _ m = m.content

abbrev number : Column → Option ℕ
number id_column = some 0
number room_id_column = some 0
number sender_id_column = some 1
number created_epoch_column = some 2
number sender_nick_column = some 3
number content_column = some 4

abbrev value : List Message → ℕ → ℕ → List ℕ
value ms row f = elim (get_elem? ms row) [ none ↦ [] | some m ↦ field f m ]

abbrev answers : List Message → ℕ → Option (List Message)
answers ms zero = none
answers ms (suc n) = some ms

abbrev pub pq : Libpq
pq = record {
  Conn = ℕ;
  Res = List Message;
  is_null = λ c. false;
  connected = λ c. true;
  reset = λ c. c;
  exec_params = λ query params c. (answers two_messages c, c + 1);
  result_status = λ r. tuples_ok;
  sqlstate = λ r. none;
  ntuples = length;
  fnumber = λ r col. number col;
  getisnull = λ r row f. false;
  getvalue = value;
}

-- One whose connection is gone for good.
abbrev broken : Libpq
broken = record pq { connected = λ c. false }

shows :
    (row : ℕ) (m : Message)
    → get_elem? two_messages row ≡ some m
    → ShowsMessage pq two_messages row m
shows row m e = record {
  id = (0, refl, refl, rw e refl);
  sender_id = (1, refl, refl, rw e refl);
  created_epoch = (2, refl, refl, rw e refl);
  sender_nick = (3, refl, refl, rw e refl);
  content = (4, refl, refl, rw e refl);
}

parse-to_messages_example :
    parse (serialize (to_messages pq (some two_messages))) ≡ some two_messages
unfolding serialize put_messages put_message put put_str le_bytes
parse-to_messages_example =
    parse-to_messages pq two_messages two_messages two_messages-Fits (omega arith) (omega arith)
      refl (shows 0 _ refl, (shows 1 _ refl, tt))

abbrev pub no_bytes : Option (List Message) → List ℕ
no_bytes r = []

abbrev waiting_event : RoomEvent
waiting_event = room_event cmd_create_room

-- Two workers for rooms, of which the second one has none yet.
abbrev with_room : RoomWorker
with_room = record {
  worker_id = 2;
  type = WorkerType.room;
  rooms = (5, chat_room) ∷ [];
  event_queue = [];
}

abbrev without_rooms : RoomWorker
without_rooms = record { worker_id = 3; type = WorkerType.room; rooms = []; event_queue = [] }

abbrev two_workers : World
two_workers = record world {
  workers = (2, with_room) ∷ (3, without_rooms) ∷ [];
  room_worker_num = 3;
}

process_job-GoesOn_example :
    let job : DbJob = record {
      type = create_room;
      params = [];
      on_result = db_create_room waiting_event;
    } in
    let e' : RoomEvent =
      record (resolve_room_id 42 (record waiting_event { result_code = success })) {
        response_data = le_bytes 8 42;
      } in
    GoesOn e' 42
      (2, with_room)
      (3, without_rooms)
      two_workers
      (process_job pq no_bytes job 1 2 (2 ∷ 3 ∷ []) two_workers).0
unfolding exec exec_once ok draw_second find
process_job-GoesOn_example =
    process_job-GoesOn pq no_bytes waiting_event [] 1 2 3 (2 ∷ 3 ∷ []) with_room without_rooms
      two_workers two_messages 1 42 refl refl refl (0, refl, refl, refl) (omega arith) refl
      (omega arith) (omega arith) refl refl refl

sent-exec_example :
    let first = exec_once pq insert_room [] 0 in
    let again = not (ok pq first.0) && (not (is_alive pq first.1) && (reconnect pq first.1).0) in
    (exec pq insert_room [] 0).1 ≡ 0 + (if again then 2 else 1)
sent-exec_example = sent-exec pq (λ c. c) (λ query params c. refl) (λ c. refl) insert_room [] 0

abbrev one_waits : World
one_waits = record world {
  job_queue =
      record { type = create_room; params = []; on_result = db_create_room waiting_event } ∷ [];
}

abbrev rounds : List (ℕ × List ℕ)
rounds = (2, 2 ∷ []) ∷ (2, 2 ∷ []) ∷ (2, 2 ∷ []) ∷ (2, 2 ∷ []) ∷ []

stop-refuse_all_example :
    (stop pq no_bytes at_test 1 rounds 2 [] one_waits
      ≡ some (refuse_all one_waits.job_queue (record one_waits { job_queue = [] })))
    × (stop pq no_bytes behind_test 1 rounds 2 [] one_waits
        ≡ (run_jobs pq no_bytes 1 rounds one_waits).0)
    × ((refuse_all one_waits.job_queue (record one_waits { job_queue = [] })).job_queue ≡ [])
    × Empties (run_jobs pq no_bytes 1 rounds one_waits).0
unfolding room_event
stop-refuse_all_example = stop-refuse_all pq no_bytes 1 rounds 2 [] one_waits (omega arith)
