-- ===== src/Db.antt =====
-- server/src/db: the database thread. libpq is a parameter: a connection, its results, and the calls that
-- the source makes of them. `db::account::serialize` has no body in the repository, and is one too.
-- The texts of the statements and the names of the columns stand as the names of the source.
pub mod Answers
pub mod Created
pub mod Stopping
pub mod Retrying
pub mod Holder
pub mod Thread
use cpp_epoll_chat.Base.{
  ℕ, zero, suc, ◌+◌, List, [], ◌∷◌, ◌++◌, map, Bool, true, false, Option, none, some, not, ◌&&◌,
  ◌||◌, ◌==◌, if◌then◌else◌,
}
use cpp_epoll_chat.Codec.{put}
use cpp_epoll_chat.Decimal.{read_int64, to_string}
use cpp_epoll_chat.Message.{Message, serialize}
use cpp_epoll_chat.RoomWorker.Process.{db_create_room_on_result, db_load_messages_on_result}
use cpp_epoll_chat.World.{
  World, DbJob, DbJobType, save_message, load_history, create_room, find_account, create_account,
  DbStatus, OnResult, no_callback, db_create_room, db_load_messages,
}

pub data Query : Type 0 where
  insert_message select_recent insert_room insert_account find_by_login_id : Query

pub data Column : Type 0 where
  id_column sender_id_column created_epoch_column sender_nick_column content_column room_id_column :
      Column

pub data ExecStatus : Type 0 where
  tuples_ok command_ok failed : ExecStatus

-- `exec_params` answers no result where it returns a null pointer, `fnumber` no number where it returns
-- -1, and `sqlstate` no text where the field is a null pointer.
pub record Libpq : Type 1 where
  pub Conn : Type 0
  pub Res : Type 0
  pub is_null : Conn → Bool
  pub connected : Conn → Bool
  pub reset : Conn → Conn
  pub exec_params : Query → List (List ℕ) → Conn → Option Res × Conn
  pub result_status : Res → ExecStatus
  pub sqlstate : Res → Option (List ℕ)
  pub ntuples : Res → ℕ
  pub fnumber : Res → Column → Option ℕ
  pub getisnull : Res → ℕ → ℕ → Bool
  pub getvalue : Res → ℕ → ℕ → List ℕ

-- The text that a C string holds: it ends at the first zero byte.
unfoldable pub c_str : List ℕ → List ℕ
c_str [] = []
c_str (c ∷ s) = if c == 0 then [] else c ∷ c_str s

abbrev pub same_text : List ℕ → List ℕ → Bool
same_text [] [] = true
same_text (c ∷ s) (d ∷ t) = (c == d) && same_text s t
same_text _ _ = false

-- "23505".
abbrev pub unique_violation : List ℕ
unique_violation = b'2' ∷ b'3' ∷ b'5' ∷ b'0' ∷ b'5' ∷ []

module _ (pq : Libpq) where
  open pq use {Conn, Res}

  -- The pointer in a `DBResult`, which may be null.
  abbrev pub DbResult : Type 0
  DbResult = Option Res

  abbrev pub is_ok_status : ExecStatus → Bool
  is_ok_status tuples_ok = true
  is_ok_status command_ok = true
  is_ok_status failed = false

  unfoldable pub ok : DbResult → Bool
  ok none = false
  ok (some res) = is_ok_status (pq.result_status res)

  unfoldable pub sqlstate : DbResult → List ℕ
  sqlstate none = []
  sqlstate (some res) = elim (pq.sqlstate res) [ none ↦ [] | some s ↦ s ]

  unfoldable pub rows : DbResult → ℕ
  rows none = 0
  rows (some res) = pq.ntuples res

  unfoldable pub get_string : ℕ → Column → DbResult → List ℕ
  get_string row col none = []
  get_string row col (some res) = elim (pq.fnumber res col) [
    | none ↦ []
    | some f ↦ if pq.getisnull res row f then [] else pq.getvalue res row f
  ]

  -- An empty text is no number either.
  unfoldable pub get_int64 : ℕ → Column → DbResult → ℕ
  unfolding get_string
  get_int64 row col res = elim (read_int64 (get_string row col res)) [ none ↦ 0 | some v ↦ v ]

  unfoldable pub exec_once : Query → List (List ℕ) → Conn → DbResult × Conn
  unfolding c_str
  exec_once query params conn = pq.exec_params query (map c_str params) conn

  unfoldable pub is_alive : Conn → Bool
  is_alive conn = not (pq.is_null conn) && pq.connected conn

  unfoldable pub reconnect : Conn → Bool × Conn
  reconnect conn =
      let conn' = pq.reset conn in
      if pq.is_null conn then (false, conn) else (pq.connected conn', conn')

  unfoldable pub exec : Query → List (List ℕ) → Conn → DbResult × Conn
  unfolding ok exec_once is_alive reconnect
  exec query params conn =
      let r = exec_once query params conn in
      let again = reconnect r.1 in
      if not (ok r.0) && not (is_alive r.1)
      then (if again.0 then exec_once query params again.1 else (r.0, again.1))
      else r

  -- The loop of `to_messages`, from row `i` on.
  unfoldable pub messages_from : ℕ → ℕ → DbResult → List Message
  unfolding get_int64 get_string
  messages_from zero i res = []
  messages_from (suc left) i res =
      let m : Message = record {
        id = get_int64 i id_column res;
        sender_id = get_int64 i sender_id_column res;
        created_epoch = get_int64 i created_epoch_column res;
        sender_nick = get_string i sender_nick_column res;
        content = get_string i content_column res;
      } in
      m ∷ messages_from left (i + 1) res

  unfoldable pub to_messages : DbResult → List Message
  unfolding messages_from rows
  to_messages res = messages_from (rows res) 0 res

  -- `serialize` of server/src/db/RoomRepository.h.
  unfoldable pub room_serialize : DbResult → List ℕ
  unfolding rows get_int64
  room_serialize res = if rows res == 0 then [] else put [] 8 (get_int64 0 room_id_column res)

  unfoldable pub status_of : DbJobType → DbResult → DbStatus
  unfolding ok sqlstate rows
  status_of type res =
      if not (ok res)
      then (if same_text (sqlstate res) unique_violation
          then DbStatus.duplicate
          else DbStatus.error)
      else elim type [
        | find_account ↦ if rows res == 0 then DbStatus.not_found else DbStatus.success
        | _ ↦ DbStatus.success
      ]

  -- `save` and `load_recent` of server/src/db/MessageRepository.h, `create` and `find` of
  -- server/src/db/AccountRepository.h, and `create` of server/src/db/RoomRepository.h.
  abbrev pub message_save : List (List ℕ) → Conn → DbResult × Conn
  message_save = exec insert_message

  abbrev pub message_load_recent : List (List ℕ) → Conn → DbResult × Conn
  message_load_recent = exec select_recent

  abbrev pub account_create : List (List ℕ) → Conn → DbResult × Conn
  account_create = exec insert_account

  abbrev pub account_find : List (List ℕ) → Conn → DbResult × Conn
  account_find = exec find_by_login_id

  abbrev pub room_create : List (List ℕ) → Conn → DbResult × Conn
  room_create = exec insert_room

  -- What is done for a job: the result, the bytes for its callback, and the connection.
  unfoldable pub query_of : (DbResult → List ℕ) → DbJob → Conn → DbResult × List ℕ × Conn
  unfolding exec to_messages room_serialize
  query_of account_serialize job conn = elim job.type [
    | save_message ↦ let r = message_save job.params conn in (r.0, [], r.1)
    | load_history ↦
        let r = message_load_recent job.params conn in (r.0, serialize (to_messages r.0), r.1)
    | create_account ↦ let r = account_create job.params conn in (r.0, account_serialize r.0, r.1)
    | create_room ↦ let r = room_create job.params conn in (r.0, room_serialize r.0, r.1)
    | find_account ↦ let r = account_find job.params conn in (r.0, account_serialize r.0, r.1)
  ]

-- The callback of a job, with the draws that it may take. `none`: they ran out.
abbrev pub call_back : OnResult → DbStatus → List ℕ → ℕ → List ℕ → World → Option World
call_back no_callback status bytes first draws w = some w
call_back (db_create_room e) status bytes first draws w =
    db_create_room_on_result e status bytes first draws w
call_back (db_load_messages e) status bytes first draws w =
    some (db_load_messages_on_result e status bytes w)

module _ (pq : Libpq) (account_serialize : Option (pq.Res) → List ℕ) where
  unfoldable pub process_job : DbJob → pq.Conn → ℕ → List ℕ → World → Option World × pq.Conn
  unfolding query_of status_of
  process_job job conn first draws w =
      let (res, bytes, conn') = query_of pq account_serialize job conn in
      (call_back job.on_result (status_of pq job.type res) bytes first draws w, conn')

  -- One round of the inner loop of `thread_main`: the job at the front of the queue.
  unfoldable pub take_job : pq.Conn → ℕ → List ℕ → World → Option World × pq.Conn
  unfolding process_job
  take_job conn first draws w = elim w.job_queue [
    | [] ↦ (some w, conn)
    | job ∷ rest ↦ process_job job conn first draws (record w { job_queue = rest })
  ]

abbrev pub then_drain : (World → Option World) → Option World → Option World
then_drain f none = none
then_drain f (some w) = f w

-- The loop at the end of `stop` (Db.Thread): each job that is left is answered with an error.
unfoldable pub drain : List DbJob → ℕ → List ℕ → World → Option World
drain [] first draws w = some w
drain (job ∷ rest) first draws w =
    then_drain (drain rest first draws)
      (call_back job.on_result DbStatus.error [] first draws (record w { job_queue = rest }))
