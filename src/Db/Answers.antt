-- ===== src/Db/Answers.antt =====
-- What the rows of the database become on their way (server/src/db/MessageRepository.h,
-- server/src/db/RoomRepository.h and server/src/db/DBWorker.cpp).
use cpp_epoll_chat.Base.{
  ℕ, suc, ◌+◌, ◌^◌, ◌<◌, ◌≡◌, refl, sym, ap, ◌∙◌, List, [], ◌∷◌, append-nil, length, false, Option,
  some, ◌==◌, arith, All,
}
use cpp_epoll_chat.Base.Bytes.{le_bytes, length-le_bytes}
use cpp_epoll_chat.Codec.{Reader, put, reader, take_int, take_bytes}
use cpp_epoll_chat.Codec.Reading.{reader-At, take_int_ahead}
use cpp_epoll_chat.Db.{
  Libpq, Column, id_column, sender_id_column, created_epoch_column, sender_nick_column,
  content_column, room_id_column, insert_room, tuples_ok, ok, exec, status_of, query_of,
  process_job, rows, get_string, get_int64, messages_from, to_messages, room_serialize,
}
use cpp_epoll_chat.Decimal.{to_string}
use cpp_epoll_chat.Decimal.RoundTrip.{read_int64-to_string}
use cpp_epoll_chat.Result.{success, db_error}
use cpp_epoll_chat.RoomEvent.{RoomEvent, resolve_room_id}
use cpp_epoll_chat.RoomManager.Routing.{route_event, lobby_worker_id, bind_room_worker}
use cpp_epoll_chat.RoomWorker.Process.{routes_bound, db_create_room_on_result}
use cpp_epoll_chat.World.{World, DbJob, DbStatus, create_room, db_create_room}
use cpp_epoll_chat.Message.{Message, serialize, parse}
use cpp_epoll_chat.Message.RoundTrip.{Fits, parse-serialize}

module _ (pq : Libpq) where
  open pq use {Res}

  -- A row shows a number, or a text, in a column.
  abbrev pub Shows : Res → ℕ → Column → List ℕ → Type 0
  Shows res row col text =
      (f : ℕ) × (pq.fnumber res col ≡ some f)
      × (pq.getisnull res row f ≡ false)
      × (pq.getvalue res row f ≡ text)

  pub get_string-Shows :
      (res : Res) (row : ℕ) (col : Column) (text : List ℕ)
      → Shows res row col text
      → get_string pq row col (some res) ≡ text
  unfolding get_string
  get_string-Shows res row col text (f, number, value, e) =
      rw (number, get_string) (rw (value, e) refl)

  pub get_int64-Shows :
      (res : Res) (row : ℕ) (col : Column) (v : ℕ)
      → v < 2 ^ 64
      → Shows res row col (to_string v)
      → get_int64 pq row col (some res) ≡ v
  unfolding get_int64
  get_int64-Shows res row col v small h =
      rw (get_int64, get_string-Shows res row col (to_string v) h, read_int64-to_string v small)
        refl

  -- A row of the query for messages.
  pub record ShowsMessage (res : Res) (row : ℕ) (m : Message) : Type 0 where
    pub id : Shows res row id_column (to_string m.id)
    pub sender_id : Shows res row sender_id_column (to_string m.sender_id)
    pub created_epoch : Shows res row created_epoch_column (to_string m.created_epoch)
    pub sender_nick : Shows res row sender_nick_column m.sender_nick
    pub content : Shows res row content_column m.content

  abbrev pub ShowsFrom : Res → ℕ → List Message → Type 0
  ShowsFrom res i [] = Unit {0}
  ShowsFrom res i (m ∷ ms) = ShowsMessage res i m × ShowsFrom res (i + 1) ms

  messages_from-Shows :
      (res : Res) (i : ℕ) (ms : List Message)
      → All Fits ms
      → ShowsFrom res i ms
      → messages_from pq (length ms) i (some res) ≡ ms
  unfolding messages_from
  messages_from-Shows res i [] fits h = refl
  messages_from-Shows res i (m ∷ ms) fits h =
      rw
        (
          get_int64-Shows res i id_column m.id fits.0.id h.0.id,
          get_int64-Shows res i sender_id_column m.sender_id fits.0.sender_id h.0.sender_id,
          get_int64-Shows res i created_epoch_column m.created_epoch fits.0.created_epoch
              h.0.created_epoch,
          get_string-Shows res i sender_nick_column m.sender_nick h.0.sender_nick,
          get_string-Shows res i content_column m.content h.0.content,
          messages_from-Shows res (i + 1) ms fits.1 h.1,
        )
        refl

  pub to_messages-Shows :
      (res : Res) (ms : List Message)
      → All Fits ms
      → pq.ntuples res ≡ length ms
      → ShowsFrom res 0 ms
      → to_messages pq (some res) ≡ ms
  unfolding to_messages rows
  to_messages-Shows res ms fits count h =
      rw (to_messages, rows, count) (messages_from-Shows res 0 ms fits h)

  -- From the rows of the database to the client: if the result shows each message in its row, with
  -- numbers in decimal, the client parses these messages from what the database thread serializes.
  -- The fields fit the wire and the bytes a buffer.
  pub parse-to_messages :
      (res : Res) (ms : List Message)
      → All Fits ms
      → length ms < 2 ^ 32
      → length (serialize ms) < 2 ^ 63
      → pq.ntuples res ≡ length ms
      → ShowsFrom res 0 ms
      → parse (serialize (to_messages pq (some res))) ≡ some ms
  parse-to_messages res ms fits few small count h = rw (to_messages-Shows res ms fits count h) (
      ap parse (sym (append-nil (serialize ms)))
      ∙ parse-serialize ms [] few fits (rw (append-nil (serialize ms)) small))

  -- A room id, written and read back.
  take_int-room_serialize :
      (res : Res) (n v : ℕ)
      → v < 2 ^ 64
      → pq.ntuples res ≡ suc n
      → Shows res 0 room_id_column (to_string v)
      → (room_serialize pq (some res) ≡ le_bytes 8 v)
        × ((r : Reader) × (take_int 8 (reader (le_bytes 8 v)) ≡ some (v, r)))
  unfolding room_serialize rows put
  take_int-room_serialize res n v small count h =
      let a = reader-At (le_bytes 8 v) (omega (arith, length-le_bytes 8 v)) in
      let (r, e, _) =
        take_int_ahead 8 v [] [] (reader (le_bytes 8 v)) (omega arith)
          (rw (append-nil (le_bytes 8 v)) a) in
      let some_row : (pq.ntuples res == 0) ≡ false = ground arith in
      (
        rw (room_serialize, rows, some_row, get_int64-Shows res 0 room_id_column v small h) refl,
        (r, e),
      )

  status_of-create_room :
      (res : Res)
      → pq.result_status res ≡ tuples_ok
      → status_of pq create_room (some res) ≡ DbStatus.success
  unfolding status_of ok
  status_of-create_room res good = rw (status_of, ok, good) refl

  on_result-success :
      (e : RoomEvent) (first : ℕ) (draws : List ℕ) (w : World) (v : ℕ) (r : Reader)
      → take_int 8 (reader (le_bytes 8 v)) ≡ some (v, r)
      → db_create_room_on_result e DbStatus.success (le_bytes 8 v) first draws w
        ≡ routes_bound
            (record (resolve_room_id v (record e { result_code = success })) {
              response_data = le_bytes 8 v;
            })
            w
            (bind_room_worker v first draws w)
  unfolding db_create_room_on_result resolve_room_id
  on_result-success e first draws w v r read = rw (db_create_room_on_result, read) refl

  module _ (account_serialize : Option (pq.Res) → List ℕ) where
    open pq use {Conn}

    -- The database makes a room: with the id that its row shows, the worker that the draws choose gets the
    -- waiting event, which goes on with that room, and whose client is to be sent the id.
    pub process_job-create_room :
        (e : RoomEvent) (params : List (List ℕ)) (conn : Conn) (first : ℕ) (draws : List ℕ)
        (w : World) (res : Res) (n v : ℕ)
        → (exec pq insert_room params conn).0 ≡ some res
        → pq.result_status res ≡ tuples_ok
        → pq.ntuples res ≡ suc n
        → Shows res 0 room_id_column (to_string v)
        → v < 2 ^ 64
        → let job : DbJob = record {
          type = create_room;
          params = params;
          on_result = db_create_room e;
        } in
          let e' : RoomEvent = record (resolve_room_id v (record e { result_code = success })) {
            response_data = le_bytes 8 v;
          } in
          (process_job pq account_serialize job conn first draws w).0
          ≡ routes_bound e' w (bind_room_worker v first draws w)
    unfolding process_job query_of
    process_job-create_room e params conn first draws w res n v got good count h small =
        let (bytes, (r, read)) = take_int-room_serialize res n v small count h in
        rw (got, bytes, status_of-create_room res good) (on_result-success e first draws w v r read)

    -- Where the database answers no row, the lobby's worker gets the waiting event with an error.
    pub process_job-no_room :
        (e : RoomEvent) (params : List (List ℕ)) (conn : Conn) (first : ℕ) (draws : List ℕ)
        (w : World)
        → rows pq (exec pq insert_room params conn).0 ≡ 0
        → let job : DbJob = record {
          type = create_room;
          params = params;
          on_result = db_create_room e;
        } in
          (process_job pq account_serialize job conn first draws w).0
          ≡ some (route_event (record e { result_code = db_error }) lobby_worker_id w).1
    unfolding process_job query_of room_serialize db_create_room_on_result take_int take_bytes
        reader
    process_job-no_room e params conn first draws w none' =
        rw (none', db_create_room_on_result) refl
