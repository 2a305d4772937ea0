-- ===== src/Db/Created.antt =====
-- What becomes of the event that waits for a new room: which worker gets the room and the event
-- (`bind_room_worker` in server/src/room/RoomManager.cpp, for server/src/db/DBWorker.cpp).
use cpp_epoll_chat.Base.{
  ℕ, suc, ◌^◌, ◌<◌, ◌≤◌, ◌≡◌, ◌⊎◌, refl, ap, List, [], ◌∷◌, ◌++◌, length, ltb, ltb→lt, ltb→le,
  false, none, some, Option, ◌==◌, ==_refl, arith, Bool-cases, inl, inr,
}
use cpp_epoll_chat.Base.Bytes.{le_bytes}
use cpp_epoll_chat.Base.Map.{find, emplace, assign, find-emplace, find-assign}
use cpp_epoll_chat.Db.{Libpq, room_id_column, insert_room, tuples_ok, exec, process_job}
use cpp_epoll_chat.Db.Answers.{Shows, process_job-create_room}
use cpp_epoll_chat.Decimal.{to_string}
use cpp_epoll_chat.Result.{success}
use cpp_epoll_chat.RoomEvent.{RoomEvent, resolve_room_id}
use cpp_epoll_chat.RoomManager.Routing.{
  find_worker, route_event, draw_second, bind_to, bind_room_worker,
}
use cpp_epoll_chat.RoomWorker.Process.{routes_bound, queue_of}
use cpp_epoll_chat.World.{World, RoomWorker, DbJob, create_room, db_create_room, post_event}

-- The event behind all others in the worker's queue, and the room routed to the worker.
abbrev handed : RoomEvent → ℕ → ℕ × RoomWorker → World → World
handed e room_id (k, x) w = record w {
  workers = assign k (record x { event_queue = x.event_queue ++ (e ∷ []) }) w.workers;
  room_to_worker = emplace room_id k w.room_to_worker;
}

-- One of the two workers, with no more rooms than either, has got the event and the room; the world has
-- not changed otherwise.
pub record GoesOn (e : RoomEvent) (room_id : ℕ) (a b : ℕ × RoomWorker) (w : World)
    (answer : Option World) : Type 0 where
  pub worker : ℕ × RoomWorker
  pub drawn : (worker ≡ a) ⊎ (worker ≡ b)
  pub fewest :
      (length worker.1.rooms ≤ length a.1.rooms) × (length worker.1.rooms ≤ length b.1.rooms)
  pub answered : answer ≡ some (handed e room_id worker w)
  pub queued : queue_of worker.0 (handed e room_id worker w) ≡ worker.1.event_queue ++ (e ∷ [])
  pub routed : find_worker room_id (handed e room_id worker w) ≡ worker.0

queue_of-handed :
    (e : RoomEvent) (room_id k : ℕ) (x : RoomWorker) (w : World)
    → find k w.workers ≡ some x
    → queue_of k (handed e room_id (k, x) w) ≡ x.event_queue ++ (e ∷ [])
unfolding queue_of
queue_of-handed e room_id k x w q =
    rw
      (
        queue_of,
        find-assign k k (record x { event_queue = x.event_queue ++ (e ∷ []) }) w.workers,
        ==_refl k,
        q,
      )
      refl

find_worker-handed :
    (e : RoomEvent) (room_id k : ℕ) (x : RoomWorker) (w : World)
    → find room_id w.room_to_worker ≡ none
    → find_worker room_id (handed e room_id (k, x) w) ≡ k
unfolding find_worker
find_worker-handed e room_id k x w q =
    rw (find_worker, find-emplace room_id room_id k w.room_to_worker, ==_refl room_id, q) refl

route_event-handed :
    (e : RoomEvent) (room_id k : ℕ) (x : RoomWorker) (w : World)
    → 0 < k
    → find k w.workers ≡ some x
    → (route_event e k (record w { room_to_worker = emplace room_id k w.room_to_worker })).1
      ≡ handed e room_id (k, x) w
unfolding route_event post_event
route_event-handed e room_id k x w pos q =
    let there : (k == 0) ≡ false = ground arith in
    rw (there, route_event) (rw (there, q, post_event) refl)

bind_to-GoesOn :
    (e : RoomEvent) (room_id first second : ℕ) (x y : RoomWorker) (w : World)
    → 0 < first
    → 0 < second
    → find first w.workers ≡ some x
    → find second w.workers ≡ some y
    → find room_id w.room_to_worker ≡ none
    → GoesOn e room_id (first, x) (second, y) w (routes_bound e w (bind_to room_id first second w))
unfolding bind_to
bind_to-GoesOn e room_id first second x y w i j p q new =
    elim (Bool-cases (ltb (length x.rooms) (length y.rooms))) [
      | inl less ↦
          rw (p, bind_to)
            (rw (q, less)
              (record {
                worker = (first, x);
                drawn = inl refl;
                fewest = let h = ltb→lt _ _ less in (omega arith, omega arith);
                answered = ap some (route_event-handed e room_id first x w i p);
                queued = queue_of-handed e room_id first x w p;
                routed = find_worker-handed e room_id first x w new;
              }))
      | inr more ↦
          rw (p, bind_to)
            (rw (q, more)
              (record {
                worker = (second, y);
                drawn = inr refl;
                fewest = let h = ltb→le _ _ more in (omega arith, omega arith);
                answered = ap some (route_event-handed e room_id second y w j q);
                queued = queue_of-handed e room_id second y w q;
                routed = find_worker-handed e room_id second y w new;
              }))
    ]

module _ (pq : Libpq) (account_serialize : Option (pq.Res) → List ℕ) where
  open pq use {Conn, Res}

  -- The database makes a room with a new id, which its row shows. The event that waits goes on with that
  -- room and the id as data for the client: of the two workers that are drawn, one that has no more rooms
  -- than the other has it behind all others in its queue, the room is routed to it, and nothing else has
  -- changed.
  pub process_job-GoesOn :
      (e : RoomEvent) (params : List (List ℕ)) (conn : Conn) (first second : ℕ) (draws : List ℕ)
      (x y : RoomWorker) (w : World) (res : Res) (n v : ℕ)
      → (exec pq insert_room params conn).0 ≡ some res
      → pq.result_status res ≡ tuples_ok
      → pq.ntuples res ≡ suc n
      → Shows pq res 0 room_id_column (to_string v)
      → v < 2 ^ 64
      → draw_second w.room_worker_num first draws ≡ some second
      → 0 < first
      → 0 < second
      → find first w.workers ≡ some x
      → find second w.workers ≡ some y
      → find v w.room_to_worker ≡ none
      → let job : DbJob = record {
        type = create_room;
        params = params;
        on_result = db_create_room e;
      } in
        GoesOn
          (record (resolve_room_id v (record e { result_code = success })) {
            response_data = le_bytes 8 v;
          })
          v
          (first, x)
          (second, y)
          w
          (process_job pq account_serialize job conn first draws w).0
  unfolding bind_room_worker
  process_job-GoesOn e params conn first second draws x y w res n v got good count h small drawn i j
        p q new =
      rw
        (
          process_job-create_room pq account_serialize e params conn first draws w res n v got good
              count h small,
          drawn,
          bind_room_worker,
        )
        (bind_to-GoesOn _ v first second x y w i j p q new)
