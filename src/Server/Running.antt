-- ===== src/Server/Running.antt =====
-- The server in motion: what the main thread does with what `epoll_wait` reports (`Server::run` in
-- server/src/server/Server.cpp), between the steps of the other threads.
use cpp_epoll_chat.Base.{
  ℕ, zero, suc, ◌≡◌, subst, List, [], ◌∷◌, length, Bool, true, false, some, ◌==◌, if◌then◌else◌,
  Bool-cases, Option-cases, inl, inr,
}
use cpp_epoll_chat.Room.{SessionRef}
use cpp_epoll_chat.RoomEvent.{MainEvent, disconnect, enable_epoll_out, disable_epoll_out}
use cpp_epoll_chat.RoomManager.Dispatch.{dispatch_packet}
use cpp_epoll_chat.RoomWorker.WellFormed.{IsWellFormed}
use cpp_epoll_chat.Epoll
use cpp_epoll_chat.Epoll.{Kernel}
use cpp_epoll_chat.Server.{
  Server, Ready, goes_on, with_world, requests_loop, handle_packets, close_session, handle_event,
  events_loop, handle_events, handle_request, handle_epollout, handle_ready, enable_epollout,
  disable_epollout,
}
use cpp_epoll_chat.Server.Matched.{IsValid, user_of}
use cpp_epoll_chat.Server.Closing.{close_session-IsValid}
use cpp_epoll_chat.Server.Start.{new_world, new_server, new_server-IsValid}
use cpp_epoll_chat.Protocol.{Command}
use cpp_epoll_chat.Session.{Session, extract_packet, on_readable}
use cpp_epoll_chat.Session.Framing.{empty_packet}
use cpp_epoll_chat.SessionManager.{get_session}
use cpp_epoll_chat.System
use cpp_epoll_chat.System.{
  Step-IsWellFormed, dispatch_packet-IsWellFormed, request_flush-IsWellFormed,
}
use cpp_epoll_chat.User.{User, get_user}
use cpp_epoll_chat.World.{World, update}
use cpp_epoll_chat.Server.Admitting.{
  Ends, IsFresh, with_world-IsValid, or_throws-Ends, bind-Ends, accept_client-Ends,
}

requests_loop-IsWellFormed :
    {ids : List (ℕ × ℕ)} (fuel : ℕ) (ref : SessionRef) (w : World)
    → IsWellFormed ids w
    → IsWellFormed ids (requests_loop fuel ref w)
unfolding requests_loop
requests_loop-IsWellFormed zero ref w h = h
requests_loop-IsWellFormed {ids = ids} (suc fuel) ref w h =
    let r = extract_packet (w.heap ref.address) empty_packet in
    let w' : World = record w { heap = update w.heap ref.address r.2 } in
    let h' : IsWellFormed ids w' = record { rooms = h.rooms; users = h.users; keys = h.keys } in
    elim (Bool-cases r.0) [
      | inl yes' ↦
          rw (requests_loop, yes')
            (requests_loop-IsWellFormed fuel ref (dispatch_packet r.1 ref w')
              (dispatch_packet-IsWellFormed r.1 ref w' h'))
      | inr no' ↦ rw (requests_loop, no') h'
    ]

module _ (kernel : Kernel) where
  open kernel use {Interest}

  pub handle_event-Ends :
      (e : MainEvent) (s : Server Interest) → IsValid s → Ends IsValid (handle_event kernel e s)
  unfolding handle_event enable_epollout disable_epollout
  handle_event-Ends e s v =
      elim e.type as (λ t. Ends IsValid (handle_event kernel (record e { type = t }) s)) [
        | disconnect ↦ close_session-IsValid kernel e.fd s v
        | enable_epoll_out ↦ or_throws-Ends (Epoll.enable_epoll_out kernel e.fd s.interest) s v
        | disable_epoll_out ↦ or_throws-Ends (Epoll.disable_epoll_out kernel e.fd s.interest) s v
      ]

  events_loop-Ends :
      (events : List MainEvent) (s : Server Interest)
      → IsValid s
      → Ends IsValid (events_loop kernel events s)
  unfolding events_loop
  events_loop-Ends [] s v = v
  events_loop-Ends (e ∷ rest) s v =
      let w : World = record (s.world) { main_events = rest } in
      bind-Ends (handle_event kernel e (with_world w s)) (events_loop kernel rest)
        (handle_event-Ends e _ (
          with_world-IsValid s w v
            (record { rooms = v.world.rooms; users = v.world.users; keys = v.world.keys })))
        (events_loop-Ends rest)

  pub handle_request-IsValid :
      (fd : ℕ) (s : Server Interest) → IsValid s → IsValid (handle_request kernel fd s)
  unfolding handle_request handle_packets
  handle_request-IsValid fd s v = elim (Option-cases (get_session fd s.session_manager)) [
    | inl q ↦ rw (q, handle_request) (close_session-IsValid kernel fd s v)
    | inr (ref, q) ↦
        let r = on_readable (s.world.heap ref.address) in
        let w : World = record (s.world) { heap = update s.world.heap ref.address r.1 } in
        let h : IsWellFormed v.ids w = record {
          rooms = v.world.rooms;
          users = v.world.users;
          keys = v.world.keys;
        } in
        elim (Bool-cases r.0) [
          | inl yes' ↦
              rw (q, handle_request)
                (rw yes' (
                  with_world-IsValid s _ v (
                    requests_loop-IsWellFormed
                      (suc (length (update s.world.heap ref.address r.1 ref.address).recv_buffer))
                      ref w h)))
          | inr no' ↦
              rw (q, handle_request)
                (rw no' (close_session-IsValid kernel fd _ (with_world-IsValid s w v h)))
        ]
  ]

  pub handle_epollout-IsValid :
      (fd : ℕ) (s : Server Interest) → IsValid s → IsValid (handle_epollout kernel fd s)
  unfolding handle_epollout
  handle_epollout-IsValid fd s v = elim (Option-cases (get_session fd s.session_manager)) [
    | inl q ↦ rw (q, handle_epollout) (close_session-IsValid kernel fd s v)
    | inr (ref, q) ↦
        rw (q, handle_epollout)
          (with_world-IsValid s _ v (request_flush-IsWellFormed s.garbage ref s.world v.world))
  ]

  pub if-IsValid :
      (b : Bool) (f : Server Interest → Server Interest) (s : Server Interest)
      → ((s : Server Interest) → IsValid s → IsValid (f s))
      → IsValid s
      → IsValid (if b then f s else s)
  if-IsValid true f s step v = step s v
  if-IsValid false f s step v = v

  -- Whatever `epoll_wait` reports, what the main thread does about it keeps a server valid, also where an
  -- exception leaves it.
  pub handle_ready-Ends :
      (r : Ready) (s : Server Interest)
      → IsValid s
      → IsFresh r.accepts s
      → Ends IsValid (handle_ready kernel r s)
  unfolding handle_ready handle_events
  handle_ready-Ends r s v f =
      let s1 = if r.readable then handle_request kernel r.fd s else s in
      let s2 = if r.writable then handle_epollout kernel r.fd s1 else s1 in
      let v1 =
        if-IsValid r.readable (handle_request kernel r.fd) s (handle_request-IsValid r.fd) v in
      let v2 =
        if-IsValid r.writable (handle_epollout kernel r.fd) s1 (handle_epollout-IsValid r.fd) v1 in
      let v3 =
        if-IsValid r.hung_up (close_session kernel r.fd) s2 (close_session-IsValid kernel r.fd)
          v2 in
      elim (Bool-cases (r.fd == s.listener)) [
        | inl q ↦ rw (q, handle_ready) (accept_client-Ends kernel r.accepts s v f)
        | inr q ↦ elim (Bool-cases (r.fd == s.eventfd)) [
          | inl z ↦ rw (q, handle_ready) (rw z (events_loop-Ends s.world.main_events s v))
          | inr z ↦ rw (q, handle_ready) (rw z v3)
        ]
      ]

  -- The main thread takes a report, or a step of System is taken between two reports.
  pub data Move : Server Interest → Server Interest → Type 0 where
    reports :
        (r : Ready) (s s' : Server Interest)
        → IsFresh r.accepts s
        → handle_ready kernel r s ≡ goes_on s'
        → Move s s'
    works : (s : Server Interest) (w : World) → System.Step s.world w → Move s (with_world w s)

  pub data Runs : Server Interest → Server Interest → Type 0 where
    rests : (s : Server Interest) → Runs s s
    moves : {s t u : Server Interest} → Move s t → Runs t u → Runs s u

  pub Move-IsValid : {s t : Server Interest} → Move s t → IsValid s → IsValid t
  Move-IsValid (reports r s s' f e) v = subst (Ends IsValid) e (handle_ready-Ends r s v f)
  Move-IsValid (works s w step) v = with_world-IsValid s w v (Step-IsWellFormed step v.world)

  -- A valid server stays valid through any reports of epoll_wait and any steps of the other threads
  -- between them, with any answers of the kernel, the database and the random draws: the same
  -- descriptors have sessions and users, no user's id is above the count of users, the two user
  -- maps agree, and every room of every worker holds no session twice and no more than its limit,
  -- with its counter between the two. Every accept4 brings a descriptor that no session has, the
  -- count of users does not wrap, and no exception leaves run.
  pub Runs-IsValid : {s t : Server Interest} → Runs s t → IsValid s → IsValid t
  Runs-IsValid (rests s) v = v
  Runs-IsValid (moves m rest) v = Runs-IsValid rest (Move-IsValid m v)

-- However a server that was just set up has run, each of its sessions has a user: `close_session` does
-- not read through a null pointer. Every `accept4` brings a descriptor that no session has, and the
-- count of users does not wrap.
pub session_has_user :
    (kernel : Kernel) (room_worker_num : ℕ) (heap : ℕ → Session) (padding : ℕ)
    (interest : kernel.Interest) (listener eventfd : ℕ) (garbage : Command)
    (s : Server (kernel.Interest)) (fd : ℕ) (ref : SessionRef)
    → Runs kernel
        (new_server (new_world room_worker_num heap padding) interest listener eventfd garbage)
        s
    → get_session fd s.session_manager ≡ some ref
    → (u : User) × (get_user fd s.world.users ≡ some u) × (u.fd ≡ fd)
session_has_user kernel room_worker_num heap padding interest listener eventfd garbage s fd ref runs
      found =
    let start = new_server-IsValid room_worker_num heap padding interest listener eventfd garbage in
    let (u, got, same, _) = user_of fd s ref (Runs-IsValid kernel runs start) found in
    (u, got, same)
