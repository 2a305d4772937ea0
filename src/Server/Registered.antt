-- ===== src/Server/Registered.antt =====
-- The descriptors of the sessions and the interest list of epoll (server/src/server/Server.cpp): what the
-- main thread does keeps the two together.
use cpp_epoll_chat.Base.{
  ℕ, ◌≡◌, refl, subst, List, [], ◌∷◌, Bool, true, false, Option, none, some, ◌==◌, if◌then◌else◌,
  arith, Bool-cases, Option-cases, inl, inr,
}
use cpp_epoll_chat.Base.Map.{find-erase, find-emplace}
use cpp_epoll_chat.Epoll
use cpp_epoll_chat.Epoll.{Kernel, Lawful, reading}
use cpp_epoll_chat.Room.{SessionRef}
use cpp_epoll_chat.RoomEvent.{MainEvent, disconnect, enable_epoll_out, disable_epoll_out}
use cpp_epoll_chat.Server.{
  Server, Accepted, Ready, Outcome, goes_on, throws, with_world, or_throws, ◌>>=◌, welcome,
  accept_client, close_session, handle_event, events_loop, handle_events, handle_request,
  handle_epollout, handle_ready, enable_epollout, disable_epollout,
}
use cpp_epoll_chat.Server.Admitting.{Ends, with_world-IsValid}
use cpp_epoll_chat.Server.Matched.{IsValid, user_of}
use cpp_epoll_chat.Server.Running.{
  handle_event-Ends, handle_request-IsValid, handle_epollout-IsValid, if-IsValid, Move-IsValid,
  Runs, rests, moves, Move, reports, works,
}
use cpp_epoll_chat.Session.{on_readable}
use cpp_epoll_chat.SessionManager.{get_session, add_session, remove_session}
use cpp_epoll_chat.World.{World, update}

module _ (kernel : Kernel) (lawful : Lawful kernel) where
  open kernel use {Interest}

  -- The kernel watches the descriptor of every session.
  abbrev pub IsWatched : Server Interest → Type 0
  IsWatched s =
      (fd : ℕ) (ref : SessionRef)
      → get_session fd s.session_manager ≡ some ref
      → lawful.watched fd s.interest ≡ true

  close_session-IsWatched :
      (fd : ℕ) (s : Server Interest)
      → IsValid s
      → IsWatched s
      → IsWatched (close_session kernel fd s)
  unfolding close_session remove_session Epoll.remove get_session
  close_session-IsWatched fd s v h = elim (Option-cases (get_session fd s.session_manager)) [
    | inl q ↦ rw (q, close_session) h
    | inr (ref, q) ↦
        let (u, got, _, _) = user_of fd s ref v q in
        rw (q, close_session)
          (rw (got, close_session)
            (λ other ref' there. ground (
              arith,
              find-erase fd other s.session_manager.sessions v.matched.distinct,
              lawful.watched-del fd other s.interest,
              h other ref',
            )))
  ]

  -- A call of `epoll_ctl` that changes the flags.
  or_throws-IsWatched :
      (r : Bool × Interest) (s : Server Interest)
      → IsWatched (record s { interest = r.1 })
      → Ends IsWatched (or_throws r s)
  or_throws-IsWatched (true, i) s h = h
  or_throws-IsWatched (false, i) s h = h

  handle_event-IsWatched :
      (e : MainEvent) (s : Server Interest)
      → IsValid s
      → IsWatched s
      → Ends IsWatched (handle_event kernel e s)
  unfolding handle_event enable_epollout disable_epollout Epoll.enable_epoll_out
      Epoll.disable_epoll_out
  handle_event-IsWatched e s v h =
      elim e.type as (λ t. Ends IsWatched (handle_event kernel (record e { type = t }) s)) [
        | disconnect ↦ close_session-IsWatched e.fd s v h
        | enable_epoll_out ↦
            or_throws-IsWatched (Epoll.enable_epoll_out kernel e.fd s.interest) s
              (λ fd ref q. rw (lawful.watched-mod e.fd fd _ s.interest) (h fd ref q))
        | disable_epoll_out ↦
            or_throws-IsWatched (Epoll.disable_epoll_out kernel e.fd s.interest) s
              (λ fd ref q. rw (lawful.watched-mod e.fd fd _ s.interest) (h fd ref q))
      ]

  welcome-IsWatched :
      (a : Accepted) (s : Server Interest)
      → IsWatched s
      → lawful.watched a.fd s.interest ≡ true
      → IsWatched (welcome kernel a s)
  unfolding welcome add_session get_session
  welcome-IsWatched a s h new fd ref there = ground (
    arith,
    find-emplace a.fd fd (record { address = s.session_manager.allocated; fd = a.fd })
        s.session_manager.sessions,
    h fd ref,
  )

  accept_client-IsWatched :
      (a : Option Accepted) (s : Server Interest)
      → IsWatched s
      → Ends IsWatched (accept_client kernel a s)
  unfolding accept_client Epoll.add
  accept_client-IsWatched none s h = h
  accept_client-IsWatched (some a) s h =
      let r = Epoll.add kernel a.fd reading s.interest in
      then_welcome r
        (λ q fd ref there.
          ground (arith, lawful.watched-add a.fd fd reading s.interest q, h fd ref))
        (λ q. ground (arith, lawful.watched-add a.fd a.fd reading s.interest q))
        (λ q fd ref there.
          rw (lawful.watched-refused a.fd fd reading s.interest q) (h fd ref there))
    where
      then_welcome :
          (r : Bool × Interest)
          → (r.0 ≡ true
              → (fd : ℕ) (ref : SessionRef) → get_session fd s.session_manager ≡ some ref
              → lawful.watched fd r.1 ≡ true)
          → (r.0 ≡ true → lawful.watched a.fd r.1 ≡ true)
          → (r.0 ≡ false → IsWatched (record s { interest = r.1 }))
          → Ends IsWatched (or_throws r s >>= λ s'. goes_on (welcome kernel a s'))
      then_welcome (true, i) old new bad =
          welcome-IsWatched a (record s { interest = i }) (old refl) (new refl)
      then_welcome (false, i) old new bad = bad refl

  bind-IsWatched :
      (o : Outcome Interest) (f : Server Interest → Outcome Interest)
      → Ends IsValid o
      → Ends IsWatched o
      → ((s : Server Interest) → IsValid s → IsWatched s → Ends IsWatched (f s))
      → Ends IsWatched (o >>= f)
  bind-IsWatched (goes_on t) f v h step = step t v h
  bind-IsWatched (throws t) f v h step = h

  events_loop-IsWatched :
      (events : List MainEvent) (s : Server Interest)
      → IsValid s
      → IsWatched s
      → Ends IsWatched (events_loop kernel events s)
  unfolding events_loop
  events_loop-IsWatched [] s v h = h
  events_loop-IsWatched (e ∷ rest) s v h =
      let w : World = record (s.world) { main_events = rest } in
      let v' =
        with_world-IsValid s w v
          (record { rooms = v.world.rooms; users = v.world.users; keys = v.world.keys }) in
      bind-IsWatched (handle_event kernel e (with_world w s)) (events_loop kernel rest)
        (handle_event-Ends kernel e (with_world w s) v')
        (handle_event-IsWatched e (with_world w s) v' h) (events_loop-IsWatched rest)

  handle_request-IsWatched :
      (fd : ℕ) (s : Server Interest)
      → IsValid s
      → IsWatched s
      → IsWatched (handle_request kernel fd s)
  unfolding handle_request
  handle_request-IsWatched fd s v h = elim (Option-cases (get_session fd s.session_manager)) [
    | inl q ↦ rw (q, handle_request) (close_session-IsWatched fd s v h)
    | inr (ref, q) ↦
        let r = on_readable (s.world.heap ref.address) in
        let w : World = record (s.world) { heap = update s.world.heap ref.address r.1 } in
        let v' : IsValid (with_world w s) =
          with_world-IsValid s w v
            (record { rooms = v.world.rooms; users = v.world.users; keys = v.world.keys }) in
        elim (Bool-cases r.0) [
          | inl yes' ↦ rw (q, handle_request) (rw yes' h)
          | inr no' ↦
              rw (q, handle_request) (rw no' (close_session-IsWatched fd (with_world w s) v' h))
        ]
  ]

  handle_epollout-IsWatched :
      (fd : ℕ) (s : Server Interest)
      → IsValid s
      → IsWatched s
      → IsWatched (handle_epollout kernel fd s)
  unfolding handle_epollout
  handle_epollout-IsWatched fd s v h = elim (Option-cases (get_session fd s.session_manager)) [
    | inl q ↦ rw (q, handle_epollout) (close_session-IsWatched fd s v h)
    | inr (ref, q) ↦ rw (q, handle_epollout) h
  ]

  if-IsWatched :
      (b : Bool) (f : Server Interest → Server Interest) (s : Server Interest)
      → ((s : Server Interest) → IsValid s → IsWatched s → IsWatched (f s))
      → IsValid s
      → IsWatched s
      → IsWatched (if b then f s else s)
  if-IsWatched true f s step v h = step s v h
  if-IsWatched false f s step v h = h

  handle_ready-IsWatched :
      (r : Ready) (s : Server Interest)
      → IsValid s
      → IsWatched s
      → Ends IsWatched (handle_ready kernel r s)
  unfolding handle_ready handle_events
  handle_ready-IsWatched r s v h =
      let s1 = if r.readable then handle_request kernel r.fd s else s in
      let s2 = if r.writable then handle_epollout kernel r.fd s1 else s1 in
      let v1 =
        if-IsValid kernel r.readable (handle_request kernel r.fd) s
          (handle_request-IsValid kernel r.fd) v in
      let v2 =
        if-IsValid kernel r.writable (handle_epollout kernel r.fd) s1
          (handle_epollout-IsValid kernel r.fd) v1 in
      let h1 =
        if-IsWatched r.readable (handle_request kernel r.fd) s (handle_request-IsWatched r.fd) v
          h in
      let h2 =
        if-IsWatched r.writable (handle_epollout kernel r.fd) s1 (handle_epollout-IsWatched r.fd) v1
          h1 in
      let h3 =
        if-IsWatched r.hung_up (close_session kernel r.fd) s2 (close_session-IsWatched r.fd) v2
          h2 in
      elim (Bool-cases (r.fd == s.listener)) [
        | inl q ↦ rw (q, handle_ready) (accept_client-IsWatched r.accepts s h)
        | inr q ↦ elim (Bool-cases (r.fd == s.eventfd)) [
          | inl z ↦ rw (q, handle_ready) (rw z (events_loop-IsWatched s.world.main_events s v h))
          | inr z ↦ rw (q, handle_ready) (rw z h3)
        ]
      ]

  Move-IsWatched : {s t : Server Interest} → Move kernel s t → IsValid s → IsWatched s → IsWatched t
  Move-IsWatched (reports r s s' f e) v h =
      subst (Ends IsWatched) e (handle_ready-IsWatched r s v h)
  Move-IsWatched (works s w step) v h = h

  -- The main thread and the others, in any order: where the kernel watches the descriptor of every
  -- session of a valid server, it still does afterwards, whoever came and went.
  pub Runs-IsWatched :
      {s t : Server Interest} → Runs kernel s t → IsValid s → IsWatched s → IsWatched t
  Runs-IsWatched (rests s) v h = h
  Runs-IsWatched (moves m rest) v h =
      Runs-IsWatched rest (Move-IsValid kernel m v) (Move-IsWatched m v h)
