-- ===== src/Server/Stale.antt =====
-- A queued event for a descriptor that is closed before the event is taken (server/src/server/Server.cpp).
use cpp_epoll_chat.Base.{
  ℕ, ◌≡◌, refl, ap, ◌∙◌, List, ◌∷◌, Bool, true, false, none, some, ◌==◌, if◌then◌else◌, arith,
  Bool-cases, inl, inr,
}
use cpp_epoll_chat.Protocol.{Command}
use cpp_epoll_chat.Room.{SessionRef}
use cpp_epoll_chat.RoomEvent.{MainEvent, enable_epoll_out}
use cpp_epoll_chat.RoomManager.Dispatch.{disconnect_session}
use cpp_epoll_chat.RoomManager.Routed.{route_event-main_events}
use cpp_epoll_chat.RoomManager.Plans.{lobby_room_id}
use cpp_epoll_chat.Epoll
use cpp_epoll_chat.Epoll.{Kernel}
use cpp_epoll_chat.Server.{
  Server, Ready, goes_on, throws, with_world, or_throws, dismiss, close_session, handle_event,
  events_loop, handle_events, handle_request, handle_epollout, handle_ready, enable_epollout, run,
  ◌>>=◌,
}
use cpp_epoll_chat.Server.Matched.{IsValid, user_of}
use cpp_epoll_chat.Server.Closing.{close_session_lem}
use cpp_epoll_chat.Session.{on_readable}
use cpp_epoll_chat.SessionManager.{get_session}
use cpp_epoll_chat.User.{User}
use cpp_epoll_chat.World.{World, update}

dismiss-main_events :
    (garbage : Command) (fd : ℕ) (ref : SessionRef) (u : User) (w : World)
    → (dismiss garbage fd ref u w).main_events ≡ w.main_events
unfolding dismiss disconnect_session
dismiss-main_events garbage fd ref u w = elim (Bool-cases (u.current_room == lobby_room_id)) [
  | inl e ↦ rw (dismiss, e) (route_event-main_events _ 0 _)
  | inr n ↦ rw (dismiss, n) (route_event-main_events _ 0 _ ∙ route_event-main_events _ 0 _)
]

module _ (kernel : Kernel) where
  open kernel use {Interest}

  -- What closing leaves of the rest of a server.
  close_session_rest :
      (fd : ℕ) (s : Server Interest) (ref : SessionRef)
      → IsValid s
      → get_session fd s.session_manager ≡ some ref
      → let s' = close_session kernel fd s in
        (s'.interest ≡ Epoll.remove kernel fd s.interest)
        × (s'.world.main_events ≡ s.world.main_events)
        × (s'.listener ≡ s.listener)
        × (s'.eventfd ≡ s.eventfd)
        × (get_session fd s'.session_manager ≡ none)
  unfolding close_session
  close_session_rest fd s ref v q =
      let (u, got, _, _) = user_of fd s ref v q in
      let gone = (close_session_lem kernel fd fd s v).0 in
      (
        rw (q, close_session) (rw (got, close_session) refl),
        rw (q, close_session)
            (rw (got, close_session) (dismiss-main_events s.garbage fd ref u s.world)),
        rw (q, close_session) (rw (got, close_session) refl),
        rw (q, close_session) (rw (got, close_session) refl),
        ground (arith, gone),
      )

  -- A descriptor without a session: nothing is done about it but what `handle_events` or `accept` do.
  close_none :
      (fd : ℕ) (s : Server Interest)
      → get_session fd s.session_manager ≡ none
      → close_session kernel fd s ≡ s
  unfolding close_session
  close_none fd s q = rw (q, close_session) refl

  epollout_none :
      (fd : ℕ) (s : Server Interest)
      → get_session fd s.session_manager ≡ none
      → handle_epollout kernel fd s ≡ s
  unfolding handle_epollout
  epollout_none fd s q = rw (q, handle_epollout) (close_none fd s q)

  -- The first event of the queue asks for EPOLLOUT on a descriptor that the kernel does not know.
  handle_events-throws :
      (fd : ℕ) (s : Server Interest) (queue : List MainEvent)
      → s.world.main_events ≡ record { type = enable_epoll_out; fd = fd } ∷ queue
      → (Epoll.enable_epoll_out kernel fd s.interest).0 ≡ false
      → (s' : Server Interest) × (handle_events kernel s ≡ throws s')
  unfolding handle_events events_loop handle_event enable_epollout
  handle_events-throws fd s queue q bad =
      rw (handle_events, q) (refused (Epoll.enable_epoll_out kernel fd s.interest) bad)
    where
      refused :
          (r : Bool × Interest)
          → r.0 ≡ false
          → (s' : Server Interest) × ((or_throws r
                  (with_world (record (s.world) { main_events = queue }) s)
                >>= events_loop kernel queue)
              ≡ throws s')
      refused (true, i) e = cc
      refused (false, i) e = (_, refl)

  -- The session has read what the kernel had for it.
  abbrev reads_in : SessionRef → Server Interest → Server Interest
  reads_in ref s =
      let w : World = record (s.world) {
        heap = update s.world.heap ref.address (on_readable (s.world.heap ref.address)).1;
      } in
      with_world w s

  reads_in-IsValid : (ref : SessionRef) (s : Server Interest) → IsValid s → IsValid (reads_in ref s)
  reads_in-IsValid ref s v = record {
    ids = v.ids;
    world = record { rooms = v.world.rooms; users = v.world.users; keys = v.world.keys };
    matched = v.matched;
  }

  -- The peer of a session closed the connection: the main thread closes the session, once.
  hung_up-closes :
      (r : Ready) (s : Server Interest) (ref : SessionRef)
      → IsValid s
      → get_session r.fd s.session_manager ≡ some ref
      → (on_readable (s.world.heap ref.address)).0 ≡ false
      → r.readable ≡ true
      → (r.fd == s.listener) ≡ false
      → (r.fd == s.eventfd) ≡ false
      → handle_ready kernel r s ≡ goes_on (close_session kernel r.fd (reads_in ref s))
  unfolding handle_ready handle_request
  hung_up-closes r s ref v found dead readable not_listener not_eventfd =
      let s1 = close_session kernel r.fd (reads_in ref s) in
      let (_, _, _, _, gone) =
        close_session_rest r.fd (reads_in ref s) ref (reads_in-IsValid ref s v) found in
      let request : handle_request kernel r.fd s ≡ s1 = rw (found, handle_request) (rw dead refl) in
      let later : (b c : Bool)
          → (let s2 = if b then handle_epollout kernel r.fd s1 else s1 in
              if c then close_session kernel r.fd s2 else s2)
            ≡ s1 =
        λ b c. unasked b c r.fd s1 gone in
      rw (not_listener, handle_ready)
        (rw not_eventfd (rw readable (rw request (ap goes_on (later r.writable r.hung_up)))))
    where
      unasked :
          (b c : Bool) (fd : ℕ) (s : Server Interest)
          → get_session fd s.session_manager ≡ none
          → (let s2 = if b then handle_epollout kernel fd s else s in
              if c then close_session kernel fd s2 else s2)
            ≡ s
      unasked b c fd s gone = ground (arith, epollout_none fd s gone, close_none fd s gone)

  -- In a valid server, the peer of a session closed its connection while the queue of the main thread
  -- begins with an event that asks for EPOLLOUT on the session's descriptor, and `epoll_wait` reports the
  -- descriptor before the queue's. If the kernel refuses to modify a descriptor that was deleted, an
  -- exception leaves `run`.
  pub run_stale :
      (r event : Ready) (more : List Ready) (s : Server Interest) (ref : SessionRef)
      (queue : List MainEvent)
      → IsValid s
      → get_session r.fd s.session_manager ≡ some ref
      → (on_readable (s.world.heap ref.address)).0 ≡ false
      → r.readable ≡ true
      → (r.fd == s.listener) ≡ false
      → (r.fd == s.eventfd) ≡ false
      → (event.fd == s.listener) ≡ false
      → (event.fd == s.eventfd) ≡ true
      → s.world.main_events ≡ record { type = enable_epoll_out; fd = r.fd } ∷ queue
      → (Epoll.enable_epoll_out kernel r.fd (Epoll.remove kernel r.fd s.interest)).0 ≡ false
      → (s' : Server Interest) × (run kernel (r ∷ event ∷ more) s ≡ throws s')
  unfolding run handle_ready
  run_stale r event more s ref queue v found dead readable not_listener not_eventfd other its queued
        refuses =
      let s1 = close_session kernel r.fd (reads_in ref s) in
      let (interest, events, listener, eventfd, _) =
        close_session_rest r.fd (reads_in ref s) ref (reads_in-IsValid ref s v) found in
      let closes = hung_up-closes r s ref v found dead readable not_listener not_eventfd in
      let (s', thrown) =
        handle_events-throws r.fd s1 queue (events ∙ queued)
          (ap (λ i. (Epoll.enable_epoll_out kernel r.fd i).0) interest ∙ refuses) in
      (s', rw (run, closes) (rw (run, listener, other) (rw (eventfd, its) (rw thrown refl))))
