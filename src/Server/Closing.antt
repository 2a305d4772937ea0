-- ===== src/Server/Closing.antt =====
-- What `Server::close_session` (server/src/server/Server.cpp) leaves behind, in a state where each
-- session has its user.
use cpp_epoll_chat.Base.{
  ℕ, ◌≡◌, refl, ap, subst, ◌∙◌, List, none, some, ◌==◌, if◌then◌else◌, arith, Bool-cases,
  Option-cases, inl, inr,
}
use cpp_epoll_chat.Base.Map.{find, erase, Distinct, Distinct-erase, find-erase}
use cpp_epoll_chat.Protocol.{Command}
use cpp_epoll_chat.Room.{SessionRef}
use cpp_epoll_chat.RoomManager.Dispatch.{disconnect_session}
use cpp_epoll_chat.RoomManager.Routed.{route_event-users}
use cpp_epoll_chat.RoomManager.Plans.{lobby_room_id}
use cpp_epoll_chat.RoomWorker.WellFormed.{IsWellFormed, route_event-IsWellFormed}
use cpp_epoll_chat.Epoll.{Kernel}
use cpp_epoll_chat.Server.{Server, dismiss, close_session}
use cpp_epoll_chat.Session.{mark_disconnecting}
use cpp_epoll_chat.SessionManager.{SessionManager, get_session, remove_session}
use cpp_epoll_chat.User.{User, UserManager, mark_diconnecting, remove_user, get_user, update_user}
use cpp_epoll_chat.User.Managed.{
  get_user-remove_user, IsConsistent, update_user-IsConsistent, update_user-keys,
  remove_user-IsConsistent, get_user-update_user,
}
use cpp_epoll_chat.World.{World, update}
use cpp_epoll_chat.Server.Matched.{IsMatched, IsValid, user_of, no_user}

pub disconnect_session-IsWellFormed :
    {ids : List (ℕ × ℕ)} (garbage : Command) (fd room_id : ℕ) (w : World)
    → IsWellFormed ids w
    → IsWellFormed ids (disconnect_session garbage fd room_id w)
unfolding disconnect_session
disconnect_session-IsWellFormed garbage fd room_id w h = route_event-IsWellFormed _ 0 w h

disconnect_session-users :
    (garbage : Command) (fd room_id : ℕ) (w : World)
    → (disconnect_session garbage fd room_id w).users ≡ w.users
unfolding disconnect_session
disconnect_session-users garbage fd room_id w = route_event-users _ 0 w

-- The part of `dismiss` before the user is removed.
dismiss-IsWellFormed :
    {ids : List (ℕ × ℕ)} (garbage : Command) (fd : ℕ) (ref : SessionRef) (u : User) (w : World)
    → IsWellFormed ids w
    → (w' : World) × IsWellFormed ids w'
      × (dismiss garbage fd ref u w ≡ record w' { users = remove_user u.user_id w'.users })
      × (w'.users ≡ update_user fd mark_diconnecting w.users)
unfolding dismiss disconnect_session mark_diconnecting
dismiss-IsWellFormed {ids = ids} garbage fd ref u w h =
    let w1 : World = record w {
      users = update_user fd mark_diconnecting w.users;
      heap = update w.heap ref.address (mark_disconnecting (w.heap ref.address));
    } in
    let h1 : IsWellFormed ids w1 = record {
      rooms = h.rooms;
      users = update_user-IsConsistent mark_diconnecting (λ x. refl) (λ x. refl) fd w.users h.users;
      keys = update_user-keys mark_diconnecting fd w.users ∙ h.keys;
    } in
    let h2 = disconnect_session-IsWellFormed garbage fd u.current_room w1 h1 in
    elim (Bool-cases (u.current_room == lobby_room_id)) [
      | inl e ↦ (
        disconnect_session garbage fd u.current_room w1,
        h2,
        rw (dismiss, e) refl,
        disconnect_session-users garbage fd u.current_room w1,
      )
      | inr n ↦ (
        _,
        disconnect_session-IsWellFormed garbage fd lobby_room_id _ h2,
        rw (dismiss, n) refl,
        disconnect_session-users garbage fd lobby_room_id _
            ∙ disconnect_session-users garbage fd u.current_room w1,
      )
    ]

remove_user-keys :
    (user_id : ℕ) (u : User) (m : UserManager)
    → find user_id m.users ≡ some u
    → (remove_user user_id m).fd_to_user_id ≡ erase u.fd m.fd_to_user_id
unfolding remove_user
remove_user-keys user_id u m e = rw (e, remove_user) refl

erase-IsMatched :
    (fd : ℕ) (m : SessionManager) (ids : List (ℕ × ℕ)) (total : ℕ)
    → Distinct ids
    → IsMatched m ids total
    → IsMatched (remove_session fd m) (erase fd ids) total
unfolding remove_session
erase-IsMatched fd m ids total d h = record {
  distinct = Distinct-erase fd m.sessions h.distinct;
  paired = λ other.
      ground (
        arith,
        find-erase fd other m.sessions h.distinct,
        find-erase fd other ids d,
        h.paired other,
      );
  counted = λ other user_id e. ground (arith, find-erase fd other ids d, h.counted other user_id);
}

get_user-find :
    (fd : ℕ) (u : User) (m : UserManager)
    → IsConsistent m
    → get_user fd m ≡ some u
    → (find u.user_id m.users ≡ some u) × (u.fd ≡ fd)
unfolding get_user
get_user-find fd u m c e = elim (Option-cases (find fd m.fd_to_user_id)) [
  | inl z ↦ ground arith
  | inr (user_id, z) ↦
      let (x, there, fd_x, id_x) = c.to_user fd user_id z in (ground arith, ground arith)
]

-- The user is marked when it is removed, and is found by the id that the removal is given.
marked_user :
    (fd : ℕ) (u : User) (m : UserManager)
    → IsConsistent m
    → get_user fd m ≡ some u
    → (find u.user_id (update_user fd mark_diconnecting m).users ≡ some (mark_diconnecting u))
      × (u.fd ≡ fd)
unfolding mark_diconnecting
marked_user fd u m c e =
    get_user-find fd (mark_diconnecting u) (update_user fd mark_diconnecting m)
      (update_user-IsConsistent mark_diconnecting (λ x. refl) (λ x. refl) fd m c)
      (ground (arith, get_user-update_user mark_diconnecting (λ x. refl) (λ x. refl) fd fd m c))

get_user-dismiss :
    {ids : List (ℕ × ℕ)} (garbage : Command) (fd other : ℕ) (ref : SessionRef) (u : User)
    (w : World)
    → IsWellFormed ids w
    → get_user fd w.users ≡ some u
    → get_user other (dismiss garbage fd ref u w).users
      ≡ (if fd == other then none else get_user other w.users)
unfolding mark_diconnecting
get_user-dismiss garbage fd other ref u w h got =
    let (found, fd_u) = marked_user fd u w.users h.users got in
    let (w', h', same, users) = dismiss-IsWellFormed garbage fd ref u w h in
    let there : find u.user_id w'.users.users ≡ some (mark_diconnecting u) = rw users found in
    ap (λ (x : World). get_user other x.users) same
    ∙ get_user-remove_user u.user_id other (mark_diconnecting u) w'.users h'.users there
    ∙ (ground (
      arith,
      users,
      get_user-update_user mark_diconnecting (λ x. refl) (λ x. refl) fd other w.users h.users,
    ))

module _ (kernel : Kernel) where
  open kernel use {Interest}

  -- Closing a session, or a descriptor without one, keeps a server valid.
  pub close_session-IsValid :
      (fd : ℕ) (s : Server Interest) → IsValid s → IsValid (close_session kernel fd s)
  unfolding close_session mark_diconnecting
  close_session-IsValid fd s v = elim (Option-cases (get_session fd s.session_manager)) [
    | inl q ↦ rw (q, close_session) v
    | inr (ref, q) ↦
        let (u, got, _, _) = user_of fd s ref v q in
        let (found, fd_u) = marked_user fd u s.world.users v.world.users got in
        let (w, h, same, users) = dismiss-IsWellFormed s.garbage fd ref u s.world v.world in
        let there : find u.user_id w.users.users ≡ some (mark_diconnecting u) = rw users found in
        let keys = remove_user-keys u.user_id (mark_diconnecting u) w.users there in
        let distinct : Distinct v.ids = subst Distinct h.keys h.users.distinct_fds in
        rw (q, close_session)
          (rw (got, close_session)
            (rw same (record {
              ids = erase fd v.ids;
              world = record {
                rooms = h.rooms;
                users = remove_user-IsConsistent u.user_id w.users h.users;
                keys = keys ∙ ap (λ k. erase k w.users.fd_to_user_id) fd_u ∙ ap (erase fd) h.keys;
              };
              matched = erase-IsMatched fd s.session_manager v.ids s.total_users distinct v.matched;
            })))
  ]

  -- In a valid server, closing a session leaves neither it nor its user, and the session and the user of
  -- every other descriptor are as before.
  pub close_session_lem :
      (fd other : ℕ) (s : Server Interest)
      → IsValid s
      → let s' = close_session kernel fd s in
        (get_session other s'.session_manager
          ≡ (if fd == other then none else get_session other s.session_manager))
        × (get_user other s'.world.users
            ≡ (if fd == other then none else get_user other s.world.users))
  unfolding close_session get_session remove_session
  close_session_lem fd other s v = elim (Option-cases (get_session fd s.session_manager)) [
    | inl q ↦ rw (q, close_session) (ground arith, ground (arith, no_user fd s v q))
    | inr (ref, q) ↦
        let (u, got, _, _) = user_of fd s ref v q in
        rw (q, close_session)
          (rw (got, close_session)
            (
              find-erase fd other s.session_manager.sessions v.matched.distinct,
              get_user-dismiss s.garbage fd other ref u s.world v.world got,
            ))
  ]
