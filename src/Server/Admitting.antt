-- ===== src/Server/Admitting.antt =====
-- Letting a client in (`Server::accept_client` in server/src/server/Server.cpp), and what holds of a
-- server whether it goes on or not.
use cpp_epoll_chat.Base.{
  ℕ, ◌+◌, ◌%◌, ◌^◌, ◌≤◌, ◌<◌, ◌≡◌, sym, ap, ◌∙◌, List, Bool, true, false, none, some, Option, arith,
  Option-cases, inl, inr,
}
use cpp_epoll_chat.Base.Map.{find, emplace, Distinct-emplace, find-emplace}
use cpp_epoll_chat.RoomWorker.WellFormed.{IsWellFormed, route_event-IsWellFormed}
use cpp_epoll_chat.Epoll
use cpp_epoll_chat.Epoll.{Kernel, reading}
use cpp_epoll_chat.Server.{
  Server, Accepted, Outcome, goes_on, throws, ◌>>=◌, with_world, or_throws, welcome, accept_client,
}
use cpp_epoll_chat.Server.Matched.{IsValid, IsMatched, no_key}
use cpp_epoll_chat.SessionManager.{SessionManager, add_session, get_session}
use cpp_epoll_chat.User.{new_user, add_user}
use cpp_epoll_chat.User.Managed.{add_user-IsConsistent}
use cpp_epoll_chat.World.{World}

-- What holds of the server, whether it goes on or an exception left `run`.
abbrev pub Ends : {I : Type 0} → (Server I → Type 0) → Outcome I → Type 0
Ends P (goes_on s) = P s
Ends P (throws s) = P s

-- The new descriptor has no session, and the count of users does not wrap.
abbrev pub IsFresh : {I : Type 0} → Option Accepted → Server I → Type 0
IsFresh none s = Unit {0}
IsFresh (some a) s = (get_session a.fd s.session_manager ≡ none) × (s.total_users + 1 < 2 ^ 64)

pub with_world-IsValid :
    {I : Type 0}
    → (s : Server I) (w : World) (v : IsValid s) → IsWellFormed v.ids w
    → IsValid (with_world w s)
with_world-IsValid s w v h = record { ids = v.ids; world = h; matched = v.matched }

pub or_throws-Ends :
    {I : Type 0} → (r : Bool × I) (s : Server I) → IsValid s → Ends IsValid (or_throws r s)
or_throws-Ends (true, i) s v = record { ids = v.ids; world = v.world; matched = v.matched }
or_throws-Ends (false, i) s v = record { ids = v.ids; world = v.world; matched = v.matched }

pub bind-Ends :
    {I : Type 0}
    → (o : Outcome I) (f : Server I → Outcome I) → Ends IsValid o
    → ((s : Server I) → IsValid s → Ends IsValid (f s))
    → Ends IsValid (o >>= f)
bind-Ends (goes_on s) f v step = step s v
bind-Ends (throws s) f v step = v

new_id :
    (ids : List (ℕ × ℕ)) (w : World) (total user_id : ℕ)
    → IsWellFormed ids w
    → ((fd id : ℕ) → find fd ids ≡ some id → id ≤ total)
    → total < user_id
    → find user_id w.users.users ≡ none
new_id ids w total user_id h counted above = elim (Option-cases (find user_id w.users.users)) [
  | inl e ↦ e
  | inr (u, e) ↦
      let key = sym (ap (find u.fd) h.keys) ∙ h.users.to_fd user_id u e in
      let bound = counted u.fd user_id key in ground arith
]

emplace-IsMatched :
    (fd user_id : ℕ) (m : SessionManager) (ids : List (ℕ × ℕ)) (total : ℕ)
    → IsMatched m ids total
    → total ≤ user_id
    → IsMatched (add_session fd m) (emplace fd user_id ids) user_id
unfolding add_session
emplace-IsMatched fd user_id m ids total h le = record {
  distinct = Distinct-emplace fd _ m.sessions h.distinct;
  paired = λ other. ground (
    arith,
    find-emplace fd other (record { address = m.allocated; fd = fd }) m.sessions,
    find-emplace fd other user_id ids,
    h.paired other,
    h.paired fd,
  );
  counted = λ other id e.
      ground (arith, find-emplace fd other user_id ids, h.counted other id, h.counted fd);
}

module _ (kernel : Kernel) where
  open kernel use {Interest}

  welcome-IsValid :
      (a : Accepted) (s : Server Interest)
      → IsValid s
      → get_session a.fd s.session_manager ≡ none
      → s.total_users + 1 < 2 ^ 64
      → IsValid (welcome kernel a s)
  unfolding welcome new_user add_user
  welcome-IsValid a s v free small =
      let user_id = (s.total_users + 1) % 2 ^ 64 in
      let next : user_id ≡ s.total_users + 1 = omega arith in
      let new : find user_id s.world.users.users ≡ none =
        new_id v.ids s.world s.total_users user_id v.world v.matched.counted (omega arith) in
      record {
        ids = emplace a.fd user_id v.ids;
        world = route_event-IsWellFormed _ _ _ (record {
          rooms = v.world.rooms;
          users =
              add_user-IsConsistent (new_user a.fd user_id _) s.world.users v.world.users new
                (no_key a.fd s v free);
          keys = ap (emplace a.fd user_id) v.world.keys;
        });
        matched =
            emplace-IsMatched a.fd user_id s.session_manager v.ids s.total_users v.matched
              (omega arith);
      }

  pub accept_client-Ends :
      (a : Option Accepted) (s : Server Interest)
      → IsValid s
      → IsFresh a s
      → Ends IsValid (accept_client kernel a s)
  unfolding accept_client
  accept_client-Ends none s v f = v
  accept_client-Ends (some a) s v f = then_welcome (Epoll.add kernel a.fd reading s.interest)
    where
      then_welcome :
          (r : Bool × Interest)
          → Ends IsValid (or_throws r s >>= λ s'. goes_on (welcome kernel a s'))
      then_welcome (true, i) =
          welcome-IsValid a (record s { interest = i })
            (record { ids = v.ids; world = v.world; matched = v.matched }) f.0 f.1
      then_welcome (false, i) = record { ids = v.ids; world = v.world; matched = v.matched }
