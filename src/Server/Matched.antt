-- ===== src/Server/Matched.antt =====
-- The sessions of the server against its users (server/src/server/Server.cpp).
use cpp_epoll_chat.Base.{
  ℕ, ◌≤◌, ◌≡◌, refl, sym, ap, subst, ◌∙◌, List, Bool, true, false, none, some, arith, Option-cases,
  inl, inr,
}
use cpp_epoll_chat.Base.Map.{find, Distinct}
use cpp_epoll_chat.Room.{SessionRef}
use cpp_epoll_chat.RoomWorker.WellFormed.{IsWellFormed}
use cpp_epoll_chat.Server.{Server}
use cpp_epoll_chat.SessionManager.{SessionManager, get_session}
use cpp_epoll_chat.User.{User, get_user}

abbrev pub has : {V : Type 0} → ℕ → List (ℕ × V) → Bool
has k m = elim (find k m) [ none ↦ false | some _ ↦ true ]

-- The sessions against the users' ids: the same descriptors are in use, and no id is above the count.
pub record IsMatched (m : SessionManager) (ids : List (ℕ × ℕ)) (total : ℕ) : Type 0 where
  pub distinct : Distinct m.sessions
  pub paired : (fd : ℕ) → has fd m.sessions ≡ has fd ids
  pub counted : (fd user_id : ℕ) → find fd ids ≡ some user_id → user_id ≤ total

pub record IsValid {I : Type 0} (s : Server I) : Type 0 where
  pub ids : List (ℕ × ℕ)
  pub world : IsWellFormed ids s.world
  pub matched : IsMatched s.session_manager ids s.total_users

-- A session of a valid server has a user, who has the session's descriptor.
pub user_of :
    {I : Type 0} (fd : ℕ) (s : Server I) (ref : SessionRef)
    → IsValid s
    → get_session fd s.session_manager ≡ some ref
    → (u : User) × (get_user fd s.world.users ≡ some u)
      × (u.fd ≡ fd)
      × (find u.user_id s.world.users.users ≡ some u)
unfolding get_session get_user
user_of fd s ref v found = elim (Option-cases (find fd v.ids)) [
  | inl e ↦ ground (arith, v.matched.paired fd)
  | inr (user_id, e) ↦
      let key : find fd s.world.users.fd_to_user_id ≡ some user_id =
        ap (find fd) v.world.keys ∙ e in
      let (u, there, fd_u, id_u) = v.world.users.to_user fd user_id key in
      (u, ground arith, fd_u, subst (λ k. find k s.world.users.users ≡ some u) (sym id_u) there)
]

-- A descriptor without a session has no user.
pub no_key :
    {I : Type 0} (fd : ℕ) (s : Server I)
    → IsValid s
    → get_session fd s.session_manager ≡ none
    → find fd s.world.users.fd_to_user_id ≡ none
unfolding get_session
no_key fd s v found = elim (Option-cases (find fd v.ids)) [
  | inl e ↦ ap (find fd) v.world.keys ∙ e
  | inr (user_id, e) ↦ ground (arith, v.matched.paired fd)
]

pub no_user :
    {I : Type 0} (fd : ℕ) (s : Server I)
    → IsValid s
    → get_session fd s.session_manager ≡ none
    → get_user fd s.world.users ≡ none
unfolding get_user
no_user fd s v found = rw (get_user, no_key fd s v found) refl
