-- ===== src/Room.antt =====
-- server/src/room/Room.{h,cpp}: the sessions of one room, under a limit.
pub mod Capacity
use cpp_epoll_chat.Base.{ℕ, ◌+◌, ◌-◌, List, [], Bool, true, false, none, some, leb, if◌then◌else◌}
use cpp_epoll_chat.Base.Map.{find, emplace, erase}

-- A `shared_ptr<Session>`: the object's address, and the descriptor that it keeps for its lifetime.
pub record SessionRef : Type 0 where
  pub address : ℕ
  pub fd : ℕ

pub record Room : Type 0 where
  pub room_id : ℕ
  pub sessions : List (ℕ × SessionRef)
  pub max_sessions : ℕ
  pub current_sessions : ℕ

unfoldable pub new_room : ℕ → ℕ → Room
new_room room_id max_sessions = record {
  room_id = room_id;
  sessions = [];
  max_sessions = max_sessions;
  current_sessions = 0;
}

-- `emplace` keeps an entry that is there; the count goes up all the same.
unfoldable pub join_session : SessionRef → Room → Bool × Room
join_session session r = if leb r.max_sessions r.current_sessions then (false, r) else (
  true,
  record r {
    sessions = emplace session.fd session r.sessions;
    current_sessions = r.current_sessions + 1;
  },
)

unfoldable pub exit_session : ℕ → Room → Bool × Room
exit_session fd r = elim (find fd r.sessions) [
  | none ↦ (false, r)
  | some _ ↦
      (true, record r { sessions = erase fd r.sessions; current_sessions = r.current_sessions - 1 })
]

unfoldable pub find_session : ℕ → Room → Bool
find_session fd r = elim (find fd r.sessions) [ none ↦ false | some _ ↦ true ]
