-- ===== src/SessionManager.antt =====
-- server/src/network/SessionManager.{h,cpp}: the sessions by descriptor. A session object has an address;
-- `allocated` counts those that were made, and is the next address.
use cpp_epoll_chat.Base.{ℕ, ◌+◌, List, Option}
use cpp_epoll_chat.Base.Map.{find, emplace, erase}
use cpp_epoll_chat.Room.{SessionRef}

pub record SessionManager : Type 0 where
  pub sessions : List (ℕ × SessionRef)
  pub allocated : ℕ

unfoldable pub add_session : ℕ → SessionManager → SessionManager
add_session fd m = record {
  sessions = emplace fd (record { address = m.allocated; fd = fd }) m.sessions;
  allocated = m.allocated + 1;
}

unfoldable pub remove_session : ℕ → SessionManager → SessionManager
remove_session fd m = record m { sessions = erase fd m.sessions }

unfoldable pub get_session : ℕ → SessionManager → Option SessionRef
get_session fd m = find fd m.sessions
