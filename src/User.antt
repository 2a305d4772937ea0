-- ===== src/User.antt =====
-- server/src/user/{User,UserManager}.{h,cpp}: the users, by id and by descriptor. A `shared_ptr<User>`
-- that is got from the manager names the object in its map, so a write through it is a write there.
pub mod Managed
use cpp_epoll_chat.Base.{ℕ, ◌-◌, ◌^◌, List, [], Bool, true, false, Option, none, some}
use cpp_epoll_chat.Base.Map.{find, emplace, erase, assign}

pub record User : Type 0 where
  pub fd : ℕ
  pub user_id : ℕ
  pub user_name : List ℕ
  pub current_room : ℕ
  pub disconnecting : Bool

-- The constructor: a new user is in the lobby, room 1.
unfoldable pub new_user : ℕ → ℕ → List ℕ → User
new_user fd user_id user_name = record {
  fd = fd;
  user_id = user_id;
  user_name = user_name;
  current_room = 1;
  disconnecting = false;
}

unfoldable pub set_name : List ℕ → User → User
set_name user_name u = record u { user_name = user_name }

-- The move constructor: the new object, and what is left of the other, whose `fd` is -1 as a bit pattern
-- and whose name may be anything, `left_name` here.
abbrev pub move_from : List ℕ → User → User × User
move_from left_name other = (
  record {
    fd = other.fd;
    user_id = other.user_id;
    user_name = other.user_name;
    current_room = other.current_room;
    disconnecting = other.disconnecting;
  },
  record other { fd = 2 ^ 32 - 1; user_name = left_name },
)

-- The move assignment between two objects. All that the first one held is overwritten.
unfoldable pub move_assign : List ℕ → User → User → User × User
move_assign left_name u other = (
  record u {
    fd = other.fd;
    user_id = other.user_id;
    user_name = other.user_name;
    current_room = other.current_room;
    disconnecting = other.disconnecting;
  },
  record other { fd = 2 ^ 32 - 1; user_name = left_name },
)

unfoldable pub set_current_room : ℕ → User → User
set_current_room room_id u = record u { current_room = room_id }

unfoldable pub mark_diconnecting : User → User
mark_diconnecting u = record u { disconnecting = true }

pub record UserManager : Type 0 where
  pub users : List (ℕ × User)
  pub fd_to_user_id : List (ℕ × ℕ)

unfoldable pub add_user : User → UserManager → UserManager
add_user user m =
    let (u, _) = move_from [] user in
    record {
      users = emplace u.user_id u m.users;
      fd_to_user_id = emplace u.fd u.user_id m.fd_to_user_id;
    }

unfoldable pub remove_user : ℕ → UserManager → UserManager
remove_user user_id m = elim (find user_id m.users) [
  | none ↦ m
  | some user ↦ record {
    users = erase user_id m.users;
    fd_to_user_id = erase user.fd m.fd_to_user_id;
  }
]

-- `get_user(int fd)`.
unfoldable pub get_user : ℕ → UserManager → Option User
get_user fd m = elim (find fd m.fd_to_user_id) [ none ↦ none | some user_id ↦ find user_id m.users ]

-- `get_user(UserId user_id)`.
unfoldable pub get_user_by_id : ℕ → UserManager → Option User
get_user_by_id user_id m = find user_id m.users

-- 0 stands for no user.
unfoldable pub get_user_id : ℕ → UserManager → ℕ
get_user_id fd m = elim (find fd m.fd_to_user_id) [ none ↦ 0 | some user_id ↦ user_id ]

-- A write through the pointer that `get_user(fd)` returned.
unfoldable pub update_user : ℕ → (User → User) → UserManager → UserManager
update_user fd change m = elim (find fd m.fd_to_user_id) [
  | none ↦ m
  | some user_id ↦ elim (find user_id m.users) [
    | none ↦ m
    | some user ↦ record m { users = assign user_id (change user) m.users }
  ]
]
