-- ===== src/Socket.antt =====
-- server/src/network/Socket.{h,cpp}: an object that owns a descriptor.
pub mod Owned
use cpp_epoll_chat.Base.{ℕ, List, [], ◌∷◌, ◌++◌, Option, none, some}

-- `none` is a negative number, which the source writes as -1: the object owns no descriptor.
pub record Socket : Type 0 where
  pub fd : Option ℕ

-- The constructor, for what `socket` or `accept4` answered; `none` is an exception.
unfoldable pub socket_of : Option ℕ → Option Socket
socket_of none = none
socket_of (some fd) = some (record { fd = some fd })

unfoldable pub get : Socket → Option ℕ
get s = s.fd

unfoldable pub release : Socket → Option ℕ × Socket
release s = (s.fd, record { fd = none })

-- The destructor. `closed` is every descriptor that was closed so far, in order.
unfoldable pub destroy : Socket → List ℕ → List ℕ
destroy s closed = elim s.fd [ none ↦ closed | some fd ↦ closed ++ (fd ∷ []) ]

-- The move constructor: the new object, and what is left of the other.
unfoldable pub move_from : Socket → Socket × Socket
move_from other = (record { fd = other.fd }, record { fd = none })

-- The move assignment between two objects.
unfoldable pub move_assign : Socket → Socket → List ℕ → Socket × Socket × List ℕ
move_assign s other closed = (
  record { fd = other.fd },
  record { fd = none },
  elim s.fd [ none ↦ closed | some fd ↦ closed ++ (fd ∷ []) ],
)
