-- ===== src/Client/Handle.antt =====
-- client/src/Socket.{h,cpp}: the client's socket as the owner of a descriptor, and of the bytes that wait
-- to be sent.
use cpp_epoll_chat.Base.{
  ℕ, ◌+◌, ◌≡◌, refl, List, [], ◌∷◌, ◌++◌, Option, none, some, Option-cases, inl, inr,
}
use cpp_epoll_chat.Owner.{Owner, Use, nothing, uses_all}
use cpp_epoll_chat.Owner.Counted.{count, owners, uses_all-IsOwned}

pub record Handle : Type 0 where
  pub fd : Option ℕ
  pub send_buf : List ℕ

-- The constructor, for what `socket` answered; `none` is an exception.
unfoldable pub socket_of : Option ℕ → Option Handle
socket_of none = none
socket_of (some fd) = some (record { fd = some fd; send_buf = [] })

unfoldable pub release : Handle → Option ℕ × Handle
release s = (s.fd, record s { fd = none })

-- The destructor. `closed` is every descriptor that was closed so far, in order.
unfoldable pub destroy : Handle → List ℕ → List ℕ
destroy s closed = elim s.fd [ none ↦ closed | some fd ↦ closed ++ (fd ∷ []) ]

-- The move constructor: the new object, and what is left of the other. A moved vector is empty.
unfoldable pub move_from : Handle → Handle × Handle
move_from other =
    (record { fd = other.fd; send_buf = other.send_buf }, record { fd = none; send_buf = [] })

-- The move assignment between two objects.
unfoldable pub move_assign : Handle → Handle → List ℕ → Handle × Handle × List ℕ
move_assign s other closed = (
  record { fd = other.fd; send_buf = other.send_buf },
  record { fd = none; send_buf = [] },
  elim s.fd [ none ↦ closed | some fd ↦ closed ++ (fd ∷ []) ],
)

abbrev pub handles : Owner
unfolding socket_of destroy release move_from move_assign
handles = record {
  Object = Handle;
  fd_of = λ s. s.fd;
  make = socket_of;
  release = λ s. some (release s);
  destroy = destroy;
  move_from = move_from;
  move_assign = move_assign;
  make_none = λ s e. cc;
  make_some = λ fd. (_, refl, refl);
  release_lem = λ s left fd e. (cc, cc);
  destroy_lem = λ s closed. elim (Option-cases s.fd) [
    | inl q ↦ rw (q, destroy) refl
    | inr (x, q) ↦ rw (q, destroy) refl
  ];
  move_from_lem = λ other. (refl, refl);
  move_assign_lem = λ s other closed. (
    refl,
    refl,
    elim (Option-cases s.fd) [
      | inl q ↦ rw (q, move_assign) refl
      | inr (x, q) ↦ rw (q, move_assign) refl
    ],
  );
}

-- However the client makes, moves, assigns, releases and destroys its sockets, each descriptor that was
-- opened for one is owned by an object, or was closed, or was handed out by `release`: the owners, the
-- calls of `close` and the times it was handed out are together as many as the times it was opened.
pub handles_owned :
    (us : List Use) (fd : ℕ)
    → let m = uses_all handles us nothing in
      owners handles fd m.live + count fd m.closed + count fd m.released ≡ count fd m.opened
handles_owned us fd = uses_all-IsOwned handles fd us nothing refl
