-- ===== src/Socket/Owned.antt =====
-- A descriptor of the server has one owner (server/src/network/Socket.cpp).
use cpp_epoll_chat.Base.{ℕ, ◌+◌, ◌≡◌, refl, List, some, Option-cases, inl, inr}
use cpp_epoll_chat.Owner.{Owner, Use, nothing, uses_all}
use cpp_epoll_chat.Owner.Counted.{count, owners, uses_all-IsOwned}
use cpp_epoll_chat.Socket.{Socket, socket_of, destroy, release, move_from, move_assign}

abbrev pub sockets : Owner
unfolding socket_of destroy release move_from move_assign
sockets = record {
  Object = Socket;
  fd_of = λ s. s.fd;
  make = socket_of;
  release = λ s. some (release s);
  destroy = destroy;
  move_from = move_from;
  move_assign = move_assign;
  make_none = λ s e. cc;
  make_some = λ fd. (_, refl, refl);
  release_lem = λ s left fd e. (cc, cc);
  destroy_lem = λ s closed. elim (Option-cases s.fd) [
    | inl q ↦ rw (q, destroy) refl
    | inr (x, q) ↦ rw (q, destroy) refl
  ];
  move_from_lem = λ other. (refl, refl);
  move_assign_lem = λ s other closed. (
    refl,
    refl,
    elim (Option-cases s.fd) [
      | inl q ↦ rw (q, move_assign) refl
      | inr (x, q) ↦ rw (q, move_assign) refl
    ],
  );
}

-- However the server makes, moves, assigns, releases and destroys its sockets, each descriptor that was
-- opened for one is owned by an object, or was closed, or was handed out by `release`: the owners, the
-- calls of `close` and the times it was handed out are together as many as the times it was opened.
pub uses_all_owned :
    (us : List Use) (fd : ℕ)
    → let m = uses_all sockets us nothing in
      owners sockets fd m.live + count fd m.closed + count fd m.released ≡ count fd m.opened
uses_all_owned us fd = uses_all-IsOwned sockets fd us nothing refl
