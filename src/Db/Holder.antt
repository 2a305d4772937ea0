-- ===== src/Db/Holder.antt =====
-- server/src/db/DBResult.h: the object that owns a result of libpq, by its address. The owner's `close` is
-- `PQclear` here.
use cpp_epoll_chat.Base.{
  ℕ, ◌+◌, ◌≡◌, refl, List, [], ◌∷◌, ◌++◌, Option, none, some, Option-cases, inl, inr,
}
use cpp_epoll_chat.Owner.{Owner, Use, nothing, uses_all}
use cpp_epoll_chat.Owner.Counted.{count, owners, uses_all-IsOwned}

-- `none` is the null pointer.
pub record Holder : Type 0 where
  pub res : Option ℕ

-- The constructors; none of them throws.
unfoldable pub result_of : Option ℕ → Option Holder
result_of res = some (record { res = res })

-- The destructor.
unfoldable pub destroy : Holder → List ℕ → List ℕ
destroy s cleared = elim s.res [ none ↦ cleared | some res ↦ cleared ++ (res ∷ []) ]

-- The move constructor: the new object, and what is left of the other.
unfoldable pub move_from : Holder → Holder × Holder
move_from other = (record { res = other.res }, record { res = none })

-- The move assignment between two objects.
unfoldable pub move_assign : Holder → Holder → List ℕ → Holder × Holder × List ℕ
move_assign s other cleared = (
  record { res = other.res },
  record { res = none },
  elim s.res [ none ↦ cleared | some res ↦ cleared ++ (res ∷ []) ],
)

abbrev pub holders : Owner
unfolding result_of destroy move_from move_assign
holders = record {
  Object = Holder;
  fd_of = λ s. s.res;
  make = result_of;
  release = λ s. none;
  destroy = destroy;
  move_from = move_from;
  move_assign = move_assign;
  make_none = λ s e. cc;
  make_some = λ fd. (_, refl, refl);
  release_lem = λ s left fd e. cc;
  destroy_lem = λ s closed. elim (Option-cases s.res) [
    | inl q ↦ rw (q, destroy) refl
    | inr (x, q) ↦ rw (q, destroy) refl
  ];
  move_from_lem = λ other. (refl, refl);
  move_assign_lem = λ s other closed. (
    refl,
    refl,
    elim (Option-cases s.res) [
      | inl q ↦ rw (q, move_assign) refl
      | inr (x, q) ↦ rw (q, move_assign) refl
    ],
  );
}

-- However the results of statements are made, moved, assigned and destroyed, each one that libpq gave is
-- owned by an object, or was cleared: together as often as libpq gave it. None is handed out.
pub results_owned :
    (us : List Use) (fd : ℕ)
    → let m = uses_all holders us nothing in
      owners holders fd m.live + count fd m.closed + count fd m.released ≡ count fd m.opened
results_owned us fd = uses_all-IsOwned holders fd us nothing refl
