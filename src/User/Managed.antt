-- ===== src/User/Managed.antt =====
-- The two maps of server/src/user/UserManager.cpp agree, and what a look-up by descriptor finds.
use cpp_epoll_chat.Base.{ℕ, ◌≡◌, none, some, arith}
use cpp_epoll_chat.Base.{Option-cases, Bool-cases, inl, inr, ◌==◌, if◌then◌else◌}
use mathlib.Core.Option
use cpp_epoll_chat.Base.Map.{
  find, Distinct, Distinct-emplace, Distinct-erase, Distinct-assign, find-emplace, find-erase,
  find-assign,
}
use cpp_epoll_chat.User.{User, UserManager, add_user, remove_user, get_user, update_user}

-- Every descriptor leads to the user who has it, and every user is reached by its descriptor.
pub record IsConsistent (m : UserManager) : Type 0 where
  pub distinct_users : Distinct m.users
  pub distinct_fds : Distinct m.fd_to_user_id
  pub to_user :
      (fd user_id : ℕ)
      → find fd m.fd_to_user_id ≡ some user_id
      → (u : User) × (find user_id m.users ≡ some u) × (u.fd ≡ fd) × (u.user_id ≡ user_id)
  pub to_fd :
      (user_id : ℕ) (u : User)
      → find user_id m.users ≡ some u
      → find u.fd m.fd_to_user_id ≡ some user_id

-- A new user, whose id and descriptor are not in use, keeps the maps consistent.
pub add_user-IsConsistent :
    (u : User) (m : UserManager)
    → IsConsistent m
    → find u.user_id m.users ≡ none
    → find u.fd m.fd_to_user_id ≡ none
    → IsConsistent (add_user u m)
unfolding add_user
add_user-IsConsistent u m c new_id new_fd = record {
  distinct_users = Distinct-emplace u.user_id u m.users c.distinct_users;
  distinct_fds = Distinct-emplace u.fd u.user_id m.fd_to_user_id c.distinct_fds;
  to_user = λ fd user_id h. elim (Bool-cases (u.fd == fd)) [
    | inl same ↦ (
      u,
      ground (
        arith,
        find-emplace u.fd fd u.user_id m.fd_to_user_id,
        find-emplace u.user_id user_id u m.users,
      ),
      ground arith,
      ground (arith, find-emplace u.fd fd u.user_id m.fd_to_user_id),
    )
    | inr other ↦
        let old : find fd m.fd_to_user_id ≡ some user_id =
          ground (arith, find-emplace u.fd fd u.user_id m.fd_to_user_id) in
        let (x, found, fd_x, id_x) = c.to_user fd user_id old in
        (x, ground (arith, find-emplace u.user_id user_id u m.users), fd_x, id_x)
  ];
  to_fd = λ user_id x h. ground (
    arith,
    c.to_fd user_id x,
    find-emplace u.user_id user_id u m.users,
    find-emplace u.fd x.fd u.user_id m.fd_to_user_id,
  );
}

-- With a new user in, its descriptor finds it, and every other descriptor finds what it found. The maps
-- agree, and neither the user's id nor its descriptor is in use.
pub get_user-add_user :
    (u : User) (m : UserManager) (fd : ℕ)
    → IsConsistent m
    → find u.user_id m.users ≡ none
    → find u.fd m.fd_to_user_id ≡ none
    → get_user fd (add_user u m) ≡ (if u.fd == fd then some u else get_user fd m)
unfolding get_user add_user
get_user-add_user u m fd c new_id new_fd = elim (Bool-cases (u.fd == fd)) [
  | inl same ↦ ground (
    arith,
    find-emplace u.fd fd u.user_id m.fd_to_user_id,
    find-emplace u.user_id u.user_id u m.users,
  )
  | inr other ↦ elim (Option-cases (find fd m.fd_to_user_id)) [
    | inl e ↦ ground (arith, find-emplace u.fd fd u.user_id m.fd_to_user_id)
    | inr (user_id, e) ↦
        let (x, found, _, _) = c.to_user fd user_id e in
        ground (
          arith,
          find-emplace u.fd fd u.user_id m.fd_to_user_id,
          find-emplace u.user_id user_id u m.users,
        )
  ]
]

-- With a user out, its descriptor finds nobody, and every other descriptor finds what it found. The maps
-- agree, and the user's id is in use.
pub get_user-remove_user :
    (user_id fd : ℕ) (u : User) (m : UserManager)
    → IsConsistent m
    → find user_id m.users ≡ some u
    → get_user fd (remove_user user_id m) ≡ (if u.fd == fd then none else get_user fd m)
unfolding get_user remove_user
get_user-remove_user user_id fd u m c found = elim (Option-cases (find fd m.fd_to_user_id)) [
  | inl e ↦ ground (arith, find-erase u.fd fd m.fd_to_user_id c.distinct_fds)
  | inr (other, e) ↦
      let (x, there, fd_x, _) = c.to_user fd other e in
      ground (
        arith,
        c.to_fd user_id u found,
        find-erase u.fd fd m.fd_to_user_id c.distinct_fds,
        find-erase user_id other m.users c.distinct_users,
      )
]

-- Removing a user, or the attempt to remove one that is not there, keeps the maps consistent.
pub remove_user-IsConsistent :
    (user_id : ℕ) (m : UserManager) → IsConsistent m → IsConsistent (remove_user user_id m)
unfolding remove_user
remove_user-IsConsistent user_id m c = elim (Option-cases (find user_id m.users)) [
  | inl e ↦ rw (e, remove_user) c
  | inr (u, e) ↦
      rw (e, remove_user)
        (record {
          distinct_users = Distinct-erase user_id m.users c.distinct_users;
          distinct_fds = Distinct-erase u.fd m.fd_to_user_id c.distinct_fds;
          to_user = λ fd other h.
              let old : find fd m.fd_to_user_id ≡ some other =
                ground (arith, find-erase u.fd fd m.fd_to_user_id c.distinct_fds) in
              let (x, found, fd_x, id_x) = c.to_user fd other old in
              (
                x,
                ground (
                  arith,
                  find-erase user_id other m.users c.distinct_users,
                  find-erase u.fd fd m.fd_to_user_id c.distinct_fds,
                ),
                fd_x,
                id_x,
              );
          to_fd = λ other x h.
              let old : find other m.users ≡ some x =
                ground (arith, find-erase user_id other m.users c.distinct_users) in
              ground (
                arith,
                c.to_fd other x old,
                c.to_fd user_id u e,
                find-erase user_id other m.users c.distinct_users,
                find-erase u.fd x.fd m.fd_to_user_id c.distinct_fds,
              );
        })
]

-- A write to the user of a descriptor that keeps the user's descriptor and id: this descriptor finds
-- the changed user, every other what it found.
module _ (change : User → User) (same_fd : (u : User) → (change u).fd ≡ u.fd)
    (same_id : (u : User) → (change u).user_id ≡ u.user_id) where
  pub get_user-update_user :
      (fd other : ℕ) (m : UserManager)
      → IsConsistent m
      → get_user other (update_user fd change m)
        ≡ (if fd == other then Option.map change (get_user fd m) else get_user other m)
  unfolding get_user update_user
  get_user-update_user fd other m c = elim (Option-cases (find fd m.fd_to_user_id)) [
    | inl e ↦ ground arith
    | inr (id, e) ↦
        let (u, there, fd_u, id_u) = c.to_user fd id e in
        elim (Option-cases (find other m.fd_to_user_id)) [
          | inl e' ↦ ground arith
          | inr (id', e') ↦
              let (u', there', fd_u', id_u') = c.to_user other id' e' in
              ground (arith, find-assign id id' (change u) m.users)
        ]
  ]

  pub update_user-IsConsistent :
      (fd : ℕ) (m : UserManager) → IsConsistent m → IsConsistent (update_user fd change m)
  unfolding update_user
  update_user-IsConsistent fd m c = elim (Option-cases (find fd m.fd_to_user_id)) [
    | inl e ↦ rw (e, update_user) c
    | inr (id, e) ↦
        let (u, there, fd_u, id_u) = c.to_user fd id e in
        rw (e, update_user)
          (rw (there, update_user)
            (record {
              distinct_users = Distinct-assign id (change u) m.users c.distinct_users;
              distinct_fds = c.distinct_fds;
              to_user = λ fd' id' h. elim (Bool-cases (id == id')) [
                | inl same ↦ (
                  change u,
                  ground (arith, find-assign id id' (change u) m.users),
                  ground (arith, same_fd u, c.to_user fd' id' h),
                  ground (arith, same_id u),
                )
                | inr differ ↦
                    let (x, found, fd_x, id_x) = c.to_user fd' id' h in
                    (x, ground (arith, find-assign id id' (change u) m.users), fd_x, id_x)
              ];
              to_fd = λ id' x h. ground (
                arith,
                same_fd u,
                find-assign id id' (change u) m.users,
                c.to_fd id u there,
                c.to_fd id' x,
              );
            }))
  ]

pub update_user-keys :
    (change : User → User) (fd : ℕ) (m : UserManager)
    → (update_user fd change m).fd_to_user_id ≡ m.fd_to_user_id
unfolding update_user
update_user-keys change fd m = ground arith
