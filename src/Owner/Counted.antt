-- ===== src/Owner/Counted.antt =====
-- A descriptor has one owner, whatever is done with the objects of an `Owner`.
use cpp_epoll_chat.Base.{
  ℕ, ◌+◌, ◌≡◌, refl, List, [], ◌∷◌, ◌++◌, Option, none, some, false, ◌==◌, if◌then◌else◌, arith,
  Bool-cases, Option-cases, inl, inr,
}
use cpp_epoll_chat.Base.Map.{find, emplace, erase, assign, find-assign}
use cpp_epoll_chat.Owner.{
  Owner, Store, Use, makes, moves, assigns, releases, destroys, closes, made, handed_out, uses,
  uses_all,
}

abbrev pub count : ℕ → List ℕ → ℕ
count fd [] = 0
count fd (x ∷ xs) = (if x == fd then 1 else 0) + count fd xs

abbrev pub owns : ℕ → Option ℕ → ℕ
owns fd none = 0
owns fd (some x) = if x == fd then 1 else 0

count-append : (fd x : ℕ) (xs : List ℕ) → count fd (xs ++ (x ∷ [])) ≡ count fd xs + owns fd (some x)
count-append fd x [] = omega arith
count-append fd x (y ∷ xs) = omega (arith, count-append fd x xs)

count-handed_out :
    (fd : ℕ) (o : Option ℕ) (xs : List ℕ) → count fd (handed_out o xs) ≡ count fd xs + owns fd o
count-handed_out fd none xs = omega arith
count-handed_out fd (some x) xs = count-append fd x xs

count-closes :
    (fd : ℕ) (o : Option ℕ) (xs : List ℕ) → count fd (closes o xs) ≡ count fd xs + owns fd o
count-closes fd none xs = omega arith
count-closes fd (some x) xs = count-append fd x xs

module _ (owner : Owner) where
  open owner use {Object}

  -- How many objects own it.
  abbrev pub owners : ℕ → List (ℕ × Object) → ℕ
  owners fd [] = 0
  owners fd ((_, s) ∷ live) = owns fd (owner.fd_of s) + owners fd live

  owners-assign :
      (fd k : ℕ) (s t : Object) (live : List (ℕ × Object))
      → find k live ≡ some s
      → owners fd (assign k t live) + owns fd (owner.fd_of s)
        ≡ owners fd live + owns fd (owner.fd_of t)
  unfolding find assign
  owners-assign fd k s t [] e = cc
  owners-assign fd k s t ((j, u) ∷ live) e = ground (arith, owners-assign fd k s t live)

  owners-erase :
      (fd k : ℕ) (s : Object) (live : List (ℕ × Object))
      → find k live ≡ some s
      → owners fd (erase k live) + owns fd (owner.fd_of s) ≡ owners fd live
  unfolding find erase
  owners-erase fd k s [] e = cc
  owners-erase fd k s ((j, u) ∷ live) e = ground (arith, owners-erase fd k s live)

  owners-emplace :
      (fd k : ℕ) (s : Object) (live : List (ℕ × Object))
      → find k live ≡ none
      → owners fd (emplace k s live) ≡ owners fd live + owns fd (owner.fd_of s)
  unfolding find emplace
  owners-emplace fd k s [] e = omega arith
  owners-emplace fd k s ((j, u) ∷ live) e = ground (arith, owners-emplace fd k s live)

  -- Each descriptor that was opened has one owner, or was closed, or was handed out: as often as it was
  -- opened.
  abbrev pub IsOwned : ℕ → Store Object → Type 0
  IsOwned fd m = owners fd m.live + count fd m.closed + count fd m.released ≡ count fd m.opened

  makes-IsOwned :
      (fd x : ℕ) (answer : Option ℕ) (m : Store Object)
      → find x m.live ≡ none
      → IsOwned fd m
      → IsOwned fd (made owner x answer m)
  makes-IsOwned fd x none m q h = elim (Option-cases (owner.make none)) [
    | inl thrown ↦ rw (thrown, made) h
    | inr (s, made') ↦
        let live = owners-emplace fd x s m.live q in
        let empty : owns fd (owner.fd_of s) ≡ 0 = rw (owner.make_none s made') refl in
        rw (made', made) (omega arith)
  ]
  makes-IsOwned fd x (some new) m q h =
      let (s, makes', owned) = owner.make_some new in
      let live = owners-emplace fd x s m.live q in
      let opened = count-append fd new m.opened in
      let same : owns fd (owner.fd_of s) ≡ owns fd (some new) = rw owned refl in
      rw (makes', made) (omega arith)

  moves-IsOwned :
      (fd x y : ℕ) (other : Object) (m : Store Object)
      → find x m.live ≡ none
      → find y m.live ≡ some other
      → IsOwned fd m
      → IsOwned fd (uses owner (moves x y) m)
  unfolding uses
  moves-IsOwned fd x y other m q z h =
      let r = owner.move_from other in
      let (taken, left') = owner.move_from_lem other in
      let left = owners-assign fd y other r.1 m.live z in
      let free : find x (assign y r.1 m.live) ≡ none = ground (arith, find-assign y x r.1 m.live) in
      let live = owners-emplace fd x r.0 _ free in
      let mine : owns fd (owner.fd_of r.0) ≡ owns fd (owner.fd_of other) = rw taken refl in
      let gone : owns fd (owner.fd_of r.1) ≡ 0 = rw left' refl in rw (q, uses) (rw z (omega arith))

  assigns-IsOwned :
      (fd x y : ℕ) (s other : Object) (m : Store Object)
      → find x m.live ≡ some s
      → find y m.live ≡ some other
      → (x == y) ≡ false
      → IsOwned fd m
      → IsOwned fd (uses owner (assigns x y) m)
  unfolding uses
  assigns-IsOwned fd x y s other m q z differ h =
      let r = owner.move_assign s other m.closed in
      let (taken, left', closes') = owner.move_assign_lem s other m.closed in
      let left = owners-assign fd y other r.1 m.live z in
      let there : find x (assign y r.1 m.live) ≡ some s =
        ground (arith, find-assign y x r.1 m.live) in
      let live = owners-assign fd x s r.0 _ there in
      let mine : owns fd (owner.fd_of r.0) ≡ owns fd (owner.fd_of other) = rw taken refl in
      let gone : owns fd (owner.fd_of r.1) ≡ 0 = rw left' refl in
      let closed : count fd r.2 ≡ count fd m.closed + owns fd (owner.fd_of s) =
        rw closes' (count-closes fd (owner.fd_of s) m.closed) in
      rw (q, uses) (rw z (rw differ (omega arith)))

  uses-IsOwned : (fd : ℕ) (u : Use) (m : Store Object) → IsOwned fd m → IsOwned fd (uses owner u m)
  unfolding uses
  uses-IsOwned fd (makes x answer) m h = elim (Option-cases (find x m.live)) [
    | inl q ↦ rw (q, uses) (makes-IsOwned fd x answer m q h)
    | inr (s, q) ↦ rw (q, uses) h
  ]
  uses-IsOwned fd (moves x y) m h = elim (Option-cases (find x m.live)) [
    | inr (s, q) ↦ rw (q, uses) h
    | inl q ↦ elim (Option-cases (find y m.live)) [
      | inl z ↦ rw (q, uses) (rw z h)
      | inr (other, z) ↦ moves-IsOwned fd x y other m q z h
    ]
  ]
  uses-IsOwned fd (assigns x y) m h = elim (Option-cases (find x m.live)) [
    | inl q ↦ rw (q, uses) h
    | inr (s, q) ↦ elim (Option-cases (find y m.live)) [
      | inl z ↦ rw (q, uses) (rw z h)
      | inr (other, z) ↦ elim (Bool-cases (x == y)) [
        | inl same ↦ rw (q, uses) (rw z (rw same h))
        | inr differ ↦ assigns-IsOwned fd x y s other m q z differ h
      ]
    ]
  ]
  uses-IsOwned fd (releases x) m h = elim (Option-cases (find x m.live)) [
    | inl q ↦ rw (q, uses) h
    | inr (s, q) ↦ elim (Option-cases (owner.release s)) [
      | inl none' ↦ rw (q, uses) (rw none' h)
      | inr ((out, left), gives) ↦
          let (mine, gone) = owner.release_lem s left out gives in
          let live = owners-assign fd x s left m.live q in
          let empty : owns fd (owner.fd_of left) ≡ 0 = rw gone refl in
          let given : count fd (handed_out out m.released)
              ≡ count fd m.released + owns fd (owner.fd_of s) =
            rw mine (count-handed_out fd (owner.fd_of s) m.released) in
          rw (q, uses) (rw gives (omega arith))
    ]
  ]
  uses-IsOwned fd (destroys x) m h = elim (Option-cases (find x m.live)) [
    | inl q ↦ rw (q, uses) h
    | inr (s, q) ↦
        let live = owners-erase fd x s m.live q in
        let closed : count fd (owner.destroy s m.closed)
            ≡ count fd m.closed + owns fd (owner.fd_of s) =
          rw (owner.destroy_lem s m.closed) (count-closes fd (owner.fd_of s) m.closed) in
        rw (q, uses) (omega arith)
  ]

  pub uses_all-IsOwned :
      (fd : ℕ) (us : List Use) (m : Store Object) → IsOwned fd m → IsOwned fd (uses_all owner us m)
  unfolding uses_all
  uses_all-IsOwned fd [] m h = h
  uses_all-IsOwned fd (u ∷ rest) m h =
      uses_all-IsOwned fd rest (uses owner u m) (uses-IsOwned fd u m h)
