-- ===== src/Owner.antt =====
-- Objects that own a descriptor: what the two classes `Socket` (server/src/network/Socket.{h,cpp} and
-- client/src/Socket.{h,cpp}) offer, and what a program can do with such objects.
pub mod Counted
use cpp_epoll_chat.Base.{ℕ, ◌≡◌, List, [], ◌∷◌, ◌++◌, Option, none, some, ◌==◌, if◌then◌else◌}
use cpp_epoll_chat.Base.Map.{find, emplace, erase, assign}

-- Closing the descriptor of an object, if it owns one. `closed` is every descriptor that was closed so
-- far, in order.
abbrev pub closes : Option ℕ → List ℕ → List ℕ
closes none closed = closed
closes (some fd) closed = closed ++ (fd ∷ [])

pub record Owner : Type 1 where
  pub Object : Type 0
  pub fd_of : Object → Option ℕ
  -- The constructor, for a descriptor or for none; its own `none` is an exception.
  pub make : Option ℕ → Option Object
  -- `none` where the class has no such operation.
  pub release : Object → Option (Option ℕ × Object)
  pub destroy : Object → List ℕ → List ℕ
  -- The new object, and what is left of the other.
  pub move_from : Object → Object × Object
  pub move_assign : Object → Object → List ℕ → Object × Object × List ℕ
  pub make_none : (s : Object) → make none ≡ some s → fd_of s ≡ none
  pub make_some : (fd : ℕ) → (s : Object) × (make (some fd) ≡ some s) × (fd_of s ≡ some fd)
  pub release_lem :
      (s left : Object) (fd : Option ℕ)
      → release s ≡ some (fd, left)
      → (fd ≡ fd_of s) × (fd_of left ≡ none)
  pub destroy_lem : (s : Object) (closed : List ℕ) → destroy s closed ≡ closes (fd_of s) closed
  pub move_from_lem :
      (other : Object)
      → (fd_of (move_from other).0 ≡ fd_of other) × (fd_of (move_from other).1 ≡ none)
  pub move_assign_lem :
      (s other : Object) (closed : List ℕ)
      → (fd_of (move_assign s other closed).0 ≡ fd_of other)
        × (fd_of (move_assign s other closed).1 ≡ none)
        × ((move_assign s other closed).2 ≡ closes (fd_of s) closed)

-- What a program does with its variables, which have numbers here.
pub data Use : Type 0 where
  makes : ℕ → Option ℕ → Use
  moves assigns : ℕ → ℕ → Use
  releases destroys : ℕ → Use

-- The objects that live, and the descriptors that were opened for one, closed by one, and handed out by
-- `release`.
pub record Store (Object : Type 0) : Type 0 where
  pub live : List (ℕ × Object)
  pub opened : List ℕ
  pub closed : List ℕ
  pub released : List ℕ

abbrev pub handed_out : Option ℕ → List ℕ → List ℕ
handed_out none released = released
handed_out (some fd) released = released ++ (fd ∷ [])

abbrev pub nothing : {Object : Type 0} → Store Object
nothing = record { live = []; opened = []; closed = []; released = [] }

module _ (owner : Owner) where
  open owner use {Object}

  abbrev pub made : ℕ → Option ℕ → Store Object → Store Object
  made x answer m = elim (owner.make answer) [
    | none ↦ m
    | some s ↦ record m { live = emplace x s m.live; opened = handed_out answer m.opened }
  ]

  -- A variable that does not live has no object: nothing is done. A variable that lives is not made
  -- again. An object that is assigned to itself stays as it is.
  unfoldable pub uses : Use → Store Object → Store Object
  uses (makes x answer) m = elim (find x m.live) [ none ↦ made x answer m | some _ ↦ m ]
  uses (moves x y) m = elim (find x m.live) [
    | some _ ↦ m
    | none ↦ elim (find y m.live) [
      | none ↦ m
      | some other ↦
          let r = owner.move_from other in record m { live = emplace x r.0 (assign y r.1 m.live) }
    ]
  ]
  uses (assigns x y) m = elim (find x m.live) [
    | none ↦ m
    | some s ↦ elim (find y m.live) [
      | none ↦ m
      | some other ↦
          let r = owner.move_assign s other m.closed in
          if x == y then m else record m { live = assign x r.0 (assign y r.1 m.live); closed = r.2 }
    ]
  ]
  uses (releases x) m = elim (find x m.live) [
    | none ↦ m
    | some s ↦ elim (owner.release s) [
      | none ↦ m
      | some (fd, left) ↦ record m {
        live = assign x left m.live;
        released = handed_out fd m.released;
      }
    ]
  ]
  uses (destroys x) m = elim (find x m.live) [
    | none ↦ m
    | some s ↦ record m { live = erase x m.live; closed = owner.destroy s m.closed }
  ]

  unfoldable pub uses_all : List Use → Store Object → Store Object
  unfolding uses
  uses_all [] m = m
  uses_all (u ∷ rest) m = uses_all rest (uses u m)
