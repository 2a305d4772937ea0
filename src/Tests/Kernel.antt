-- ===== src/Tests/Kernel.antt =====
-- A kernel's side of epoll (server/src/core/Epoll.cpp) that behaves as the manual says.
use cpp_epoll_chat.Base.{
  ℕ, ◌≡◌, refl, ap, List, Bool, true, false, Option, none, some, ◌==◌, if◌then◌else◌, arith,
}
use cpp_epoll_chat.Base.Map.{find}
use cpp_epoll_chat.Epoll.{Kernel, Lawful, Mask, Ctl, ctl_add, ctl_mod, ctl_del, listening}

-- The flags that a kernel keeps for each descriptor that it watches.
abbrev pub Watches : Type 0
Watches = ℕ → Option Mask

abbrev pub known : List (ℕ × Mask) → Watches
known interest fd = find fd interest

abbrev set : ℕ → Option Mask → Watches → Watches
set fd mask interest x = if fd == x then mask else interest x

abbrev is_some : Option Mask → Bool
is_some none = false
is_some (some _) = true

-- A call of `epoll_ctl`, with the flags that there were before.
abbrev changed : Ctl → ℕ → Option Mask → Option Mask → Watches → Bool × Watches
changed ctl_add fd mask none interest = (true, set fd mask interest)
changed ctl_add fd mask (some _) interest = (false, interest)
changed ctl_mod fd mask none interest = (false, interest)
changed ctl_mod fd none (some before) interest = (false, interest)
changed ctl_mod fd (some mask) (some before) interest = (true, set fd (some mask) interest)
changed ctl_del fd mask none interest = (false, interest)
changed ctl_del fd mask (some _) interest = (true, set fd none interest)

-- A kernel that refuses a descriptor that it watches to be added, and any other to be changed or deleted.
abbrev pub kernel : Kernel
kernel = record {
  Interest = Watches;
  epoll_create1 = some (λ fd. none);
  epoll_ctl = λ ctl fd mask interest. changed ctl fd mask (interest fd) interest;
}

watched-changed :
    (fd other : ℕ) (mask : Mask) (before : Option Mask) (interest : Watches)
    → interest fd ≡ before
    → ((changed ctl_add fd (some mask) before interest).0 ≡ true
        → is_some ((changed ctl_add fd (some mask) before interest).1 other)
          ≡ (if fd == other then true else is_some (interest other)))
      × ((changed ctl_add fd (some mask) before interest).0 ≡ false
          → is_some ((changed ctl_add fd (some mask) before interest).1 other)
            ≡ is_some (interest other))
      × (is_some ((changed ctl_mod fd (some mask) before interest).1 other)
          ≡ is_some (interest other))
      × (is_some ((changed ctl_del fd none before interest).1 other)
          ≡ (if fd == other then false else is_some (interest other)))
watched-changed fd other mask none interest e =
    (λ q. ground arith, λ q. ground arith, refl, ground (arith, ap is_some e))
watched-changed fd other mask (some m) interest e =
    (λ q. ground arith, λ q. refl, ground (arith, ap is_some e), ground (arith, ap is_some e))

pub kernel-Lawful : Lawful kernel
kernel-Lawful = record {
  watched = λ fd interest. is_some (interest fd);
  watched-add =
      λ fd other mask interest. (watched-changed fd other mask (interest fd) interest refl).0;
  watched-refused =
      λ fd other mask interest. (watched-changed fd other mask (interest fd) interest refl).1;
  watched-mod =
      λ fd other mask interest. (watched-changed fd other mask (interest fd) interest refl).2;
  watched-del =
      λ fd other interest. (watched-changed fd other listening (interest fd) interest refl).3;
}
