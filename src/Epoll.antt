-- ===== src/Epoll.antt =====
-- server/src/core/Epoll.{h,cpp}: the server's epoll descriptor. The kernel's side of it, its interest list
-- and `epoll_ctl`, is a parameter; what `epoll_wait` answers is an argument.
use cpp_epoll_chat.Base.{
  ℕ, ◌≡◌, List, [], Bool, true, false, Option, none, some, ◌==◌, if◌then◌else◌,
}

pub data Ctl : Type 0 where
  ctl_add ctl_mod ctl_del : Ctl

-- The flags of an `epoll_event` that the server sets.
pub record Mask : Type 0 where
  pub epollin : Bool
  pub epollout : Bool
  pub epollet : Bool
  pub epollrdhup : Bool

-- `epoll_create1` gives no list where it fails, and `epoll_ctl` says whether it succeeded. Where an event
-- is given, its `data.fd` is the descriptor.
pub record Kernel : Type 1 where
  pub Interest : Type 0
  pub epoll_create1 : Option Interest
  pub epoll_ctl : Ctl → ℕ → Option Mask → Interest → Bool × Interest

-- EPOLLIN, EPOLLIN | EPOLLET | EPOLLRDHUP, and the latter with EPOLLOUT.
abbrev pub listening : Mask
listening = record { epollin = true; epollout = false; epollet = false; epollrdhup = false }

abbrev pub reading : Mask
reading = record { epollin = true; epollout = false; epollet = true; epollrdhup = true }

abbrev pub reading_and_writing : Mask
reading_and_writing = record (reading) { epollout = true }

module _ (kernel : Kernel) where
  open kernel use {Interest}

  -- The constructor; `none` is an exception.
  unfoldable pub new_epoll : Option Interest
  new_epoll = kernel.epoll_create1

  -- `false` is an exception.
  unfoldable pub add : ℕ → Mask → Interest → Bool × Interest
  add target_fd events = kernel.epoll_ctl ctl_add target_fd (some events)

  -- Whether the kernel knew the descriptor is not looked at.
  unfoldable pub remove : ℕ → Interest → Interest
  remove target_fd interest = (kernel.epoll_ctl ctl_del target_fd none interest).1

  unfoldable pub enable_epoll_out : ℕ → Interest → Bool × Interest
  enable_epoll_out fd = kernel.epoll_ctl ctl_mod fd (some reading_and_writing)

  unfoldable pub disable_epoll_out : ℕ → Interest → Bool × Interest
  disable_epoll_out fd = kernel.epoll_ctl ctl_mod fd (some reading)

-- What `epoll_wait` answers: the descriptors that are ready, EINTR, or another error.
pub data Waited {ℓ} (A : Type ℓ) : Type ℓ where
  woken : List A → Waited A
  interrupted wait_failed : Waited A

-- `none` is an exception; an interrupted wait reports nothing.
unfoldable pub wait {ℓ} : {A : Type ℓ} → Waited A → Option (List A)
wait (woken events) = some events
wait interrupted = some []
wait wait_failed = none

-- What the manual says of `epoll_ctl`: a descriptor is watched from when it is added until it is deleted,
-- and a call that fails changes nothing of this.
pub record Lawful (kernel : Kernel) : Type 0 where
  pub watched : ℕ → kernel.Interest → Bool
  pub watched-add :
      (fd other : ℕ) (mask : Mask) (interest : kernel.Interest)
      → (kernel.epoll_ctl ctl_add fd (some mask) interest).0 ≡ true
      → watched other (kernel.epoll_ctl ctl_add fd (some mask) interest).1
        ≡ (if fd == other then true else watched other interest)
  pub watched-refused :
      (fd other : ℕ) (mask : Mask) (interest : kernel.Interest)
      → (kernel.epoll_ctl ctl_add fd (some mask) interest).0 ≡ false
      → watched other (kernel.epoll_ctl ctl_add fd (some mask) interest).1 ≡ watched other interest
  pub watched-mod :
      (fd other : ℕ) (mask : Mask) (interest : kernel.Interest)
      → watched other (kernel.epoll_ctl ctl_mod fd (some mask) interest).1 ≡ watched other interest
  pub watched-del :
      (fd other : ℕ) (interest : kernel.Interest)
      → watched other (kernel.epoll_ctl ctl_del fd none interest).1
        ≡ (if fd == other then false else watched other interest)
