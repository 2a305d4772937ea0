-- ===== src/RoomWorker/Steps.antt =====
-- One action at a time: what the loop of `RoomWorker::process_event` (server/src/room/RoomWorker.cpp)
-- comes to once the next action's end is known.
use cpp_epoll_chat.Base.{ℕ, suc, ◌+◌, ◌≡◌, refl, true, false, some, get_elem?}
use cpp_epoll_chat.Result.{is_success}
use cpp_epoll_chat.RoomEvent.{RoomEvent, RoomAction}
use cpp_epoll_chat.RoomWorker.Process.{
  returns, breaks, do_action, follow, fail_event, failed_before, process_loop,
}
use cpp_epoll_chat.World.{World}

-- The event with one more action begun.
abbrev pub begun : RoomEvent → RoomEvent
begun e = record e { current_action = e.current_action + 1 }

module _ (fuel k : ℕ) (e : RoomEvent) (a : RoomAction) (w : World)
    (next : get_elem? e.actions e.current_action ≡ some a) (fine : failed_before e ≡ false) where
  pub loop_returns :
      {w' : World}
      → do_action a.command k a (begun e) w ≡ returns w'
      → process_loop (suc fuel) k e w ≡ w'
  unfolding process_loop follow
  loop_returns d = rw (next, process_loop) (rw fine (rw d refl))

  pub loop_goes_on :
      {e' : RoomEvent} {w' : World}
      → do_action a.command k a (begun e) w ≡ breaks e' w'
      → is_success e'.result_code ≡ true
      → process_loop (suc fuel) k e w ≡ process_loop fuel k e' w'
  unfolding process_loop follow
  loop_goes_on d s = rw (next, process_loop) (rw fine (rw d (rw (s, follow) refl)))

  pub loop_fails :
      {e' : RoomEvent} {w' : World}
      → do_action a.command k a (begun e) w ≡ breaks e' w'
      → is_success e'.result_code ≡ false
      → process_loop (suc fuel) k e w ≡ fail_event e' w'
  unfolding process_loop follow
  loop_fails d s = rw (next, process_loop) (rw fine (rw d (rw (s, follow) refl)))
