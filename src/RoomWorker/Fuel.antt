-- ===== src/RoomWorker/Fuel.antt =====
-- The fuel of the loop in `RoomWorker::process_event` (server/src/room/RoomWorker.cpp) suffices.
use cpp_epoll_chat.Base.{
  ℕ, zero, suc, ◌+◌, ◌≤◌, ◌≡◌, refl, ap, List, [], ◌∷◌, length, get_elem?, arith,
}
use cpp_epoll_chat.Base.{none, Option-cases, Bool-cases, inl, inr, leb}
use cpp_epoll_chat.Base.Map.{find}
use cpp_epoll_chat.Result.{is_success}
use cpp_epoll_chat.RoomEvent.{RoomEvent, RoomAction, ActionCommand, begun_target}
use cpp_epoll_chat.RoomWorker.Process.{
  Flow, returns, breaks, null_sender, null_joiner, do_action, follow, failed_before, process_loop,
  process_event,
}
use cpp_epoll_chat.World.{World, rooms_of}

-- What the switch leaves alone: the plan, and the place in it.
abbrev pub KeepsPlan : RoomEvent → Flow → Type 0
KeepsPlan e (returns w) = Unit {0}
KeepsPlan e (breaks e' w) = (e'.actions ≡ e.actions) × (e'.current_action ≡ e.current_action)

null_sender-KeepsPlan : (k : ℕ) (e : RoomEvent) (w : World) → KeepsPlan e (null_sender k e w)
null_sender-KeepsPlan k e w = elim (Option-cases (find (begun_target e) (rooms_of k w))) [
  | inl q ↦ rw (q, null_sender) (refl, refl)
  | inr (r, q) ↦ rw (q, null_sender) tt
]

null_joiner-KeepsPlan : (k : ℕ) (e : RoomEvent) (w : World) → KeepsPlan e (null_joiner k e w)
null_joiner-KeepsPlan k e w = elim (Option-cases (find (begun_target e) (rooms_of k w))) [
  | inl q ↦ rw (q, null_joiner) (refl, refl)
  | inr (r, q) ↦ elim (Bool-cases (leb r.max_sessions r.current_sessions)) [
    | inl full ↦ rw (q, null_joiner) (rw full (refl, refl))
    | inr free ↦ rw (q, null_joiner) (rw free tt)
  ]
]

pub do_action-KeepsPlan :
    (c : ActionCommand) (k : ℕ) (a : RoomAction) (e : RoomEvent) (w : World)
    → KeepsPlan e (do_action c k a e w)
unfolding do_action
do_action-KeepsPlan ActionCommand.join_room k a e w = elim (Option-cases e.session) [
  | inl q ↦ rw (q, do_action) (null_joiner-KeepsPlan k e w)
  | inr (s, q) ↦ rw (q, do_action) (refl, refl)
]
do_action-KeepsPlan ActionCommand.leave_room k a e w = elim (Option-cases e.session) [
  | inl q ↦ rw (q, do_action) tt
  | inr (s, q) ↦ rw (q, do_action) (refl, refl)
]
do_action-KeepsPlan ActionCommand.send_message k a e w = elim (Option-cases e.session) [
  | inl q ↦ rw (q, do_action) (null_sender-KeepsPlan k e w)
  | inr (s, q) ↦ rw (q, do_action) (refl, refl)
]
do_action-KeepsPlan ActionCommand.flush k a e w = elim (Option-cases e.session) [
  | inl q ↦ rw (q, do_action) tt
  | inr (s, q) ↦ rw (q, do_action) tt
]
do_action-KeepsPlan ActionCommand.create_room k a e w = (refl, refl)
do_action-KeepsPlan ActionCommand.save_message k a e w = (refl, refl)
do_action-KeepsPlan ActionCommand.request_db_create_room k a e w = tt
do_action-KeepsPlan ActionCommand.request_db_load_message k a e w = tt
do_action-KeepsPlan ActionCommand.request_join_room k a e w = tt
do_action-KeepsPlan ActionCommand.request_leave_room k a e w = tt
do_action-KeepsPlan ActionCommand.send_response k a e w = tt
do_action-KeepsPlan ActionCommand.disconnect_session k a e w = tt

-- What lies behind the switch depends on the rest of the loop only for events with the same plan.
follow-KeepsPlan :
    (f g : RoomEvent → World → World) (e : RoomEvent) (flow : Flow)
    → KeepsPlan e flow
    → ((e' : RoomEvent) (w : World)
        → e'.actions ≡ e.actions
        → e'.current_action ≡ e.current_action
        → f e' w ≡ g e' w)
    → follow f flow ≡ follow g flow
unfolding follow
follow-KeepsPlan f g e (returns w) h same = refl
follow-KeepsPlan f g e (breaks e' w) h same = elim (Bool-cases (is_success e'.result_code)) [
  | inl q ↦ rw (q, follow) (same e' w h.0 h.1)
  | inr q ↦ rw (q, follow) refl
]

pub get_elem-beyond : (xs : List RoomAction) (i : ℕ) → length xs ≤ i → get_elem? xs i ≡ none
get_elem-beyond [] i h = refl
get_elem-beyond (x ∷ xs) zero h = absurd (omega arith)
get_elem-beyond (x ∷ xs) (suc i) h = get_elem-beyond xs i (omega arith)

process_loop_beyond :
    (fuel k : ℕ) (e : RoomEvent) (w : World)
    → length e.actions ≤ e.current_action
    → process_loop fuel k e w ≡ w
unfolding process_loop
process_loop_beyond zero k e w h = refl
process_loop_beyond (suc fuel) k e w h =
    rw (get_elem-beyond e.actions e.current_action h, process_loop) refl

process_loop_more :
    (fuel more k : ℕ) (e : RoomEvent) (w : World)
    → fuel ≤ more
    → length e.actions ≤ fuel + e.current_action
    → process_loop more k e w ≡ process_loop fuel k e w
unfolding process_loop
process_loop_more zero more k e w le h = process_loop_beyond more k e w (omega arith)
process_loop_more (suc fuel) zero k e w le h = absurd (omega arith)
process_loop_more (suc fuel) (suc more) k e w le h =
    elim (Option-cases (get_elem? e.actions e.current_action)) [
      | inl q ↦ rw (q, process_loop) refl
      | inr (a, q) ↦ elim (Bool-cases (failed_before e)) [
        | inl f ↦ rw (q, process_loop) (rw f refl)
        | inr f ↦
            let e1 : RoomEvent = record e { current_action = e.current_action + 1 } in
            let flow = do_action a.command k a e1 w in
            let rest =
              follow-KeepsPlan (process_loop more k) (process_loop fuel k) e1 flow
                (do_action-KeepsPlan a.command k a e1 w)
                (λ e' w' plan place.
                  process_loop_more fuel more k e' w' (omega arith)
                    (omega (arith, ap length plan, place))) in
            rw (q, process_loop) (rw f rest)
      ]
    ]

-- The loop ends by itself within the fuel that `process_event` gives it, the number of actions: with any
-- more fuel it does the same.
pub process_event_enough :
    (more k : ℕ) (e : RoomEvent) (w : World)
    → length e.actions ≤ more
    → process_loop more k e w ≡ process_event k e w
unfolding process_event
process_event_enough more k e w le =
    process_loop_more (length e.actions) more k e w le (omega arith)
