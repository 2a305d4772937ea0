-- ===== src/Server/Requests.antt =====
-- Reading a connection in server/src/server/Server.cpp (`handle_request`): the packets that are whole are
-- dispatched in their order, and the rest stays.
use cpp_epoll_chat.Base.{
  ℕ, zero, suc, ◌≡◌, refl, ap, ◌∙◌, List, [], ◌∷◌, length, true, some, ◌==◌, if◌then◌else◌, arith,
  Bool-cases, Option-cases, inl, inr,
}
use cpp_epoll_chat.Base.Map.{find}
use cpp_epoll_chat.Protocol.{Packet}
use cpp_epoll_chat.Result.{is_success}
use cpp_epoll_chat.Room.{SessionRef}
use cpp_epoll_chat.RoomEvent.{RoomEvent}
use cpp_epoll_chat.RoomManager.Dispatch.{dispatch_packet, planned_event, fail_event}
use cpp_epoll_chat.RoomManager.Routing.{route_event, find_worker, lobby_worker_id}
use cpp_epoll_chat.Epoll.{Kernel}
use cpp_epoll_chat.Server.{Server, requests_loop, handle_packets, handle_request}
use cpp_epoll_chat.Session.{Session, on_readable, extract_packet, extract_body}
use cpp_epoll_chat.Session.Framing.{
  Cuts, Cuts-deterministic, extract_all, extract_all-Cuts, empty_packet,
}
use cpp_epoll_chat.SessionManager.{get_session}
use cpp_epoll_chat.World.{World, update, post_event}

-- The packets, handed to the manager one by one.
abbrev pub dispatch_all : List Packet → SessionRef → World → World
dispatch_all [] ref w = w
dispatch_all (p ∷ ps) ref w = dispatch_all ps ref (dispatch_packet p ref w)

abbrev with_heap : (ℕ → Session) → World → World
with_heap heap w = record w { heap = heap }

post_event-with_heap :
    (k : ℕ) (e : RoomEvent) (heap : ℕ → Session) (w : World)
    → post_event k e (with_heap heap w) ≡ with_heap heap (post_event k e w)
unfolding post_event
post_event-with_heap k e heap w = elim (Option-cases (find k w.workers)) [
  | inl q ↦ rw (q, post_event) refl
  | inr (x, q) ↦ rw (q, post_event) refl
]

route_event-with_heap :
    (e : RoomEvent) (target : ℕ) (heap : ℕ → Session) (w : World)
    → route_event e target (with_heap heap w)
      ≡ ((route_event e target w).0, with_heap heap (route_event e target w).1)
unfolding route_event find_worker
route_event-with_heap e target heap w =
    let worker_id = if target == 0 then find_worker e.target_room_id w else target in
    elim (Bool-cases (worker_id == 0)) [
      | inl z ↦ rw (z, route_event) refl
      | inr n ↦ rw (n, route_event) (rw (post_event-with_heap worker_id e heap w) refl)
    ]

dispatch_packet-with_heap :
    (p : Packet) (ref : SessionRef) (heap : ℕ → Session) (w : World)
    → dispatch_packet p ref (with_heap heap w) ≡ with_heap heap (dispatch_packet p ref w)
unfolding dispatch_packet
dispatch_packet-with_heap p ref heap w =
    let first = route_event-with_heap (planned_event p ref) 0 heap w in
    elim (Bool-cases (is_success (route_event (planned_event p ref) 0 w).0)) [
      | inl q ↦ rw (dispatch_packet, first, q) refl
      | inr q ↦
          rw (dispatch_packet, first, q)
            (rw
              (route_event-with_heap (fail_event p ref) lobby_worker_id heap
                (route_event (planned_event p ref) 0 w).1)
              refl)
    ]

dispatch_all-with_heap :
    (ps : List Packet) (ref : SessionRef) (heap : ℕ → Session) (w : World)
    → dispatch_all ps ref (with_heap heap w) ≡ with_heap heap (dispatch_all ps ref w)
dispatch_all-with_heap [] ref heap w = refl
dispatch_all-with_heap (p ∷ ps) ref heap w =
    rw (dispatch_packet-with_heap p ref heap w)
      (dispatch_all-with_heap ps ref heap (dispatch_packet p ref w))

update_self : (heap : ℕ → Session) (a : ℕ) → update heap a (heap a) ≡ heap
update_self heap a i j = at a (heap a) refl j i
  where
    at : (a : ℕ) (x : Session) → x ≡ heap a → (j : ℕ) → update heap a x j ≡ heap j
    at a x e j = ground (arith, ap heap)

update_twice :
    (heap : ℕ → Session) (a : ℕ) (x y : Session) → update (update heap a x) a y ≡ update heap a y
update_twice heap a x y i j = at j i
  where
    at : (j : ℕ) → update (update heap a x) a y j ≡ update heap a y j
    at j = ground arith

update_at : (heap : ℕ → Session) (a : ℕ) (x : Session) → update heap a x a ≡ x
update_at heap a x = ground arith

-- What the loop does, in one step: it dispatches what `extract_all` finds, and keeps its rest.
requests_loop_lem :
    (fuel : ℕ) (ref : SessionRef) (w : World)
    → let all = extract_all fuel (w.heap ref.address) in
      requests_loop fuel ref w
      ≡ with_heap (update w.heap ref.address all.1) (dispatch_all all.0 ref w)
unfolding requests_loop extract_all
requests_loop_lem zero ref w = rw (update_self w.heap ref.address) refl
requests_loop_lem (suc fuel) ref w =
    let r = extract_packet (w.heap ref.address) empty_packet in
    let heap' = update w.heap ref.address r.2 in
    let w' = dispatch_packet r.1 ref w in
    let rest = extract_all fuel r.2 in
    elim (Bool-cases r.0) [
      | inr no' ↦ rw (requests_loop, extract_all, no') refl
      | inl yes' ↦
          rw (requests_loop, extract_all, yes')
            (rw (dispatch_packet-with_heap r.1 ref heap' w) (
              rw (requests_loop_lem fuel ref (with_heap heap' w')) (
                rw (update_at w.heap ref.address r.2) (
                  rw
                    (
                      update_twice w.heap ref.address r.2 rest.1,
                      dispatch_all-with_heap rest.0 ref heap' w',
                    )
                    refl))))
    ]

extract_packet_keeps :
    (s : Session) (p : Packet)
    → (extract_packet s p).2 ≡ record s { recv_buffer = (extract_packet s p).2.recv_buffer }
unfolding extract_packet extract_body
extract_packet_keeps s p = ground arith

extract_all_keeps :
    (fuel : ℕ) (s : Session)
    → (extract_all fuel s).1 ≡ record s { recv_buffer = (extract_all fuel s).1.recv_buffer }
unfolding extract_all
extract_all_keeps zero s = refl
extract_all_keeps (suc fuel) s =
    let r = extract_packet s empty_packet in
    let keeps = extract_packet_keeps s empty_packet in
    elim (Bool-cases r.0) [
      | inr no' ↦ rw (extract_all, no') keeps
      | inl yes' ↦
          rw (extract_all, yes')
            (extract_all_keeps fuel r.2
              ∙ ap
                  (λ (x : Session). record x { recv_buffer = (extract_all fuel r.2).1.recv_buffer })
                  keeps)
    ]

module _ (kernel : Kernel) where
  open kernel use {Interest}

  -- A readable connection with a session: with what the kernel has for it received, the packets that lie
  -- whole at the front of its bytes are dispatched in their order, and nothing else is done but that
  -- the session keeps the rest of the bytes.
  pub handle_request-Cuts :
      (fd : ℕ) (s : Server Interest) (ref : SessionRef) (ps : List Packet) (rest : List ℕ)
      → get_session fd s.session_manager ≡ some ref
      → (on_readable (s.world.heap ref.address)).0 ≡ true
      → Cuts (on_readable (s.world.heap ref.address)).1.recv_buffer ps rest
      → let session = (on_readable (s.world.heap ref.address)).1 in
        handle_request kernel fd s ≡ record s {
          world =
              with_heap
                (update s.world.heap ref.address (record session { recv_buffer = rest }))
                (dispatch_all ps ref s.world);
        }
  unfolding handle_request handle_packets
  handle_request-Cuts fd s ref ps rest found alive cuts =
      let session = (on_readable (s.world.heap ref.address)).1 in
      let fuel = suc (length session.recv_buffer) in
      let heap' = update s.world.heap ref.address session in
      let (same, left) = Cuts-deterministic (extract_all-Cuts fuel session (omega arith)) cuts in
      let all = extract_all fuel session in
      rw (handle_request, found, alive)
        (rw (update_at s.world.heap ref.address session) (
          rw (requests_loop_lem fuel ref (with_heap heap' s.world)) (
            rw (update_at s.world.heap ref.address session) (
              rw
                (
                  update_twice s.world.heap ref.address session all.1,
                  dispatch_all-with_heap all.0 ref heap' s.world,
                  same,
                  extract_all_keeps fuel session,
                  left,
                )
                refl))))
