-- ===== src/Room/Capacity.antt =====
-- The limit of a room (server/src/room/Room.cpp), and how its counter relates to its sessions.
use cpp_epoll_chat.Base.{ℕ, ◌≤◌, ◌<◌, ◌≡◌, ◌↔◌, true, false, arith}
use cpp_epoll_chat.Base.{◌⊎◌, length, if◌then◌else◌, ◌==◌}
use cpp_epoll_chat.Base.Map.{
  Distinct, Distinct-emplace, Distinct-erase, length-emplace, length-erase, find-emplace,
  find-erase,
}
use cpp_epoll_chat.Room.{SessionRef, Room, new_room, join_session, exit_session, find_session}

-- The map holds no key twice, and the counter lies between the number of sessions and the limit.
pub record IsValid (r : Room) : Type 0 where
  pub distinct : Distinct r.sessions
  pub counted : length r.sessions ≤ r.current_sessions
  pub limited : r.current_sessions ≤ r.max_sessions

pub new_room-IsValid : (room_id max : ℕ) → IsValid (new_room room_id max)
unfolding new_room
new_room-IsValid room_id max = record {
  distinct = tt;
  counted = omega arith;
  limited = omega arith;
}

pub join_session-IsValid : (s : SessionRef) (r : Room) → IsValid r → IsValid (join_session s r).1
unfolding join_session
join_session-IsValid s r v =
    ground (arith, Distinct-emplace s.fd s r.sessions v.distinct, length-emplace s.fd s r.sessions)

pub exit_session-IsValid : (fd : ℕ) (r : Room) → IsValid r → IsValid (exit_session fd r).1
unfolding exit_session
exit_session-IsValid fd r v =
    ground (arith, Distinct-erase fd r.sessions v.distinct, length-erase fd r.sessions)

-- The counter is exact.
abbrev pub IsExact : Room → Type 0
IsExact r = r.current_sessions ≡ length r.sessions

-- Joining keeps the counter exact exactly if the session was refused or is new to the room: a session
-- that joins a room again, before the room is full, is counted twice.
pub join_session-IsExact :
    (s : SessionRef) (r : Room)
    → IsExact r
    → IsExact (join_session s r).1 ↔ ((join_session s r).0 ≡ false) ⊎ (find_session s.fd r ≡ false)
unfolding join_session find_session
join_session-IsExact s r e = ground (arith, length-emplace s.fd s r.sessions)

-- Who is in the room afterwards: a session that was let in is found, one that was refused changes
-- nothing, and all others stay as they were.
pub find_session-join_session :
    (s : SessionRef) (r : Room) (fd : ℕ)
    → find_session fd (join_session s r).1 ≡ (
        if (join_session s r).0
        then (if s.fd == fd then true else find_session fd r)
        else find_session fd r)
unfolding join_session find_session
find_session-join_session s r fd = ground (arith, find-emplace s.fd fd s r.sessions)

-- Leaving tells whether the session was in the room; afterwards that one is not in it, and all others
-- are as before. The room is valid.
pub find_session-exit_session :
    (fd other : ℕ) (r : Room)
    → IsValid r
    → ((exit_session fd r).0 ≡ find_session fd r)
      × (find_session other (exit_session fd r).1
          ≡ (if fd == other then false else find_session other r))
unfolding exit_session find_session
find_session-exit_session fd other r v = ground (arith, find-erase fd other r.sessions v.distinct)

-- Leaving undoes the counting of one entry.
pub exit_session-IsExact : (fd : ℕ) (r : Room) → IsExact r → IsExact (exit_session fd r).1
unfolding exit_session
exit_session-IsExact fd r e = ground (arith, length-erase fd r.sessions)

pub join_session_admits :
    (s : SessionRef) (r : Room) → r.current_sessions < r.max_sessions → (join_session s r).0 ≡ true
unfolding join_session
join_session_admits s r h = ground arith

pub exit_session_last :
    (fd : ℕ) (r : Room)
    → find_session fd r ≡ true
    → r.current_sessions ≤ 1
    → ((exit_session fd r).0 ≡ true)
      × ((exit_session fd r).1.current_sessions ≤ 0)
      × ((exit_session fd r).1.room_id ≡ r.room_id)
unfolding exit_session find_session
exit_session_last fd r there last = ground arith

pub exit_session_found :
    (fd : ℕ) (r : Room) → find_session fd r ≡ true → (exit_session fd r).0 ≡ true
unfolding exit_session find_session
exit_session_found fd r there = ground arith
