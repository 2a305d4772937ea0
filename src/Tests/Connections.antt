-- ===== src/Tests/Connections.antt =====
-- Sessions (server/src/network/Session.cpp) at concrete states.
use cpp_epoll_chat.Base.{ℕ, ◌≡◌, ◌++◌, refl, [], ◌∷◌, List, some, arith, true, false}
use cpp_epoll_chat.Protocol.{serialize_packet, request_bytes, command_of, command_byte}
use cpp_epoll_chat.Session.{Session, extract_packet, pack, flush}
use cpp_epoll_chat.Session.Stream.{stream, packed, packs, flushes, send_calls, stream-send_calls}
use cpp_epoll_chat.Session.Threads.{
  Point, outside, wants, checks, sends, Shared, stands, Steps, adds_buffer, here, after, fresh,
  finds_front, takes, finds_busy, writes, blocks_or_fails,
}
use cpp_epoll_chat.Session.Threads.Alone.{Shows, flush-Steps}
use cpp_epoll_chat.Session.Threads.Orderly.{Orderly, threads-Orderly}
use cpp_epoll_chat.Session.Framing.{extract_all, extract_all_split}
use cpp_epoll_chat.Session.Packets.{extracted}
use cpp_epoll_chat.Session.Received.{extract_packet-serialize_packet}
use cpp_epoll_chat.Tests.Fixtures.{connection, request_to}

stream-send_calls_example :
    stream (send_calls (packs (3 ∷ []) ∷ flushes ∷ packs (4 ∷ []) ∷ []) (connection 0))
    ≡ stream (connection 0) ++ packed (packs (3 ∷ []) ∷ flushes ∷ packs (4 ∷ []) ∷ [])
stream-send_calls_example =
    stream-send_calls (packs (3 ∷ []) ∷ flushes ∷ packs (4 ∷ []) ∷ []) (connection 0)

-- Thread 0 begins to send while thread 1 packs, finds it at work and leaves; then the kernel takes no more.
abbrev raced_points : ℕ → Point
raced_points =
    stands 1 outside
      (stands 1 wants (stands 0 sends (stands 0 checks (stands 0 wants (λ t. outside)))))

abbrev raced : Shared
raced = record {
  queue = (2 ∷ []) ∷ (3 ∷ []) ∷ [];
  sending = false;
  packed = 1 ∷ 2 ∷ 3 ∷ [];
  written = 1 ∷ [];
  stalled = true;
  at = stands 0 outside (stands 0 sends raced_points);
}

abbrev race : Steps fresh raced
race = after (adds_buffer 0 (1 ∷ 2 ∷ []) _ refl) (
    after (takes 0 _ refl refl) (
      after (finds_front 0 _ _ _ refl refl) (
        after (adds_buffer 1 (3 ∷ []) _ refl) (
          after (finds_busy 1 _ refl refl) (
            after (writes 0 1 _ _ _ refl refl (omega arith) (omega arith))
              (after (blocks_or_fails 0 _ _ _ refl refl (λ e. cc)) (here raced)))))))

threads-Orderly_example : Orderly raced
threads-Orderly_example = threads-Orderly raced race

-- What the threads see of a connection on which two bytes wait.
abbrev two_wait : Shared
two_wait = record fresh { queue = (1 ∷ 2 ∷ []) ∷ []; packed = 1 ∷ 2 ∷ [] }

flush-Steps_example :
    ((v : Shared) × Steps two_wait v × (v.at 4 ≡ outside) × Shows (flush (connection 0)).1 v)
    × ((v : Shared) × Steps two_wait v
        × (v.at 4 ≡ outside)
        × Shows (flush (pack (3 ∷ []) (connection 0))).1 v)
flush-Steps_example =
    flush-Steps 4 (3 ∷ []) (connection 0) two_wait refl
      (record { queue = refl; written = refl; sending = refl })

-- A request to join room 5, and where it is cut.
abbrev whole_request : List ℕ
whole_request = serialize_packet (record { type = 1 }) (request_bytes 0 (request_to 5).request) []

abbrev half_request : List ℕ
half_request = 1 ∷ 5 ∷ 0 ∷ 0 ∷ 0 ∷ 0 ∷ 0 ∷ 0 ∷ 0 ∷ []

abbrev other_half : List ℕ
other_half = 0 ∷ 0 ∷ 0 ∷ 0 ∷ 2 ∷ 0 ∷ 0 ∷ 0 ∷ 1 ∷ []

abbrev receiving : List ℕ → Session
receiving bytes = record (connection 0) { recv_buffer = bytes }

extract_all_split_example :
    ((extract_all 18 (receiving (half_request ++ other_half))).0
      ≡ (extract_all 9 (receiving half_request)).0
        ++ (extract_all 18
            (receiving ((extract_all 9 (receiving half_request)).1.recv_buffer ++ other_half))).0)
    × ((extract_all 18 (receiving (half_request ++ other_half))).1.recv_buffer
        ≡ (extract_all 18 (
            receiving (
              (extract_all 9 (receiving half_request)).1.recv_buffer ++ other_half))).1.recv_buffer)
unfolding extract_all extract_packet
extract_all_split_example =
    extract_all_split 9 18 18 (receiving half_request) other_half (omega arith) (omega arith)
      (omega arith)

extract_packet-serialize_packet_example :
    extracted (extract_packet (receiving (whole_request ++ (1 ∷ []))) (request_to 0))
    ≡ some (request_to 5, 1 ∷ [])
unfolding command_of command_byte
extract_packet-serialize_packet_example =
    extract_packet-serialize_packet (receiving (whole_request ++ (1 ∷ []))) (request_to 0)
      (record { type = 1 }) 0 (request_to 5).request [] (1 ∷ []) refl refl (omega arith)
      (omega arith) refl (omega arith) refl (omega arith)
