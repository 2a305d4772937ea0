-- ===== src/Session.antt =====
-- server/src/network/Session.{h,cpp}: one connection. What the kernel answers to the socket's calls is
-- a script in the session's state, one entry for each call of `recv` or `send`; when a script is used
-- up, the kernel answers that the call would block. A loop of the source that ends makes finitely many
-- calls, so a script stands for each of its runs.
pub mod Flush
pub mod Stream
pub mod Threads
pub mod Packets
pub mod Framing
pub mod Received
use cpp_epoll_chat.Base.{
  ℕ, zero, suc, ◌+◌, ◌-◌, ◌≡◌, List, [], ◌∷◌, ◌++◌, length, take, drop, Bool, true, false,
}
use cpp_epoll_chat.Base.{ltb, ◌==◌, if◌then◌else◌}
use cpp_epoll_chat.Protocol.{Packet, header_size, request_size, header_of, request_of}
use Prim.Native.Nat.{min}

-- `received bs` brings at least one byte; `closed` is the answer 0.
pub data RecvAnswer : Type 0 where
  received : List ℕ → RecvAnswer
  closed recv_would_block recv_interrupted recv_failed : RecvAnswer

-- `accepted n` takes `n` bytes, or what is left of the buffer if that is less.
pub data SendAnswer : Type 0 where
  accepted : ℕ → SendAnswer
  would_block interrupted failed : SendAnswer

pub record SendBuffer : Type 0 where
  pub buffer : List ℕ
  pub offset : ℕ

pub data FlushResult : Type 0 where
  complete pending error : FlushResult

-- `incoming` and `outgoing` are the kernel's scripts, and `sent` is every byte that it accepted.
pub record Session : Type 0 where
  pub fd : ℕ
  pub recv_buffer : List ℕ
  pub send_queue : List SendBuffer
  pub disconnecting : Bool
  pub sending : Bool
  pub incoming : List RecvAnswer
  pub outgoing : List SendAnswer
  pub sent : List ℕ

unfoldable pub new_session : ℕ → List RecvAnswer → List SendAnswer → Session
new_session fd incoming outgoing = record {
  fd = fd;
  recv_buffer = [];
  send_queue = [];
  disconnecting = false;
  sending = false;
  incoming = incoming;
  outgoing = outgoing;
  sent = [];
}

unfoldable pub mark_disconnecting : Session → Session
mark_disconnecting s = record s { disconnecting = true }

-- The loop of `on_readable`, over the script.
unfoldable pub recv_loop : List RecvAnswer → Session → Bool × Session
recv_loop [] s = (true, record s { incoming = [] })
recv_loop (received bs ∷ rest) s = recv_loop rest (record s { recv_buffer = s.recv_buffer ++ bs })
recv_loop (closed ∷ rest) s = (false, record s { disconnecting = true; incoming = rest })
recv_loop (recv_would_block ∷ rest) s = (true, record s { incoming = rest })
recv_loop (recv_interrupted ∷ rest) s = recv_loop rest s
recv_loop (recv_failed ∷ rest) s = (false, record s { disconnecting = true; incoming = rest })

unfoldable pub on_readable : Session → Bool × Session
unfolding recv_loop
on_readable s = recv_loop s.incoming s

-- The packet is an output parameter: what was read stays in it also when the rest is not there yet.
unfoldable pub extract_body : Session → Packet → Bool × Packet × Session
extract_body s p =
    let offset = header_size + request_size in
    let end = offset + p.request.body_len in
    if ltb 0 p.request.body_len
    then (if ltb (length s.recv_buffer) end then (false, p, s) else (
      true,
      record p { body = take p.request.body_len (drop offset s.recv_buffer) },
      record s { recv_buffer = drop end s.recv_buffer },
    ))
    else (true, p, record s { recv_buffer = drop offset s.recv_buffer })

unfoldable pub extract_packet : Session → Packet → Bool × Packet × Session
unfolding extract_body
extract_packet s p =
    let size = length s.recv_buffer in
    let p1 : Packet = record p { header = header_of s.recv_buffer } in
    let p2 : Packet = record p1 { request = request_of (drop header_size s.recv_buffer) } in
    if ltb size header_size
    then (false, p, s)
    else (if ltb size (header_size + request_size) then (false, p1, s) else extract_body s p2)

unfoldable pub pack : List ℕ → Session → Session
pack bytes s = record s {
  send_queue = s.send_queue ++ (record { buffer = bytes; offset = 0 } ∷ []);
}

-- How the inner loop of `flush` ends: the buffer is used up, or `flush` returns.
pub data SendEnd : Type 0 where
  done : SendEnd
  returns : FlushResult → SendEnd

pub record SendRun : Type 0 where
  pub ends : SendEnd
  pub buffer : SendBuffer
  pub written : List ℕ
  pub answers : List SendAnswer

abbrev pub left_over : SendBuffer → List ℕ
left_over b = drop b.offset b.buffer

abbrev pub advance : ℕ → SendBuffer → SendBuffer
advance n b = record b { offset = b.offset + min n (length b.buffer - b.offset) }

abbrev pub also_written : List ℕ → SendRun → SendRun
also_written bs run = record run { written = bs ++ run.written }

-- `while (buffer->offset < buffer->buffer.size())`; an answer of 0 bytes counts as an error.
unfoldable pub send_loop : List SendAnswer → SendBuffer → SendRun
send_loop [] b = record {
  ends = if ltb b.offset (length b.buffer) then returns pending else done;
  buffer = b;
  written = [];
  answers = [];
}
send_loop (a ∷ rest) b = elim (ltb b.offset (length b.buffer)) [
  | false ↦ record { ends = done; buffer = b; written = []; answers = a ∷ rest }
  | true ↦ elim a [
    | accepted n ↦ elim n [
      | zero ↦ record { ends = returns error; buffer = b; written = []; answers = rest }
      | suc m ↦ also_written (take (suc m) (left_over b)) (send_loop rest (advance (suc m) b))
    ]
    | would_block ↦ record { ends = returns pending; buffer = b; written = []; answers = rest }
    | interrupted ↦ send_loop rest b
    | failed ↦ record { ends = returns error; buffer = b; written = []; answers = rest }
  ]
]

pub record FlushRun : Type 0 where
  pub result : FlushResult
  pub queue : List SendBuffer
  pub written : List ℕ
  pub answers : List SendAnswer

abbrev pub then_written : List ℕ → FlushRun → FlushRun
then_written bs run = record run { written = bs ++ run.written }

-- The outer loop: each buffer that is used up is popped.
unfoldable pub flush_loop : List SendBuffer → List SendAnswer → FlushRun
flush_loop [] answers = record { result = complete; queue = []; written = []; answers = answers }
flush_loop (b ∷ queue) answers =
    let run = send_loop answers b in
    elim run.ends [
      | done ↦ then_written run.written (flush_loop queue run.answers)
      | returns r ↦ record {
        result = r;
        queue = run.buffer ∷ queue;
        written = run.written;
        answers = run.answers;
      }
    ]

-- `sending_` is set by `compare_exchange_strong`, and cleared again on each way out; while another
-- thread has it set, `flush` answers `Complete` and does nothing.
unfoldable pub flush : Session → FlushResult × Session
flush s =
    let run = flush_loop s.send_queue s.outgoing in
    if s.sending then (complete, s) else (
      run.result,
      record s {
        send_queue = run.queue;
        sending = false;
        outgoing = run.answers;
        sent = s.sent ++ run.written;
      },
    )
