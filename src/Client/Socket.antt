-- ===== src/Client/Socket.antt =====
-- client/src/Socket.{h,cpp}: the client's connection, which blocks. What the kernel answers to `recv` and
-- `send` are scripts; behind the end of a script the connection is gone, so a call there fails.
use cpp_epoll_chat.Base.{
  ℕ, zero, suc, ◌-◌, List, [], ◌∷◌, ◌++◌, length, take, drop, Bool, true, false, Option, none, some,
  leb,
}
use cpp_epoll_chat.Session.{SendAnswer, accepted, would_block, interrupted, failed}

-- `arrives b bs` brings a byte and more: of these a `recv` takes what it asks for, and the rest waits.
pub data Arrival : Type 0 where
  arrives : ℕ → List ℕ → Arrival
  closes recv_interrupted recv_failed : Arrival

-- `sent` is every byte that the kernel accepted.
pub record Socket : Type 0 where
  pub send_buf : List ℕ
  pub arrivals : List Arrival
  pub answers : List SendAnswer
  pub sent : List ℕ

unfoldable pub pack : List ℕ → Socket → Socket
pack bytes s = record s { send_buf = s.send_buf ++ bytes }

abbrev pub kept : List ℕ → List Arrival → List Arrival
kept [] rest = rest
kept (b ∷ bs) rest = arrives b bs ∷ rest

abbrev pub behind : List ℕ → Option (List ℕ) × List Arrival → Option (List ℕ) × List Arrival
behind bytes (none, rest) = (none, rest)
behind bytes (some more, rest) = (some (bytes ++ more), rest)

-- `none` is a return of `false`: each caller returns at once, and drops its buffer.
unfoldable pub recv_all : ℕ → List Arrival → Option (List ℕ) × List Arrival
recv_all zero arrivals = (some [], arrivals)
recv_all (suc n) [] = (none, [])
recv_all (suc n) (arrives b bs ∷ rest) = elim (leb (length bs) n) [
  | true ↦ behind (b ∷ bs) (recv_all (n - length bs) rest)
  | false ↦ (some (b ∷ take n bs), kept (drop n bs) rest)
]
recv_all (suc n) (closes ∷ rest) = (none, rest)
recv_all (suc n) (recv_interrupted ∷ rest) = recv_all (suc n) rest
recv_all (suc n) (recv_failed ∷ rest) = (none, rest)

-- What `send_all` returns, the bytes that were taken, and the answers that are left.
pub record SendAll : Type 0 where
  pub ok : Bool
  pub written : List ℕ
  pub answers : List SendAnswer

abbrev pub also : List ℕ → SendAll → SendAll
also bytes r = record r { written = bytes ++ r.written }

unfoldable pub send_all : List ℕ → List SendAnswer → SendAll
send_all [] answers = record { ok = true; written = []; answers = answers }
send_all (b ∷ bs) [] = record { ok = false; written = []; answers = [] }
send_all (b ∷ bs) (accepted n ∷ rest) = elim n [
  | zero ↦ record { ok = false; written = []; answers = rest }
  | suc m ↦ also (take (suc m) (b ∷ bs)) (send_all (drop m bs) rest)
]
send_all (b ∷ bs) (would_block ∷ rest) = record { ok = false; written = []; answers = rest }
send_all (b ∷ bs) (interrupted ∷ rest) = send_all (b ∷ bs) rest
send_all (b ∷ bs) (failed ∷ rest) = record { ok = false; written = []; answers = rest }

-- The buffer is cleared whether or not all of it was sent.
unfoldable pub flush : Socket → Bool × Socket
flush s =
    let r = send_all s.send_buf s.answers in
    elim s.send_buf [
      | [] ↦ (true, s)
      | b ∷ bs ↦ (r.ok, record s { send_buf = []; answers = r.answers; sent = s.sent ++ r.written })
    ]
