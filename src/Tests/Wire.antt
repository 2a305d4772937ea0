-- ===== src/Tests/Wire.antt =====
-- The wire formats (protocol) at concrete inputs.
use cpp_epoll_chat.Base.{ℕ, ◌≡◌, ◌^◌, ◌<◌, ◌++◌, refl, [], ◌∷◌, List, All, some, arith}
use cpp_epoll_chat.Base.Bytes.{le_bytes, of_le}
use cpp_epoll_chat.Codec.{put, put_str, take_int, take_bytes, reader}
use cpp_epoll_chat.Message.{Message, serialize, parse, put_message, put_messages, take_messages}
use cpp_epoll_chat.Message.RoundTrip.{Fits, parse-serialize}
use cpp_epoll_chat.Message.Canonical.{parse_canonical}

abbrev greeting : Message
greeting = record {
  id = 1;
  sender_id = 3;
  created_epoch = 1700000000;
  sender_nick = b'a' ∷ [];
  content = b'h' ∷ b'i' ∷ [];
}

greeting-Fits : Fits greeting
greeting-Fits = record {
  id = omega arith;
  sender_id = omega arith;
  created_epoch = omega arith;
  sender_nick = omega arith;
  content = omega arith;
}

parse-serialize_example : parse (serialize (greeting ∷ []) ++ (7 ∷ [])) ≡ some (greeting ∷ [])
unfolding serialize put_messages put_message put put_str le_bytes
parse-serialize_example =
    parse-serialize (greeting ∷ []) (7 ∷ []) (omega arith) (greeting-Fits, tt) (omega arith)

parse_canonical_example :
    (rest : List ℕ) × ((0 ∷ 0 ∷ 0 ∷ 0 ∷ 9 ∷ []) ≡ serialize [] ++ rest) × (0 < 2 ^ 32) × All Fits []
unfolding parse take_int take_bytes reader take_messages of_le
parse_canonical_example =
    parse_canonical (0 ∷ 0 ∷ 0 ∷ 0 ∷ 9 ∷ []) []
      (omega arith, (omega arith, (omega arith, (omega arith, (omega arith, tt))))) (omega arith)
      refl
