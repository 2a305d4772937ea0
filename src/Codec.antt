-- ===== src/Codec.antt =====
-- protocol/Codec.h: writing to a byte vector, and the `Reader` over one. A `size_t` has 64 bits and a
-- length on the wire 32; integers are copied in the host's byte order, taken as little-endian.
pub mod Reading
use cpp_epoll_chat.Base.{ℕ, ◌+◌, ◌-◌, ◌%◌, ◌^◌, List, ◌++◌, Option, none, some, length, take, drop}
use cpp_epoll_chat.Base.{Bool, ltb, if◌then◌else◌}
use cpp_epoll_chat.Base.Bytes.{le_bytes, of_le}

-- `put(out, &v, n)` for an integer of `n` bytes.
unfoldable pub put : List ℕ → ℕ → ℕ → List ℕ
put out n v = out ++ le_bytes n v

-- The length is narrowed to `uint32_t`.
unfoldable pub put_str : List ℕ → List ℕ → List ℕ
unfolding put
put_str out s = put out 4 (length s % 2 ^ 32) ++ s

pub record Reader : Type 0 where
  pub buf : List ℕ
  pub off : ℕ

unfoldable pub reader : List ℕ → Reader
reader body = record { buf = body; off = 0 }

-- A read that reports `false` is `none`: each caller returns at once and drops the reader.
abbrev pub Read : Type 0 → Type 0
Read A = Reader → Option (A × Reader)

infixl 5 ◌>>=◌
abbrev pub ◌>>=◌ : {A B : Type 0} → Read A → (A → Read B) → Read B
◌>>=◌ m f r = elim (m r) [ none ↦ none | some (a, r') ↦ f a r' ]

abbrev pub pure : {A : Type 0} → A → Read A
pure a r = some (a, r)

-- `off_ + n > buf_.size()`, a sum of `size_t`s.
abbrev pub past_end : Reader → ℕ → Bool
past_end r n = ltb (length r.buf) ((r.off + n) % 2 ^ 64)

unfoldable pub take_bytes : ℕ → Read (List ℕ)
take_bytes n r =
    if past_end r n
    then none
    else some (take n (drop r.off r.buf), record r { off = (r.off + n) % 2 ^ 64 })

-- `take(&v, n)` for an integer of `n` bytes.
unfoldable pub take_int : ℕ → Read ℕ
take_int n = take_bytes n >>= λ bs. pure (of_le bs)

-- The text is taken behind the same test.
unfoldable pub take_str : Read (List ℕ)
take_str = take_int 4 >>= λ len. take_bytes len

unfoldable pub remaining : Reader → ℕ
remaining r = (length r.buf + 2 ^ 64 - r.off) % 2 ^ 64
