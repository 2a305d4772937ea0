-- ===== src/Decimal.antt =====
-- Decimal text of an `int64_t` that is given by its bit pattern, as bytes: `std::to_string`, and what
-- `std::stoll` and `>>` read, which is `none` where the one throws and the other fails.
pub mod RoundTrip
use cpp_epoll_chat.Base.{
  ℕ, zero, suc, ◌+◌, ◌-◌, ◌*◌, ◌/◌, ◌%◌, ◌^◌, List, [], ◌∷◌, Bool, true, false, ◌&&◌, ◌||◌, Option,
  none, some, ltb, leb, ◌==◌, if◌then◌else◌,
}

-- The digits of `n` in front of `acc`. A 64-bit number has 20 at most.
unfoldable pub digits_loop : ℕ → ℕ → List ℕ → List ℕ
digits_loop zero n acc = acc
digits_loop (suc fuel) n acc =
    let rest = digits_loop fuel (n / 10) ((48 + n % 10) ∷ acc) in
    if ltb n 10 then (48 + n) ∷ acc else rest

unfoldable pub to_string : ℕ → List ℕ
unfolding digits_loop
to_string v = if ltb v (2 ^ 63) then digits_loop 20 v [] else b'-' ∷ digits_loop 20 (2 ^ 64 - v) []

abbrev pub is_digit : ℕ → Bool
is_digit c = leb 48 c && leb c 57

-- Space, and the bytes from `\t` to `\r`.
abbrev pub is_space : ℕ → Bool
is_space c = (c == 32) || (leb 9 c && leb c 13)

unfoldable pub skip_spaces : List ℕ → List ℕ
skip_spaces [] = []
skip_spaces (c ∷ s) = if is_space c then skip_spaces s else c ∷ s

-- The value of the digits in front.
unfoldable pub scan : ℕ → List ℕ → ℕ
scan acc [] = acc
scan acc (c ∷ s) = elim (is_digit c) [ true ↦ scan (acc * 10 + (c - 48)) s | false ↦ acc ]

abbrev pub starts_digit : List ℕ → Bool
starts_digit [] = false
starts_digit (c ∷ s) = is_digit c

abbrev pub in_range : Bool → ℕ → Option ℕ
in_range true v = if leb v (2 ^ 63) then some ((2 ^ 64 - v) % 2 ^ 64) else none
in_range false v = if ltb v (2 ^ 63) then some v else none

-- Behind the sign: a digit at least, and a value in range.
unfoldable pub read_digits : Bool → List ℕ → Option ℕ
read_digits negative s = if starts_digit s then in_range negative (scan 0 s) else none

abbrev pub read_signed : List ℕ → Option ℕ
read_signed [] = none
read_signed (c ∷ s) =
    if c == b'-'
    then read_digits true s
    else if c == b'+'
    then read_digits false s
    else read_digits false (c ∷ s)

unfoldable pub read_int64 : List ℕ → Option ℕ
unfolding skip_spaces read_digits
read_int64 s = read_signed (skip_spaces s)
