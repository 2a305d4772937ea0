-- ===== src/Decimal/RoundTrip.antt =====
-- What `to_string` writes, `read_int64` reads.
use cpp_epoll_chat.Base.{
  ℕ, zero, suc, ◌+◌, ◌-◌, ◌*◌, ◌/◌, ◌%◌, ◌^◌, ◌<◌, ◌≤◌, ◌≡◌, refl, ap, ◌∙◌, List, [], ◌∷◌, true,
  false, some, ltb, Bool-cases, inl, inr, arith,
}
use cpp_epoll_chat.Decimal.{digits_loop, to_string, is_digit, scan, in_range, read_int64}
use native.Mathlib.Nat.{pow-suc}

scan_digit :
    (m d k : ℕ) (acc : List ℕ) → d < 10 → k ≡ m * 10 + d → scan m ((48 + d) ∷ acc) ≡ scan k acc
unfolding scan
scan_digit m d k acc h e = rw e (ground arith)

scan-digits_loop :
    (fuel n : ℕ) (acc : List ℕ)
    → n < 10 ^ suc fuel
    → scan 0 (digits_loop (suc fuel) n acc) ≡ scan n acc
unfolding digits_loop
scan-digits_loop zero n acc h = elim (Bool-cases (ltb n 10)) [
  | inl small ↦ rw (small, digits_loop) (scan_digit 0 n n acc (ground arith) (omega arith))
  | inr big ↦ absurd (ground arith)
]
scan-digits_loop (suc fuel) n acc h = elim (Bool-cases (ltb n 10)) [
  | inl small ↦ rw (small, digits_loop) (scan_digit 0 n n acc (ground arith) (omega arith))
  | inr big ↦
      rw (big, digits_loop)
        (scan-digits_loop fuel (n / 10) ((48 + n % 10) ∷ acc)
            (ground (arith, pow-suc 10 (suc fuel)))
          ∙ scan_digit (n / 10) (n % 10) n acc (omega arith) (omega arith))
]

-- The text begins with a digit.
abbrev Begins : List ℕ → Type 0
Begins xs = (c : ℕ) × (s : List ℕ) × (xs ≡ c ∷ s) × (is_digit c ≡ true)

Begins-digit : (d : ℕ) (acc : List ℕ) → d < 10 → Begins ((48 + d) ∷ acc)
Begins-digit d acc h = (48 + d, acc, refl, ground arith)

Begins-digits_loop : (fuel n : ℕ) (acc : List ℕ) → Begins acc → Begins (digits_loop fuel n acc)
unfolding digits_loop
Begins-digits_loop zero n acc h = h
Begins-digits_loop (suc fuel) n acc h = elim (Bool-cases (ltb n 10)) [
  | inl small ↦ rw (small, digits_loop) (Begins-digit n acc (ground arith))
  | inr big ↦
      rw (big, digits_loop)
        (Begins-digits_loop fuel (n / 10) ((48 + n % 10) ∷ acc)
          (Begins-digit (n % 10) acc (omega arith)))
]

Begins-digits : (fuel n : ℕ) (acc : List ℕ) → Begins (digits_loop (suc fuel) n acc)
unfolding digits_loop
Begins-digits fuel n acc = elim (Bool-cases (ltb n 10)) [
  | inl small ↦ rw (small, digits_loop) (Begins-digit n acc (ground arith))
  | inr big ↦
      rw (big, digits_loop)
        (Begins-digits_loop fuel (n / 10) ((48 + n % 10) ∷ acc)
          (Begins-digit (n % 10) acc (omega arith)))
]

read_unsigned : (xs : List ℕ) → Begins xs → read_int64 xs ≡ in_range false (scan 0 xs)
unfolding read_int64
read_unsigned xs (c, s, e, d) = rw e (ground arith)

read_negative : (xs : List ℕ) → Begins xs → read_int64 (b'-' ∷ xs) ≡ in_range true (scan 0 xs)
unfolding read_int64
read_negative xs (c, s, e, d) = rw e (ground arith)

in_range_pos : (v : ℕ) → v < 2 ^ 63 → in_range false (scan v []) ≡ some v
unfolding scan
in_range_pos v h = ground arith

in_range_neg : (v : ℕ) → 2 ^ 63 ≤ v → v < 2 ^ 64 → in_range true (scan (2 ^ 64 - v) []) ≡ some v
unfolding scan
in_range_neg v h k = ground arith

-- Every 64-bit pattern is read back from its text.
pub read_int64-to_string : (v : ℕ) → v < 2 ^ 64 → read_int64 (to_string v) ≡ some v
unfolding to_string
read_int64-to_string v h = elim (Bool-cases (ltb v (2 ^ 63))) [
  | inl pos ↦
      let digits = digits_loop 20 v [] in
      rw (pos, to_string)
        (read_unsigned digits (Begins-digits 19 v [])
          ∙ ap (in_range false) (scan-digits_loop 19 v [] (omega arith))
          ∙ in_range_pos v (ground arith))
  | inr neg ↦
      let m = 2 ^ 64 - v in
      let digits = digits_loop 20 m [] in
      rw (neg, to_string)
        (read_negative digits (Begins-digits 19 m [])
          ∙ ap (in_range true) (scan-digits_loop 19 m [] (omega arith))
          ∙ in_range_neg v (ground arith) h)
]
