-- ===== src/Base/Bytes.antt =====
-- Numbers as bytes in memory, lowest byte first, and back: what `memcpy` of an integer moves.
use Prim.Native.Nat.{ℕ, zero, suc, ◌+◌, ◌*◌, ◌/◌, ◌%◌, ◌^◌, ◌<◌}
use mathlib.Core.Path.{◌≡◌, refl, ap}
use mathlib.Core.List.{List, [], ◌∷◌}
use native.Mathlib.Omega.{arith}
use native.Mathlib.Nat.{pow-suc}
use cpp_epoll_chat.Base.Lists.{length, All}

abbrev pub IsByte : ℕ → Type 0
IsByte b = b < 256

unfoldable pub le_bytes : ℕ → ℕ → List ℕ
le_bytes zero v = []
le_bytes (suc n) v = (v % 256) ∷ le_bytes n (v / 256)

unfoldable pub of_le : List ℕ → ℕ
of_le [] = 0
of_le (b ∷ bs) = b + 256 * of_le bs

pub length-le_bytes : (n v : ℕ) → length (le_bytes n v) ≡ n
unfolding le_bytes
length-le_bytes zero v = refl
length-le_bytes (suc n) v = ap suc (length-le_bytes n (v / 256))

pub le_bytes-IsByte : (n v : ℕ) → All IsByte (le_bytes n v)
unfolding le_bytes
le_bytes-IsByte zero v = tt
le_bytes-IsByte (suc n) v = (omega arith, le_bytes-IsByte n (v / 256))

pub of_le-le_bytes : (n v : ℕ) → v < 256 ^ n → of_le (le_bytes n v) ≡ v
unfolding le_bytes of_le
of_le-le_bytes zero v h = omega arith
of_le-le_bytes (suc n) v h =
    omega (arith, of_le-le_bytes n (v / 256) (ground (arith, pow-suc 256 n)))

pub le_bytes-of_le : (bs : List ℕ) → All IsByte bs → le_bytes (length bs) (of_le bs) ≡ bs
unfolding le_bytes of_le
le_bytes-of_le [] h = refl
le_bytes-of_le (b ∷ bs) h =
    let q : (b + 256 * of_le bs) / 256 ≡ of_le bs = omega arith in
    let r : (b + 256 * of_le bs) % 256 ≡ b = omega arith in
    rw (q, r) (ap (◌∷◌ b) (le_bytes-of_le bs h.1))

pub of_le-lt : (bs : List ℕ) → All IsByte bs → of_le bs < 256 ^ length bs
unfolding of_le
of_le-lt [] h = omega arith
of_le-lt (b ∷ bs) h = omega (arith, of_le-lt bs h.1, pow-suc 256 (length bs))
