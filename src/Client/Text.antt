-- ===== src/Client/Text.antt =====
-- Texts as bytes: the words of an input line, as `std::istringstream` cuts them.
use Prim.Native.Char.{code}
use Prim.Native.String.{String}
use cpp_epoll_chat.Base.{
  ℕ, zero, suc, List, [], ◌∷◌, Bool, true, false, ◌&&◌, ◌||◌, ◌==◌, take, length, get_elem?, none,
  some, if◌then◌else◌,
}
use cpp_epoll_chat.Decimal.{is_space, skip_spaces}

-- The code points of a literal, which are its bytes where it is ASCII.
abbrev pub codes : String → List ℕ
codes String.[] = []
codes (String.◌∷◌ c s) = code c ∷ codes s

unfoldable pub same_bytes : List ℕ → List ℕ → Bool
same_bytes [] [] = true
same_bytes (x ∷ xs) (y ∷ ys) = (x == y) && same_bytes xs ys
same_bytes _ _ = false

-- Up to the next space, and the rest.
unfoldable pub until_space : List ℕ → List ℕ × List ℕ
until_space [] = ([], [])
until_space (c ∷ s) =
    let rest = until_space s in if is_space c then ([], c ∷ s) else (c ∷ rest.0, rest.1)

-- `stream >> cmd`.
unfoldable pub take_word : List ℕ → List ℕ × List ℕ
unfolding skip_spaces until_space
take_word s = until_space (skip_spaces s)

-- `buf[n] == '\n' || buf[n] == '\r'`.
abbrev pub ends_line : List ℕ → ℕ → Bool
ends_line buf n = elim (get_elem? buf n) [ none ↦ false | some c ↦ (c == 10) || (c == 13) ]

-- The loop of `read_line` that takes line ends off the end.
unfoldable pub trimmed : List ℕ → ℕ → ℕ
trimmed buf zero = zero
trimmed buf (suc n) = elim (ends_line buf n) [ true ↦ trimmed buf n | false ↦ suc n ]

-- `read_line`, for what `read` brought: nothing stands for an end of the input or an error.
unfoldable pub read_line : List ℕ → List ℕ
unfolding trimmed
read_line buf = take (trimmed buf (length buf)) buf
