-- ===== src/PacketType/Words.antt =====
-- Words of 8 bits in memory, the low byte first, and what a `short` stands for.
use easy_game_server.Prelude.{
  ℕ, zero, suc, ◌+◌, ◌-◌, ◌*◌, ◌/◌, ◌%◌, ◌^◌, ◌<◌, ◌≡◌, List, [], ◌∷◌, Bool, arith, ltb,
  if◌then◌else◌,
}

abbrev pub le_bytes : ℕ → ℕ → List ℕ
le_bytes zero n = []
le_bytes (suc w) n = n % 256 ∷ le_bytes w (n / 256)

abbrev pub of_le : List ℕ → ℕ
of_le [] = 0
of_le (b ∷ bytes) = b + 256 * of_le bytes

pub of_le-le_bytes_two : (n : ℕ) → n < 2 ^ 16 → of_le (le_bytes 2 n) ≡ n
of_le-le_bytes_two n h = omega arith

pub of_le-le_bytes_four : (n : ℕ) → n < 2 ^ 32 → of_le (le_bytes 4 n) ≡ n
of_le-le_bytes_four n h = omega arith

-- `(size_t) s` for a `short` with pattern `s`.
abbrev pub size_of_short : ℕ → ℕ
size_of_short s = if ltb s (2 ^ 15) then s else s + (2 ^ 32 - 2 ^ 16)

-- `a < b` for two `short`s: their order is that of the patterns with the sign bit turned over.
abbrev pub ltb_short : ℕ → ℕ → Bool
ltb_short a b = ltb ((a + 2 ^ 15) % 2 ^ 16) ((b + 2 ^ 15) % 2 ^ 16)
