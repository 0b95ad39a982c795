-- ===== src/Common/Words.antt =====
-- Machine words as native numbers: casts, shifts and the operations of `unsigned` types. On the
-- program's platform `unsigned long` has 32 bits, as `unit32` has.
use Prim.Native.Nat.{ℕ, ◌+◌, ◌-◌, ◌*◌, ◌/◌, ◌%◌, ◌^◌, ◌<◌}
use mathlib.Core.List.{List, [], ◌∷◌}

abbrev pub u8 : ℕ → ℕ
u8 n = n % 2 ^ 8

abbrev pub u16 : ℕ → ℕ
u16 n = n % 2 ^ 16

abbrev pub u32 : ℕ → ℕ
u32 n = n % 2 ^ 32

abbrev pub u64 : ℕ → ℕ
u64 n = n % 2 ^ 64

abbrev pub IsByte : ℕ → Type 0
IsByte b = b < 256

-- `x >> n`, and `x << n` of a 32-bit word.
abbrev pub shr : ℕ → ℕ → ℕ
shr x n = x / 2 ^ n

abbrev pub shl : ℕ → ℕ → ℕ
shl x n = u32 (x * 2 ^ n)

-- `~x` of a 32-bit word.
abbrev pub not32 : ℕ → ℕ
not32 x = 2 ^ 32 - 1 - x

-- What `memcpy` into a word reads from four bytes, and the bytes that a word is stored as.
abbrev pub le32 : ℕ → ℕ → ℕ → ℕ → ℕ
le32 b0 b1 b2 b3 = b0 + b1 * 2 ^ 8 + b2 * 2 ^ 16 + b3 * 2 ^ 24

abbrev pub bytes_le32 : ℕ → List ℕ
bytes_le32 w = u8 w ∷ u8 (w / 2 ^ 8) ∷ u8 (w / 2 ^ 16) ∷ u8 (w / 2 ^ 24) ∷ []

abbrev pub bytes_le64 : ℕ → List ℕ
bytes_le64 w =
    u8 w
    ∷ u8 (w / 2 ^ 8)
    ∷ u8 (w / 2 ^ 16)
    ∷ u8 (w / 2 ^ 24)
    ∷ u8 (w / 2 ^ 32)
    ∷ u8 (w / 2 ^ 40)
    ∷ u8 (w / 2 ^ 48)
    ∷ u8 (w / 2 ^ 56)
    ∷ []

abbrev pub bytes_be32 : ℕ → List ℕ
bytes_be32 w = u8 (w / 2 ^ 24) ∷ u8 (w / 2 ^ 16) ∷ u8 (w / 2 ^ 8) ∷ u8 w ∷ []

abbrev pub bytes_be64 : ℕ → List ℕ
bytes_be64 w =
    u8 (w / 2 ^ 56)
    ∷ u8 (w / 2 ^ 48)
    ∷ u8 (w / 2 ^ 40)
    ∷ u8 (w / 2 ^ 32)
    ∷ u8 (w / 2 ^ 24)
    ∷ u8 (w / 2 ^ 16)
    ∷ u8 (w / 2 ^ 8)
    ∷ u8 w
    ∷ []

-- A byte array read as words, lowest byte first.
abbrev pub words_le : List ℕ → List ℕ
words_le (b0 ∷ b1 ∷ b2 ∷ b3 ∷ bs) = le32 b0 b1 b2 b3 ∷ words_le bs
words_le _ = []

abbrev pub words_be : List ℕ → List ℕ
words_be (b0 ∷ b1 ∷ b2 ∷ b3 ∷ bs) = le32 b3 b2 b1 b0 ∷ words_be bs
words_be _ = []
