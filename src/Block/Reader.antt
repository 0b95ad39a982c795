-- ===== src/Block/Reader.antt =====
-- The readers of BitcoinAnalysis/block.h. `transSec` is a list of bytes and `transPos` an index
-- into it; a read beyond the list's end, which C++ leaves undefined, is `none`.
pub mod RoundTrip
use bitcoin_analysis.Common.{
  ℕ, ◌+◌, ◌*◌, List, [], ◌∷◌, Option, none, some, leb, ltb, ◌==◌, if◌then◌else◌, length, take, drop,
}

-- The value of bytes, the lowest first.
abbrev pub le_value : List ℕ → ℕ
le_value [] = 0
le_value (b ∷ bs) = b + 256 * le_value bs

abbrev pub Reader : Type 0 → Type 0
Reader A = List ℕ → ℕ → Option (A × ℕ)

abbrev pub pure : {A : Type 0} → A → Reader A
pure a sec pos = some (a, pos)

abbrev pub go_on : {A B : Type 0} → (A → Reader B) → List ℕ → Option (A × ℕ) → Option (B × ℕ)
go_on f sec none = none
go_on f sec (some (a, pos)) = f a sec pos

infixl 5 ◌>>=◌
abbrev pub ◌>>=◌ : {A B : Type 0} → Reader A → (A → Reader B) → Reader B
◌>>=◌ m f sec pos = go_on f sec (m sec pos)

-- memcpy of `n` bytes, and the advance of the position.
unfoldable pub read_bytes : ℕ → Reader (List ℕ)
read_bytes n sec pos =
    if leb (pos + n) (length sec) then some (take n (drop pos sec), pos + n) else none

unfoldable pub read_u8 : Reader ℕ
read_u8 = do bs ← read_bytes 1; pure (le_value bs)

unfoldable pub read_u16 : Reader ℕ
read_u16 = do bs ← read_bytes 2; pure (le_value bs)

unfoldable pub read_u32 : Reader ℕ
read_u32 = do bs ← read_bytes 4; pure (le_value bs)

unfoldable pub read_u64 : Reader ℕ
read_u64 = do bs ← read_bytes 8; pure (le_value bs)

unfoldable pub read_hash : Reader (List ℕ)
read_hash = read_bytes 32

-- The marker 0xff falls through to `return false`, with nothing more read.
unfoldable pub read_var_len : Reader ℕ
read_var_len = do
  v ← read_u8
  if ltb v 0xfd
      then pure v
      else if v == 0xfd
      then read_u16
      else if v == 0xfe
      then read_u32
      else pure 0

unfoldable pub read_buffer_advance : ℕ → Reader (List ℕ)
read_buffer_advance read_length = read_bytes read_length
