-- ===== src/Hash/Ripemd160/Tables.antt =====
-- The macro calls of `compress`, round by round: the index into X and the shift of each call. The
-- variables that the calls name rotate by one from call to call, over both lines of 80.
use Prim.Native.Nat.{ℕ}
use mathlib.Core.List.{List, [], ◌∷◌}

unfoldable pub left1 : List (ℕ × ℕ)
left1 =
    (0, 11)
    ∷ (1, 14)
    ∷ (2, 15)
    ∷ (3, 12)
    ∷ (4, 5)
    ∷ (5, 8)
    ∷ (6, 7)
    ∷ (7, 9)
    ∷ (8, 11)
    ∷ (9, 13)
    ∷ (10, 14)
    ∷ (11, 15)
    ∷ (12, 6)
    ∷ (13, 7)
    ∷ (14, 9)
    ∷ (15, 8)
    ∷ []

unfoldable pub left2 : List (ℕ × ℕ)
left2 =
    (7, 7)
    ∷ (4, 6)
    ∷ (13, 8)
    ∷ (1, 13)
    ∷ (10, 11)
    ∷ (6, 9)
    ∷ (15, 7)
    ∷ (3, 15)
    ∷ (12, 7)
    ∷ (0, 12)
    ∷ (9, 15)
    ∷ (5, 9)
    ∷ (2, 11)
    ∷ (14, 7)
    ∷ (11, 13)
    ∷ (8, 12)
    ∷ []

unfoldable pub left3 : List (ℕ × ℕ)
left3 =
    (3, 11)
    ∷ (10, 13)
    ∷ (14, 6)
    ∷ (4, 7)
    ∷ (9, 14)
    ∷ (15, 9)
    ∷ (8, 13)
    ∷ (1, 15)
    ∷ (2, 14)
    ∷ (7, 8)
    ∷ (0, 13)
    ∷ (6, 6)
    ∷ (13, 5)
    ∷ (11, 12)
    ∷ (5, 7)
    ∷ (12, 5)
    ∷ []

unfoldable pub left4 : List (ℕ × ℕ)
left4 =
    (1, 11)
    ∷ (9, 12)
    ∷ (11, 14)
    ∷ (10, 15)
    ∷ (0, 14)
    ∷ (8, 15)
    ∷ (12, 9)
    ∷ (4, 8)
    ∷ (13, 9)
    ∷ (3, 14)
    ∷ (7, 5)
    ∷ (15, 6)
    ∷ (14, 8)
    ∷ (5, 6)
    ∷ (6, 5)
    ∷ (2, 12)
    ∷ []

unfoldable pub left5 : List (ℕ × ℕ)
left5 =
    (4, 9)
    ∷ (0, 15)
    ∷ (5, 5)
    ∷ (9, 11)
    ∷ (7, 6)
    ∷ (12, 8)
    ∷ (2, 13)
    ∷ (10, 12)
    ∷ (14, 5)
    ∷ (1, 12)
    ∷ (3, 13)
    ∷ (8, 14)
    ∷ (11, 11)
    ∷ (6, 8)
    ∷ (15, 5)
    ∷ (13, 6)
    ∷ []

unfoldable pub right1 : List (ℕ × ℕ)
right1 =
    (5, 8)
    ∷ (14, 9)
    ∷ (7, 9)
    ∷ (0, 11)
    ∷ (9, 13)
    ∷ (2, 15)
    ∷ (11, 15)
    ∷ (4, 5)
    ∷ (13, 7)
    ∷ (6, 7)
    ∷ (15, 8)
    ∷ (8, 11)
    ∷ (1, 14)
    ∷ (10, 14)
    ∷ (3, 12)
    ∷ (12, 6)
    ∷ []

unfoldable pub right2 : List (ℕ × ℕ)
right2 =
    (6, 9)
    ∷ (11, 13)
    ∷ (3, 15)
    ∷ (7, 7)
    ∷ (0, 12)
    ∷ (13, 8)
    ∷ (5, 9)
    ∷ (10, 11)
    ∷ (14, 7)
    ∷ (15, 7)
    ∷ (8, 12)
    ∷ (12, 7)
    ∷ (4, 6)
    ∷ (9, 15)
    ∷ (1, 13)
    ∷ (2, 11)
    ∷ []

unfoldable pub right3 : List (ℕ × ℕ)
right3 =
    (15, 9)
    ∷ (5, 7)
    ∷ (1, 15)
    ∷ (3, 11)
    ∷ (7, 8)
    ∷ (14, 6)
    ∷ (6, 6)
    ∷ (9, 14)
    ∷ (11, 12)
    ∷ (8, 13)
    ∷ (12, 5)
    ∷ (2, 14)
    ∷ (10, 13)
    ∷ (0, 13)
    ∷ (4, 7)
    ∷ (13, 5)
    ∷ []

unfoldable pub right4 : List (ℕ × ℕ)
right4 =
    (8, 15)
    ∷ (6, 5)
    ∷ (4, 8)
    ∷ (1, 11)
    ∷ (3, 14)
    ∷ (11, 14)
    ∷ (15, 6)
    ∷ (0, 14)
    ∷ (5, 6)
    ∷ (12, 9)
    ∷ (2, 12)
    ∷ (13, 9)
    ∷ (9, 12)
    ∷ (7, 5)
    ∷ (10, 15)
    ∷ (14, 8)
    ∷ []

unfoldable pub right5 : List (ℕ × ℕ)
right5 =
    (12, 8)
    ∷ (15, 5)
    ∷ (10, 12)
    ∷ (4, 9)
    ∷ (1, 12)
    ∷ (5, 5)
    ∷ (8, 14)
    ∷ (7, 6)
    ∷ (6, 8)
    ∷ (2, 13)
    ∷ (13, 6)
    ∷ (14, 5)
    ∷ (0, 15)
    ∷ (3, 13)
    ∷ (9, 11)
    ∷ (11, 11)
    ∷ []
