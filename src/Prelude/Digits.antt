-- ===== src/Prelude/Digits.antt =====
-- The decimal digits of Python's texts: `\d` of `re`, and `int` on them.
use Prim.Native.Nat.{ℕ, ◌+◌, ◌-◌}
use mathlib.Core.Bool.{Bool, ◌&&◌}
use mathlib.Core.List.{List, [], ◌∷◌}
use gamehub.Prelude.Tests.{leb, ltb, if◌then◌else◌}
use gamehub.Prelude.Lists.{any}

-- The code points of the digits for zero, of Unicode 15; those for one to nine follow each.
abbrev zeros : List ℕ
zeros =
    48 ∷ 1632 ∷ 1776 ∷ 1984 ∷ 2406 ∷ 2534 ∷ 2662 ∷ 2790 ∷ 2918 ∷ 3046 ∷ 3174 ∷ 3302 ∷ 3430 ∷ 3558
    ∷ 3664 ∷ 3792 ∷ 3872 ∷ 4160 ∷ 4240 ∷ 6112 ∷ 6160 ∷ 6470 ∷ 6608 ∷ 6784 ∷ 6800 ∷ 6992 ∷ 7088
    ∷ 7232 ∷ 7248 ∷ 42528 ∷ 43216 ∷ 43264 ∷ 43472 ∷ 43504 ∷ 43600 ∷ 44016 ∷ 65296 ∷ 66720 ∷ 68912
    ∷ 69734 ∷ 69872 ∷ 69942 ∷ 70096 ∷ 70384 ∷ 70736 ∷ 70864 ∷ 71248 ∷ 71360 ∷ 71472 ∷ 71904 ∷ 72016
    ∷ 72784 ∷ 73040 ∷ 73120 ∷ 73552 ∷ 92768 ∷ 92864 ∷ 93008 ∷ 120782 ∷ 120792 ∷ 120802 ∷ 120812
    ∷ 120822 ∷ 123200 ∷ 123632 ∷ 124144 ∷ 125264 ∷ 130032 ∷ []

-- `\d` on a code point
unfoldable pub is_decimal : ℕ → Bool
is_decimal c = any (λ z. leb z c && ltb c (z + 10)) zeros

value_from : List ℕ → ℕ → ℕ
value_from [] c = 0
value_from (z ∷ zs) c =
    let rest = value_from zs c in if leb z c && ltb c (z + 10) then c - z else rest

-- The value of a digit.
unfoldable pub decimal_value : ℕ → ℕ
unfolding value_from
decimal_value c = value_from zeros c
