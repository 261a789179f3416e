-- ===== src/Float.antt =====
-- The f64 values of the program, as whole thousandths: 1.0 is `pos 1000`. Sums, differences and
-- comparisons are exact; products and quotients are cut to a thousandth towards zero. There is no
-- NaN and no infinity.
use uniondesk.Common.{ℕ, zero, suc, ◌+◌, ◌*◌, ◌/◌, Bool, ◌==◌, if◌then◌else◌}
use uniondesk.Common.Int.{ℤ, pos, negsuc, ◌*ℤ◌, pos_part, neg_part, ltb_ℤ, leb_ℤ}

abbrev pub Float : Type 0
Float = ℤ

-- A whole number.
abbrev pub whole : ℕ → Float
whole n = pos (n * 1000)

abbrev pub magnitude : Float → ℕ
magnitude a = pos_part a + neg_part a

abbrev pub abs : Float → Float
abs a = pos (magnitude a)

abbrev pub negate : ℕ → ℤ
negate zero = pos 0
negate (suc n) = negsuc n

-- The integer `x / k`, towards zero.
unfoldable pub quotient : ℤ → ℕ → ℤ
quotient (pos n) k = pos (n / k)
quotient (negsuc n) k = negate (suc n / k)

unfoldable pub mul : Float → Float → Float
unfolding quotient ◌*ℤ◌
mul a b = quotient (a *ℤ b) 1000

unfoldable pub divide : Float → Float → Float
unfolding quotient ◌*ℤ◌
divide a (pos d) = quotient (a *ℤ pos 1000) d
divide a (negsuc d) = quotient (a *ℤ negsuc 999) (suc d)

abbrev pub fmin : Float → Float → Float
fmin a b = if leb_ℤ a b then a else b

abbrev pub fmax : Float → Float → Float
fmax a b = if leb_ℤ a b then b else a

-- `x.clamp(lo, hi)`
abbrev pub clamp : Float → Float → Float → Float
clamp x lo hi = if ltb_ℤ x lo then lo else if ltb_ℤ hi x then hi else x

-- `x.abs() < f64::EPSILON`: below a thousandth there is only 0.
abbrev pub is_zero : Float → Bool
is_zero a = magnitude a == 0

-- `x.round()`, halves away from zero.
unfoldable pub round : Float → ℤ
round (pos n) = pos ((n + 500) / 1000)
round (negsuc n) = negate ((suc n + 500) / 1000)

-- `n as i32` of a rounded f64: a value out of range is cut to the nearest bound.
unfoldable pub to_i32 : ℤ → ℤ
to_i32 n =
    if ltb_ℤ n (negsuc 2147483647)
    then negsuc 2147483647
    else if ltb_ℤ (pos 2147483647) n
    then pos 2147483647
    else n

-- `n as f64`
abbrev pub of_int : ℤ → Float
of_int n = n *ℤ pos 1000
