-- ===== src/Double.antt =====
-- IEEE 754 doubles as their 64 bits: the comparisons, and the byte-order conversions of
-- include/urx/helper.hpp. Arithmetic on doubles is not modelled.
use lib_urx.Base.{ℕ, ◌-◌, ◌%◌, ◌^◌, Bool, false, not, ◌&&◌, ◌||◌, ltb, if◌then◌else◌}
use lib_urx.Bytes.{bswap}

-- The bits without the sign: the order of the magnitudes is that of these numbers.
abbrev magnitude : ℕ → ℕ
magnitude d = d % 2 ^ 63

abbrev is_signed : ℕ → Bool
is_signed d = ltb (2 ^ 63 - 1) (d % 2 ^ 64)

abbrev pub is_nan : ℕ → Bool
is_nan d = ltb 0x7ff0_0000_0000_0000 (magnitude d)

-- a < b: false where one is not a number, and the two zeros are equal.
unfoldable pub double_lt : ℕ → ℕ → Bool
double_lt a b =
    if is_nan a || is_nan b
    then false
    else if is_signed a
    then if is_signed b
      then ltb (magnitude b) (magnitude a)
      else ltb 0 (magnitude a) || ltb 0 (magnitude b)
    else not (is_signed b) && ltb (magnitude a) (magnitude b)

-- `double_be` reads a big-endian double, `double_h` makes one.
unfoldable pub double_be : ℕ → ℕ
double_be d = bswap 8 d

unfoldable pub double_h : ℕ → ℕ
double_h d = bswap 8 d

abbrev pub double_1 : ℕ
double_1 = 0x3ff0_0000_0000_0000

abbrev pub double_125 : ℕ
double_125 = 0x405f_4000_0000_0000
