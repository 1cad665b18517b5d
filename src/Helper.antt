-- ===== src/Helper.antt =====
-- The helpers of include/urx/helper.hpp. Arithmetic on doubles is an argument; their conversions
-- are in Double.
pub mod Close
use lib_urx.Base.{
  Run, ret, fault, List, length, true, false, not, ◌%◌, ◌^◌, ℕ, Bool, ◌||◌, ◌==◌, if◌then◌else◌, [],
  ◌∷◌, reverse,
}
use lib_urx.Bytes.{Bytes}
use lib_urx.Double.{double_lt}

-- The characters of "\t\n\v\f\r ".
abbrev pub is_space : ℕ → Bool
is_space c = c == 9 || c == 10 || c == 11 || c == 12 || c == 13 || c == 32

abbrev pub is_etx : ℕ → Bool
is_etx c = c == 3

-- `str.erase(0, str.find_first_not_of(set))`; where nothing else is found, all is erased.
unfoldable pub erase_front : (ℕ → Bool) → Bytes → Bytes
erase_front p [] = []
erase_front p (c ∷ cs) = let rest = erase_front p cs in if p c then rest else c ∷ cs

-- `str.erase(str.find_last_not_of(set) + 1)`.
unfoldable pub erase_back : (ℕ → Bool) → Bytes → Bytes
unfolding erase_front
erase_back p cs = reverse (erase_front p (reverse cs))

unfoldable pub trim : Bytes → Bytes
unfolding erase_front erase_back
trim str = erase_front is_etx (erase_front is_space (erase_back is_etx (erase_back is_space str)))

-- `PI`.
abbrev pub pi : ℕ
pi = 0x4009_21fb_5444_2d18

-- The first arguments multiply and divide doubles.
unfoldable pub deg_to_rad : (ℕ → ℕ → ℕ) → (ℕ → ℕ → ℕ) → ℕ → ℕ
deg_to_rad times over deg = over (times deg pi) 0x4066_8000_0000_0000

unfoldable pub rad_to_deg : (ℕ → ℕ → ℕ) → (ℕ → ℕ → ℕ) → ℕ → ℕ
rad_to_deg times over rad = over (times rad 0x4066_8000_0000_0000) pi

-- `ptr[7] &= 0x7f` of the eight bytes of a double.
unfoldable pub absf : ℕ → ℕ
absf val = val % 2 ^ 63

-- `absf(a - b) > epsilon`; the first argument subtracts doubles.
unfoldable pub is_far : (ℕ → ℕ → ℕ) → ℕ → ℕ → ℕ → Bool
unfolding absf double_lt
is_far minus epsilon a b = double_lt epsilon (absf (minus a b))

-- The loop of `close_vec`, over vectors of one size.
unfoldable pub all_close : (ℕ → ℕ → ℕ) → List ℕ → List ℕ → ℕ → Bool
all_close minus (a ∷ as_) (b ∷ bs) epsilon =
    let rest = all_close minus as_ bs epsilon in if is_far minus epsilon a b then false else rest
all_close minus _ _ epsilon = true

unfoldable pub close_vec : (ℕ → ℕ → ℕ) → List ℕ → List ℕ → ℕ → Bool
close_vec minus actual target epsilon =
    if not (length actual == length target) then false else all_close minus actual target epsilon

-- The first vector is an array whose size is not known; reading behind it is undefined.
unfoldable pub close_vec_unsafe : (ℕ → ℕ → ℕ) → List ℕ → List ℕ → ℕ → Run Bool
close_vec_unsafe minus actual [] epsilon = ret true
close_vec_unsafe minus [] (b ∷ bs) epsilon = fault
close_vec_unsafe minus (a ∷ as_) (b ∷ bs) epsilon =
    let rest = close_vec_unsafe minus as_ bs epsilon in
    if is_far minus epsilon a b then ret false else rest
