-- ===== src/Magic/Lookup/Laws.antt =====
-- What a lookup finds.
use Prim.Native.String.{String}
use lib_urx.Base.{
  ℕ, zero, suc, ◌+◌, ◌<◌, ◌≡◌, refl, Bool, true, false, ◌&&◌, List, [], ◌∷◌, some, length, arith,
  sym, All, ◌∙◌, ap, ==_iff,
}
use lib_urx.Magic.Types.{
  vector6uint32, string, in_use, not_found, type_code, DataType, bool, uint8, uint32, uint64, int32,
  double, vector3d, vector6d, vector6int32, same_type, type_code,
}
use lib_urx.Magic.Names.{DataName, name_to_idx_from, type_at}
use lib_urx.Magic.Lookup.{
  input_name_to_idx, output_name_to_idx, input_name_to_type, output_name_to_type, rtde_output_names,
}
use lib_urx.Magic.InputNames.{rtde_input_names}

-- Every element passes a test.
check_all : (DataName → Bool) → List DataName → Bool
check_all p [] = true
check_all p (e ∷ es) = p e && check_all p es

check_all-type_at :
    (p : DataName → Bool) (q : DataType → Bool) (es : List DataName) (i : ℕ)
    → ((e : DataName) → p e ≡ true → q e.type ≡ true)
    → check_all p es ≡ true
    → i < length es
    → q (type_at es i) ≡ true
unfolding check_all type_at
check_all-type_at p q [] i h c lt = absurd (omega arith)
check_all-type_at p q (e ∷ es) zero h c lt = ground (arith, h e)
check_all-type_at p q (e ∷ es) (suc i) h c lt =
    check_all-type_at p q es i h (ground arith) (omega arith)

name_to_idx_from-lt :
    (k : ℕ) (s : String) (es : List DataName) (i : ℕ)
    → name_to_idx_from k s es ≡ some i
    → i < k + length es
unfolding name_to_idx_from
name_to_idx_from-lt k s [] i h = cc
name_to_idx_from-lt k s (e ∷ es) i h = ground (arith, name_to_idx_from-lt (k + 1) s es i)

-- The types that a field of an input recipe can be given.
abbrev pub is_input_type : DataType → Bool
is_input_type bool = true
is_input_type uint8 = true
is_input_type uint32 = true
is_input_type int32 = true
is_input_type double = true
is_input_type _ = false

abbrev pub is_output_type : DataType → Bool
is_output_type bool = true
is_output_type uint8 = true
is_output_type uint32 = true
is_output_type uint64 = true
is_output_type int32 = true
is_output_type double = true
is_output_type vector3d = true
is_output_type vector6d = true
is_output_type vector6int32 = true
is_output_type _ = false

input_types : check_all (λ e. is_input_type e.type) rtde_input_names ≡ true
unfolding check_all rtde_input_names
input_types = refl

output_types : check_all (λ e. is_output_type e.type) rtde_output_names ≡ true
unfolding check_all rtde_output_names
output_types = refl

input_length : length rtde_input_names ≡ 111
unfolding rtde_input_names
input_length = refl

output_length : length rtde_output_names ≡ 257
unfolding rtde_output_names
output_length = refl

-- A name that is found in the table of inputs has a type that an input field can send.
pub input_idx_type :
    (s : String) (i : ℕ)
    → input_name_to_idx s ≡ some i
    → is_input_type (type_at rtde_input_names i) ≡ true
unfolding input_name_to_idx
input_idx_type s i h =
    check_all-type_at (λ e. is_input_type e.type) is_input_type rtde_input_names i (λ e k. k)
      input_types (name_to_idx_from-lt 0 s rtde_input_names i h)

pub output_idx_type :
    (s : String) (i : ℕ)
    → output_name_to_idx s ≡ some i
    → is_output_type (type_at rtde_output_names i) ≡ true
unfolding output_name_to_idx
output_idx_type s i h =
    check_all-type_at (λ e. is_output_type e.type) is_output_type rtde_output_names i (λ e k. k)
      output_types (name_to_idx_from-lt 0 s rtde_output_names i h)

-- The type at a place, NOT_FOUND behind the last.
pick : List DataType → ℕ → DataType
pick [] n = not_found
pick (t ∷ ts) zero = t
pick (t ∷ ts) (suc n) = pick ts n

decode : ℕ → DataType
unfolding pick
decode n =
    pick
      (bool ∷ uint8 ∷ uint32 ∷ uint64 ∷ int32 ∷ double ∷ vector3d ∷ vector6d ∷ vector6int32
        ∷ vector6uint32 ∷ string ∷ in_use ∷ [])
      n

decode-type_code : (t : DataType) → decode (type_code t) ≡ t
unfolding decode
decode-type_code bool = refl
decode-type_code uint8 = refl
decode-type_code uint32 = refl
decode-type_code uint64 = refl
decode-type_code int32 = refl
decode-type_code double = refl
decode-type_code vector3d = refl
decode-type_code vector6d = refl
decode-type_code vector6int32 = refl
decode-type_code vector6uint32 = refl
decode-type_code string = refl
decode-type_code in_use = refl
decode-type_code not_found = refl

same_type_lem : (a b : DataType) → same_type a b ≡ true → a ≡ b
same_type_lem a b h =
    sym (decode-type_code a)
    ∙ ap decode ((==_iff (type_code a) (type_code b)).0 h)
    ∙ decode-type_code b

agrees : (String → DataType) → DataName → Bool
agrees f e = same_type (f e.name) e.type

input_agrees : check_all (agrees input_name_to_type) rtde_input_names ≡ true
unfolding check_all agrees input_name_to_type
input_agrees = refl

output_agrees : check_all (agrees output_name_to_type) rtde_output_names ≡ true
unfolding check_all agrees output_name_to_type
output_agrees = refl

check_all-All :
    (f : String → DataType) (es : List DataName)
    → check_all (agrees f) es ≡ true
    → All (λ e. f e.name ≡ e.type) es
unfolding check_all agrees
check_all-All f [] h = tt
check_all-All f (e ∷ es) h =
    (same_type_lem (f e.name) e.type (ground (arith, h)), check_all-All f es (ground (arith, h)))

-- Looking up the name of any entry of the table of inputs gives the type of that entry, and the same
-- holds for the table of outputs: no entry stands behind another of its name with another type.
pub name_to_type-agrees :
    All (λ e. input_name_to_type e.name ≡ e.type) rtde_input_names
    × All (λ e. output_name_to_type e.name ≡ e.type) rtde_output_names
name_to_type-agrees = (
  check_all-All input_name_to_type rtde_input_names input_agrees,
  check_all-All output_name_to_type rtde_output_names output_agrees,
)
