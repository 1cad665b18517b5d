-- ===== src/Recipe/Layout.antt =====
-- Where the fields of a recipe stand in a data package.
pub mod Parse
pub mod Store
pub mod Build
pub mod Packed
use Prim.Native.String.{String}
use mathlib.Core.Path.{subst}
use lib_urx.Base.{
  ℕ, zero, suc, ◌+◌, ◌%◌, ◌≤◌, ◌<◌, ◌≡◌, ◌≢◌, refl, sym, ap, ◌∙◌, Bool, true, false, ◌∷◌, [], ◌++◌,
  List, Option, none, some, length, All, arith, Option-cases, inl, inr,
}
use lib_urx.Magic.Types.{DataType, rtde_datasize, bool}
use lib_urx.Magic.Lookup.{input_name_to_idx, output_name_to_idx}
use lib_urx.Magic.Lookup.Laws.{is_input_type, is_output_type, input_idx_type, output_idx_type}
use lib_urx.Token.{Token, TokenKind, token_in, token_out, new_token_in, new_token_out, num_bytes}
use lib_urx.Recipe.{Recipe, add_field, push_field, field_token}

-- The class of a field, and the types that it can have, in each direction.
abbrev pub kind_of : Bool → TokenKind
kind_of true = token_out
kind_of false = token_in

abbrev pub is_allowed : Bool → DataType → Bool
is_allowed true t = is_output_type t
is_allowed false t = is_input_type t

pub record FieldFits (dir : Bool) (k : Token) : Type 0 where
  pub kind_fits : k.kind ≡ kind_of dir
  pub type_fits : is_allowed dir k.type ≡ true
  pub size_fits : k.datasize ≡ rtde_datasize k.type

-- The fields follow one another from one offset to another, without a gap.
abbrev pub Layout : Bool → ℕ → List Token → ℕ → Type 0
Layout dir o [] e = o ≡ e
Layout dir o (k ∷ ks) e = FieldFits dir k × (k.offset ≡ o) × Layout dir (o + k.datasize) ks e

abbrev pub IsLaidOut : Recipe → Type 0
IsLaidOut r = Layout r.dir_out 0 r.fields r.bytes

datasize_lt : (t : DataType) → rtde_datasize t < 256
unfolding rtde_datasize
datasize_lt bool = omega arith
datasize_lt _ = omega arith

new_token_out-FieldFits :
    (name : String) (i t : ℕ)
    → output_name_to_idx name ≡ some i
    → FieldFits true (new_token_out name i t)
unfolding new_token_out
new_token_out-FieldFits name i t e = record {
  kind_fits = refl;
  type_fits = output_idx_type name i e;
  size_fits = refl;
}

new_token_in-FieldFits :
    (name : String) (i t : ℕ)
    → input_name_to_idx name ≡ some i
    → FieldFits false (new_token_in name i (some t))
unfolding new_token_in
new_token_in-FieldFits name i t e = record {
  kind_fits = refl;
  type_fits = input_idx_type name i e;
  size_fits = refl;
}

-- A token that a name gives fits the direction.
pub field_token-FieldFits :
    (dir : Bool) (name : String) (t : ℕ) (k : Token)
    → field_token dir name t ≡ some k
    → FieldFits dir k
unfolding field_token
field_token-FieldFits true name t k h = elim (Option-cases (output_name_to_idx name)) [
  | inl e ↦ cc (rw (e, field_token) at h)
  | inr (i, e) ↦
      let made : new_token_out name i t ≡ k = cc (rw (e, field_token) at h) in
      subst (FieldFits true) made (new_token_out-FieldFits name i t e)
]
field_token-FieldFits false name t k h = elim (Option-cases (input_name_to_idx name)) [
  | inl e ↦ cc (rw (e, field_token) at h)
  | inr (i, e) ↦
      let made : new_token_in name i (some t) ≡ k = cc (rw (e, field_token) at h) in
      subst (FieldFits false) made (new_token_in-FieldFits name i t e)
]

pub Layout-snoc :
    {dir : Bool} (o : ℕ) (ks : List Token) (e : ℕ) (k : Token)
    → Layout dir o ks e
    → FieldFits dir k
    → k.offset ≡ e
    → Layout dir o (ks ++ (k ∷ [])) (e + k.datasize)
Layout-snoc o [] e k h f p = (f, p ∙ sym h, rw h)
Layout-snoc o (j ∷ ks) e k h f p = (h.0, h.1, Layout-snoc (o + j.datasize) ks e k h.2 f p)

push_field-IsLaidOut :
    (r : Recipe) (k : Token) → FieldFits r.dir_out k → IsLaidOut r → IsLaidOut (push_field r k)
unfolding push_field num_bytes
push_field-IsLaidOut r k f h =
    let small : k.datasize % 256 ≡ k.datasize = omega (arith, f.size_fits, datasize_lt k.type) in
    rw small (
      Layout-snoc 0 r.fields r.bytes (record k { offset = r.bytes }) h
        (record { kind_fits = f.kind_fits; type_fits = f.type_fits; size_fits = f.size_fits }) refl)

-- `add_field` keeps the layout, whether it adds a field or not.
pub add_field-IsLaidOut :
    (r : Recipe) (name : String) (t : Option ℕ) → IsLaidOut r → IsLaidOut (add_field r name t).0
unfolding add_field
add_field-IsLaidOut r name none h = h
add_field-IsLaidOut r name (some t) h = elim (Option-cases (field_token r.dir_out name t)) [
  | inl e ↦ rw (e, add_field) h
  | inr (k, e) ↦ rw (e, add_field) (push_field-IsLaidOut r k (field_token-FieldFits _ name t k e) h)
]

pub Layout-le : (dir : Bool) (o : ℕ) (ks : List Token) (e : ℕ) → Layout dir o ks e → o ≤ e
Layout-le dir o [] e h = omega (arith, h)
Layout-le dir o (k ∷ ks) e h = omega (arith, Layout-le dir (o + k.datasize) ks e h.2)
