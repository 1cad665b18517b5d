-- ===== src/Recipe/Response.antt =====
-- What `register_response` accepts.
use lib_urx.Base.{
  ℕ, refl, [], List, ◌≡◌, pos, ◌∷◌, Bool, true, map, All, length, ret, ◌∙◌, ◌<◌, ◌⊎◌, ◌&&◌, ◌++◌,
  ◌==◌, if◌then◌else◌, false, ap, arith, All-append, ◌+◌, ◌≤◌, some,
}
use lib_urx.Bytes.{Bytes}
use lib_urx.Memory.{load}
use lib_urx.Memory.Laws.{c_string_lem}
use lib_urx.Magic.Types.{
  DataType, bool, uint8, uint32, uint64, int32, double, vector3d, vector6d, vector6int32,
  vector6uint32, string, in_use, not_found, same_type, data_name_to_type, PackageType,
  control_package_setup_outputs, control_package_setup_inputs,
}
use lib_urx.Header.Responses.Laws.{types_text, setup_response, resp_validate_types}
use lib_urx.Header.Responses.Items.{
  name_head, name_tail, all_usable, is_plain, all_plain, name_head_plain, name_tail_plain,
}
use lib_urx.Token.{Token, set_response_type}
use lib_urx.Recipe.{Recipe, split_items, match_types, accept_response, register_response}

abbrev pub type_name : DataType → Bytes
type_name t = name_head t ∷ name_tail t

-- Field by field the same type, and no field or type left over.
abbrev pub agrees : List Token → List DataType → Bool
agrees [] [] = true
agrees (k ∷ ks) (t ∷ ts) = same_type k.type t && agrees ks ts
agrees _ _ = false

type_name_plain : (t : DataType) → all_plain (type_name t) ≡ true
unfolding all_plain
type_name_plain t = rw (name_head_plain t, name_tail_plain t)

set_response_type_lem :
    (k : Token) (t : DataType) → set_response_type k (type_name t) ≡ same_type k.type t
unfolding set_response_type data_name_to_type
set_response_type_lem k bool = refl
set_response_type_lem k uint8 = refl
set_response_type_lem k uint32 = refl
set_response_type_lem k uint64 = refl
set_response_type_lem k int32 = refl
set_response_type_lem k double = refl
set_response_type_lem k vector3d = refl
set_response_type_lem k vector6d = refl
set_response_type_lem k vector6int32 = refl
set_response_type_lem k vector6uint32 = refl
set_response_type_lem k string = refl
set_response_type_lem k in_use = refl
set_response_type_lem k not_found = refl

split_name :
    (s rest : Bytes) → all_plain s ≡ true → split_items (s ++ (b',' ∷ rest)) ≡ s ∷ split_items rest
unfolding split_items all_plain is_plain
split_name [] rest h = refl
split_name (c ∷ s) rest h =
    let plain : (c == b',') ≡ false = ground (arith, h) in
    let tail : all_plain s ≡ true = ground (arith, h) in rw (plain, split_name s rest tail)

split_last : (c : ℕ) (s : Bytes) → all_plain (c ∷ s) ≡ true → split_items (c ∷ s) ≡ (c ∷ s) ∷ []
unfolding split_items all_plain is_plain
split_last c [] h = let plain : (c == b',') ≡ false = ground (arith, h) in rw plain
split_last c (d ∷ s) h =
    let plain : (c == b',') ≡ false = ground (arith, h) in
    let tail : all_plain (d ∷ s) ≡ true = ground (arith, h) in rw (plain, split_last d s tail)

-- The items of "T1,...,Tn" are the names.
split_types :
    (t : DataType) (ts : List DataType) → split_items (types_text t ts) ≡ map type_name (t ∷ ts)
split_types t [] = split_last (name_head t) (name_tail t) (type_name_plain t)
split_types t (u ∷ us) =
    split_name (type_name t) (types_text u us) (type_name_plain t)
    ∙ ap (◌∷◌ (type_name t)) (split_types u us)

positive_name : (s : Bytes) → all_plain s ≡ true → All (λ c. 0 < c) s
unfolding all_plain is_plain
positive_name [] h = tt
positive_name (c ∷ s) h =
    let tail : all_plain s ≡ true = ground (arith, h) in (ground (arith, h), positive_name s tail)

positive_types : (t : DataType) (ts : List DataType) → All (λ c. 0 < c) (types_text t ts)
positive_types t [] = positive_name (type_name t) (type_name_plain t)
positive_types t (u ∷ us) =
    All-append (λ c. 0 < c) (type_name t) (b',' ∷ types_text u us)
      (positive_name (type_name t) (type_name_plain t)) (omega arith, positive_types u us)

match_types_lem :
    (ks : List Token) (ts : List DataType)
    → ((length (map type_name ts) == length ks) && match_types ks (map type_name ts)) ≡ agrees ks ts
unfolding match_types
match_types_lem [] [] = refl
match_types_lem [] (t ∷ ts) = ground arith
match_types_lem (k ∷ ks) [] = ground arith
match_types_lem (k ∷ ks) (t ∷ ts) =
    rw (set_response_type_lem k t) (ground (arith, match_types_lem ks ts))

-- The recipe as a response leaves it.
abbrev pub accepted : Recipe → ℕ → Recipe
accepted r id = record r { recipe_id = pos id; active = true }

accept_response_lem :
    (r : Recipe) (kind : PackageType) (id : ℕ) (t : DataType) (ts : List DataType) (rest : Bytes)
    → accept_response r (setup_response kind id (types_text t ts) rest)
      ≡ ret (if agrees r.fields (t ∷ ts) then (accepted r id, true) else (r, false))
unfolding accept_response load
accept_response_lem r kind id t ts rest =
    rw
      (
        c_string_lem (types_text t ts) rest (positive_types t ts),
        split_types t ts,
        ← match_types_lem r.fields (t ∷ ts),
      )
      (ground arith)

-- A response that lists types is accepted exactly if none of them is NOT_FOUND or IN_USE and they
-- are the types of the recipe's fields, one for one; the recipe then is active under the response's
-- id, and otherwise it is unchanged.
pub register_response_types :
    (r : Recipe) (kind : PackageType) (id : ℕ) (t : DataType) (ts : List DataType) (rest : Bytes)
    → (kind ≡ control_package_setup_outputs) ⊎ (kind ≡ control_package_setup_inputs)
    → 4 + length (types_text t ts) ≤ 2000
    → register_response r (some (setup_response kind id (types_text t ts) rest))
      ≡ ret (
          if all_usable (t ∷ ts) && agrees r.fields (t ∷ ts)
          then (accepted r id, true)
          else (r, false))
unfolding register_response
register_response_types r kind id t ts rest k fits =
    rw (resp_validate_types kind id t ts rest k fits, accept_response_lem r kind id t ts rest)
      (ground arith)
