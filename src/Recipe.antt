-- ===== src/Recipe.antt =====
-- include/urx/rtde_recipe.hpp and src/rtde_recipe.cpp: a recipe is the list of the fields that one
-- data package carries. A function that may change the recipe, the memory of the using program or a
-- buffer returns the new one; `Run` is for accesses outside a buffer.
pub mod Layout
pub mod Response
use Prim.Native.String.{String}
use lib_urx.Base.{
  ℕ, zero, suc, ◌+◌, ◌-◌, Bool, true, false, not, ◌&&◌, ◌||◌, ◌==◌, ltb, if◌then◌else◌, List, [],
  ◌∷◌, ◌++◌, Option, none, some, length, take, drop, reverse, Run, fault, ret, ◌>>=◌, ℤ, pos,
  negsuc,
}
use lib_urx.Bytes.{Bytes, le_bytes}
use lib_urx.Double.{double_125}
use lib_urx.Memory.{Ram, poke, load, c_string}
use lib_urx.Magic.Types.{data_package, codes}
use lib_urx.Magic.Lookup.{input_name_to_idx, output_name_to_idx}
use lib_urx.Header.Package.{rtde_hdr_get, sizeof_control_package_resp, sizeof_data_package}
use lib_urx.Header.Control.{
  rtde_control_msg_get, rtde_control_get_in, rtde_control_msg_in, rtde_control_msg_out,
  rtde_data_package_init,
}
use lib_urx.Header.Responses.{rtde_control_package_resp_validate}
use lib_urx.Token.{
  Token, token_in, token_out, new_token_in, new_token_out, num_bytes, token_store_in, token_parse,
  set_response_type,
}

-- The blocks `cpo`, `cpi` and `dp_` are their bytes; `ts_ns_` is an address.
pub record Recipe : Type 0 where
  pub active : Bool
  pub recipe_id : ℤ
  pub ts_ns : Option ℕ
  pub fields : List Token
  pub cpo : Option Bytes
  pub cpi : Option Bytes
  pub bytes : ℕ
  pub dir_out : Bool
  pub dp : Option Bytes

-- The constructor. The arguments say which of its three allocations succeed.
unfoldable pub new_recipe : Bool → Bool → Bool → Run Recipe
unfolding rtde_control_msg_get rtde_control_get_in rtde_hdr_get
new_recipe has_cpo has_cpi has_dp = do
  cpo ← rtde_control_msg_get has_cpo double_125
  cpi ← rtde_control_get_in has_cpi
  ret (record {
    active = false;
    recipe_id = negsuc 0;
    ts_ns = none;
    fields = [];
    cpo = cpo;
    cpi = cpi;
    bytes = 0;
    dir_out = true;
    dp = rtde_hdr_get has_dp data_package;
  })

-- `token->set_offset(bytes); bytes += token->num_bytes(); fields.push_back(token);`
unfoldable pub push_field : Recipe → Token → Recipe
unfolding num_bytes
push_field r k = record r {
  fields = r.fields ++ (record k { offset = r.bytes } ∷ []);
  bytes = r.bytes + num_bytes k;
}

-- The token for a name that the table of the direction has.
unfoldable pub field_token : Bool → String → ℕ → Option Token
unfolding new_token_in new_token_out
field_token true name t = elim (output_name_to_idx name) [
  | none ↦ none
  | some idx ↦ some (new_token_out name idx t)
]
field_token false name t = elim (input_name_to_idx name) [
  | none ↦ none
  | some idx ↦ some (new_token_in name idx (some t))
]

unfoldable pub add_field : Recipe → String → Option ℕ → Recipe × Bool
unfolding field_token push_field
add_field r name none = (r, false)
add_field r name (some t) = elim (field_token r.dir_out name t) [
  | none ↦ (r, false)
  | some k ↦ (push_field r k, true)
]

unfoldable pub track_ts_ns : Recipe → Ram → Option ℕ → Recipe × Ram × Bool
unfolding poke le_bytes
track_ts_ns r ram none = (r, ram, false)
track_ts_ns r ram (some a) = (record r { ts_ns = some a }, poke ram a (le_bytes 8 0), true)

-- `for (auto &v : fields) res += v->name + ",";`
unfoldable pub join_names : List Token → Bytes
join_names [] = []
join_names (k ∷ ks) = codes k.name ++ (b',' ∷ join_names ks)

-- `pop_back` of an empty string is undefined.
unfoldable pub drop_last : Bytes → Run Bytes
drop_last [] = fault
drop_last (c ∷ []) = ret []
drop_last (c ∷ d ∷ s) = drop_last (d ∷ s) >>= λ r. ret (c ∷ r)

unfoldable pub get_fields : Recipe → Run Bytes
unfolding join_names drop_last
get_fields r = drop_last (join_names r.fields)

unfoldable pub clear_fields : Recipe → Recipe
clear_fields r = record r { fields = [] }

-- A package that a request was written to, or as it was where the request was refused.
abbrev updated : Option Bytes → Option Bytes → Option Bytes
updated old none = old
updated old (some new) = some new

-- `GetMsg` with `msg_out_` and `msg_in_`: the recipe with its package, which is the result.
unfoldable pub get_msg : Recipe → Run (Recipe × Option Bytes)
get_msg r = get_fields r >>= λ names.
    if r.dir_out
    then (rtde_control_msg_out r.cpo (some names) >>= λ m.
        let cpo = updated r.cpo m in ret (record r { cpo = cpo }, cpo))
    else (rtde_control_msg_in r.cpi (some names) >>= λ m.
        let cpi = updated r.cpi m in ret (record r { cpi = cpi }, cpi))

-- `while (std::getline(ss, item, ','))`: no item stands behind a last comma.
abbrev add_to_first : ℕ → List Bytes → List Bytes
add_to_first c [] = (c ∷ []) ∷ []
add_to_first c (x ∷ xs) = (c ∷ x) ∷ xs

unfoldable pub split_items : Bytes → List Bytes
split_items [] = []
split_items (c ∷ cs) =
    let items = split_items cs in if c == b',' then [] ∷ items else add_to_first c items

unfoldable pub match_types : List Token → List Bytes → Bool
unfolding set_response_type
match_types (k ∷ ks) (v ∷ vs) =
    let rest = match_types ks vs in if not (set_response_type k v) then false else rest
match_types _ _ = true

-- The part of `register_response` behind the validation.
unfoldable pub accept_response : Recipe → Bytes → Run (Recipe × Bool)
accept_response r resp = do
  variables ← c_string (drop sizeof_control_package_resp resp)
  let varlist = split_items variables
  let registered =
      load 1 resp 3 >>= λ id. ret (record r { recipe_id = pos id; active = true }, true)
  if not (length varlist == length r.fields)
      then ret (r, false)
      else if not (match_types r.fields varlist)
      then ret (r, false)
      else registered

unfoldable pub register_response : Recipe → Option Bytes → Run (Recipe × Bool)
register_response r none = ret (r, false)
register_response r (some resp) = do
  valid ← rtde_control_package_resp_validate (some resp)
  let accepted = accept_response r resp
  if not valid then ret (r, false) else accepted

-- `for (auto &t : fields) if (!t->parse(buf)) return false;`
unfoldable pub parse_fields : List Token → Ram → Bytes → Run (Ram × Bytes × Bool)
parse_fields [] ram buf = ret (ram, buf, true)
parse_fields (k ∷ ks) ram buf = elim (token_parse k ram (some buf)) [
  | fault ↦ fault
  | ret none ↦ ret (ram, buf, false)
  | ret (some (m, b)) ↦ parse_fields ks m b
]

-- `*ts_ns_ = ts;` where a time stamp is tracked.
abbrev pub set_ts : Option ℕ → Ram → ℕ → Ram
set_ts none ram ts = ram
set_ts (some a) ram ts = poke ram a (le_bytes 8 ts)

-- The buffer is the payload of a data package.
unfoldable pub parse : Recipe → Ram → Option Bytes → ℕ → Run (Ram × Option Bytes × Bool)
parse r ram none ts = ret (ram, none, false)
parse r ram (some buf) ts =
    let run = parse_fields r.fields ram buf >>= λ res.
    let (m, b, done) = res in
    ret (if done then (set_ts r.ts_ns m ts, some b, true) else (m, some b, false)) in
    if not r.dir_out then ret (ram, some buf, false) else run

-- `for (auto &t : fields) if (!t->store(data)) return false;`
unfoldable pub store_fields : List Token → Ram → Bytes → Run (Bytes × Bool)
store_fields [] ram buf = ret (buf, true)
store_fields (k ∷ ks) ram buf = elim (token_store_in k ram (some buf)) [
  | fault ↦ fault
  | ret none ↦ ret (buf, false)
  | ret (some b) ↦ store_fields ks ram b
]

-- The fields are stored behind the fixed part of the package.
unfoldable pub store : Recipe → Ram → Option Bytes → Run (Option Bytes × Bool)
store r ram none = ret (none, false)
store r ram (some dp) =
    let run = rtde_data_package_init (some dp) r.recipe_id r.bytes >>= λ made. elim made [
      | none ↦ ret (some dp, false)
      | some pkg ↦ store_fields r.fields ram (drop sizeof_data_package pkg) >>= λ res.
          ret (some (take sizeof_data_package pkg ++ res.0), res.1)
    ] in
    if r.dir_out then ret (some dp, false) else run

-- `dir_output()` and `dir_input()` call it with true and false.
unfoldable pub set_dir : Bool → Recipe → Bool → Recipe × Bool
unfolding rtde_hdr_get
set_dir has_dp r dir =
    let turned = record r { dir_out = dir } in
    let with_dp : Recipe = elim r.dp [
      | none ↦ record turned { dp = rtde_hdr_get has_dp data_package }
      | some dp ↦ turned
    ] in
    if (if r.dir_out then dir else not dir)
    then (r, true)
    else if ltb 0 (length r.fields)
    then (r, false)
    else (if dir then turned else with_dp, true)
