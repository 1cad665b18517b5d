-- ===== src/Examples/Recipes.antt =====
-- A recipe of two outputs and one of two inputs.
use Prim.Native.String.{String}
use lib_urx.Base.{
  ℕ, refl, [], some, none, ◌∷◌, inl, true, false, pos, arith, ◌≡◌, negsuc, ret, ◌+◌, ◌++◌, All,
  replicate,
}
use lib_urx.Bytes.{check-AreBytes, Bytes, le_bytes}
use lib_urx.Double.{double_125}
use lib_urx.Memory.{Ram, peek}
use lib_urx.Magic.Types.{
  DataType, double, int32, uint32, rtde_datasize, control_package_setup_outputs,
}
use lib_urx.Header.Responses.{is_unusable}
use lib_urx.Header.Responses.Laws.{setup_response, types_text}
use lib_urx.Token.{Token, TokenKind, token_in, token_out}
use lib_urx.Recipe.{Recipe, new_recipe, add_field, clear_fields, parse, register_response}
use lib_urx.Recipe.Layout.{IsLaidOut}
use lib_urx.Recipe.Layout.Parse.{parse-delivers, Apart, TsClear, TsIs, field_value}
use lib_urx.Recipe.Layout.Build.{
  unchanged, added, operated-IsLaidOut, add_all, clear_fields-add_all,
}
use lib_urx.Recipe.Response.{register_response_types, accepted}
use lib_urx.Examples.Wire.{block, small, sevens}

abbrev field : TokenKind → String → DataType → ℕ → ℕ → ℕ → ℕ → Token
field kind name type idx size offset storage = record {
  kind = kind;
  name = name;
  type = type;
  magic_idx = idx;
  datasize = size;
  offset = offset;
  storage = storage;
}

abbrev pub outputs : Recipe
outputs = record {
  active = true;
  recipe_id = pos 1;
  ts_ns = some 300;
  fields =
      field token_out "timestamp" double 0 8 0 100
      ∷ field token_out "robot_mode" int32 18 4 8 200
      ∷ [];
  cpo = none;
  cpi = none;
  bytes = 12;
  dir_out = true;
  dp = none;
}

abbrev pub inputs : Recipe
inputs = record {
  active = true;
  recipe_id = pos 2;
  ts_ns = none;
  fields =
      field token_in "speed_slider_mask" uint32 0 4 0 100
      ∷ field token_in "input_double_register_0" double 63 8 4 200
      ∷ [];
  cpo = none;
  cpi = none;
  bytes = 12;
  dir_out = false;
  dp = some block;
}

pub outputs-IsLaidOut : IsLaidOut outputs
unfolding rtde_datasize
outputs-IsLaidOut = (
  record { kind_fits = refl; type_fits = refl; size_fits = refl },
  refl,
  (record { kind_fits = refl; type_fits = refl; size_fits = refl }, refl, refl),
)

pub inputs-IsLaidOut : IsLaidOut inputs
unfolding rtde_datasize
inputs-IsLaidOut = (
  record { kind_fits = refl; type_fits = refl; size_fits = refl },
  refl,
  (record { kind_fits = refl; type_fits = refl; size_fits = refl }, refl, refl),
)

pub outputs-Apart : Apart outputs.fields
outputs-Apart = ((omega arith, tt), (tt, tt))

pub outputs-TsClear : TsClear outputs.ts_ns outputs.fields
outputs-TsClear = (omega arith, (omega arith, tt))

parse-delivers_example :
    (m : Ram) × (parse outputs sevens (some small) 77 ≡ ret (m, some small, true))
    × All (λ k. peek m k.storage k.datasize ≡ field_value k small) outputs.fields
    × TsIs (some 300) m 77
parse-delivers_example =
    parse-delivers outputs sevens small 77 outputs-IsLaidOut refl (check-AreBytes small refl)
      (omega arith) outputs-Apart outputs-TsClear

register_response_types_example :
    register_response outputs
      (some (setup_response control_package_setup_outputs 9 (types_text double (int32 ∷ [])) block))
    ≡ ret (accepted outputs 9, true)
unfolding is_unusable
register_response_types_example =
    register_response_types outputs control_package_setup_outputs 9 double (int32 ∷ []) block
      (inl refl) (omega arith)

abbrev fresh : Recipe
fresh = record {
  active = false;
  recipe_id = negsuc 0;
  ts_ns = none;
  fields = [];
  cpo = some (0 ∷ 11 ∷ b'O' ∷ (le_bytes 8 double_125 ++ replicate 2037 0));
  cpi = some (0 ∷ 3 ∷ b'I' ∷ replicate 2045 0);
  bytes = 0;
  dir_out = true;
  dp = some (0 ∷ 0 ∷ b'U' ∷ replicate 2045 0);
}

new_recipe-fresh : new_recipe true true true ≡ ret fresh
unfolding new_recipe le_bytes
new_recipe-fresh = refl

operated-IsLaidOut_example : IsLaidOut (add_field fresh "timestamp" (some 100)).0
operated-IsLaidOut_example =
    operated-IsLaidOut true true true fresh (add_field fresh "timestamp" (some 100)).0
      new_recipe-fresh (added "timestamp" (some 100) unchanged)

clear_fields-add_all_example :
    (add_all (clear_fields outputs) (("target_q", 500) ∷ [])).bytes
    ≡ 12 + (add_all (record outputs { fields = []; bytes = 0 }) (("target_q", 500) ∷ [])).bytes
clear_fields-add_all_example = clear_fields-add_all outputs (("target_q", 500) ∷ [])
