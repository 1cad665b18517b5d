-- ===== src/Robot/Fields.antt =====
-- The fields of the robot's recipes.
pub mod Places
pub mod Layouts
use Prim.Native.String.{String}
use lib_urx.Base.{
  ℕ, ◌+◌, ◌≤◌, ◌≡◌, refl, Bool, true, false, List, [], ◌∷◌, ◌++◌, arith, inl, inr, All, All-append,
  ◌⊎◌,
}
use lib_urx.Magic.Types.{DataType, int32, double, vector6d}
use lib_urx.Magic.Lookup.{input_name_to_idx, output_name_to_idx}
use lib_urx.Token.{Token, TokenKind, token_in, token_out}
use lib_urx.Recipe.{Recipe, add_field, field_token, push_field}
use lib_urx.Recipe.Layout.{Layout, kind_of}
use lib_urx.Recipe.Layout.Parse.{Apart, Clear}
use lib_urx.Recipe.Layout.Build.{add_all}
use lib_urx.Robot.{Members}
use lib_urx.Robot.Setup.{add_fields, state_fields, control_fields, pose_fields, pose_ref_fields}

-- The members stand in the memory in the order of their declarations, as C++ demands.
pub record InOrder (m : Members) : Type 0 where
  pub out_seqnr : m.out_seqnr + 4 ≤ m.timestamp
  pub timestamp : m.timestamp + 8 ≤ m.target_q
  pub target_q : m.target_q + 48 ≤ m.target_qd
  pub target_qd : m.target_qd + 48 ≤ m.target_qdd
  pub target_qdd : m.target_qdd + 48 ≤ m.target_moment
  pub target_moment : m.target_moment + 48 ≤ m.target_tcp_pose
  pub target_tcp_pose : m.target_tcp_pose + 48 ≤ m.q_ref_buf
  pub q_ref_buf : m.q_ref_buf + 48 ≤ m.q_ref_out_seqnr_buf
  pub q_ref_out_seqnr_buf : m.q_ref_out_seqnr_buf + 4 ≤ m.in_seqnr
  pub in_seqnr : m.in_seqnr + 4 ≤ m.cmd
  pub cmd : m.cmd + 4 ≤ m.set_qd
  pub set_qd : m.set_qd + 48 ≤ m.tcp_pose_ref

abbrev pub token : Bool → String → DataType → ℕ → ℕ → ℕ → ℕ → Token
token dir name type idx size offset storage = record {
  kind = kind_of dir;
  name = name;
  type = type;
  magic_idx = idx;
  datasize = size;
  offset = offset;
  storage = storage;
}

-- A recipe that no field has been added to.
abbrev pub unused : Bool → Recipe → Recipe
unused dir r = record r { fields = []; bytes = 0; dir_out = dir }

abbrev pub state_tokens : Members → List Token
state_tokens m =
    token true "output_int_register_0" int32 57 4 0 m.out_seqnr
    ∷ token true "timestamp" double 0 8 4 m.timestamp
    ∷ token true "target_q" vector6d 1 48 12 m.target_q
    ∷ token true "target_qd" vector6d 2 48 60 m.target_qd
    ∷ token true "target_qdd" vector6d 3 48 108 m.target_qdd
    ∷ token true "target_moment" vector6d 5 48 156 m.target_moment
    ∷ []

abbrev pub q_ref_tokens : Members → List Token
q_ref_tokens m =
    token true "output_double_register_0" double 105 8 256 m.q_ref_buf
    ∷ token true "output_double_register_1" double 106 8 264 (m.q_ref_buf + 8)
    ∷ token true "output_double_register_2" double 107 8 272 (m.q_ref_buf + 16)
    ∷ token true "output_double_register_3" double 108 8 280 (m.q_ref_buf + 24)
    ∷ token true "output_double_register_4" double 109 8 288 (m.q_ref_buf + 32)
    ∷ token true "output_double_register_5" double 110 8 296 (m.q_ref_buf + 40)
    ∷ []

-- All but the last are in the order of their storages.
abbrev pub first_tokens : Members → List Token
first_tokens m =
    state_tokens m ++ (token true "target_TCP_pose" vector6d 13 48 204 m.target_tcp_pose ∷ [])

abbrev pub last_tokens : Members → List Token
last_tokens m =
    token true "output_int_register_1" int32 58 4 252 m.q_ref_out_seqnr_buf ∷ q_ref_tokens m

abbrev pub pose_tokens : Members → List Token
pose_tokens m = first_tokens m ++ last_tokens m

abbrev pub control_tokens : Members → List Token
control_tokens m =
    token false "input_int_register_0" int32 15 4 0 m.in_seqnr
    ∷ token false "input_int_register_1" int32 16 4 4 m.cmd
    ∷ token false "input_double_register_0" double 63 8 8 m.set_qd
    ∷ token false "input_double_register_1" double 64 8 16 (m.set_qd + 8)
    ∷ token false "input_double_register_2" double 65 8 24 (m.set_qd + 16)
    ∷ token false "input_double_register_3" double 66 8 32 (m.set_qd + 24)
    ∷ token false "input_double_register_4" double 67 8 40 (m.set_qd + 32)
    ∷ token false "input_double_register_5" double 68 8 48 (m.set_qd + 40)
    ∷ []

abbrev pub pose_ref_tokens : Members → List Token
pose_ref_tokens m =
    control_tokens m
    ++ (token false "input_double_register_8" double 71 8 56 m.tcp_pose_ref
        ∷ token false "input_double_register_9" double 72 8 64 (m.tcp_pose_ref + 8)
        ∷ token false "input_double_register_10" double 73 8 72 (m.tcp_pose_ref + 16)
        ∷ token false "input_double_register_11" double 74 8 80 (m.tcp_pose_ref + 24)
        ∷ token false "input_double_register_12" double 75 8 88 (m.tcp_pose_ref + 32)
        ∷ token false "input_double_register_13" double 76 8 96 (m.tcp_pose_ref + 40)
        ∷ [])

pub add_fields_state :
    (r : Recipe) (m : Members)
    → add_fields (unused true r) (state_fields m)
      ≡ (record r { fields = state_tokens m; bytes = 204; dir_out = true }, true)
unfolding add_fields add_field field_token push_field output_name_to_idx
add_fields_state r m = refl

pub add_fields_pose :
    (r : Recipe) (m : Members)
    → add_fields (unused true r) (state_fields m ++ pose_fields m)
      ≡ (record r { fields = pose_tokens m; bytes = 304; dir_out = true }, true)
unfolding add_fields add_field field_token push_field output_name_to_idx
add_fields_pose r m = refl

pub add_all_control :
    (r : Recipe) (m : Members)
    → add_all (unused false r) (control_fields m)
      ≡ record r { fields = control_tokens m; bytes = 56; dir_out = false }
unfolding add_field field_token push_field input_name_to_idx
add_all_control r m = refl

pub add_all_pose_ref :
    (r : Recipe) (m : Members)
    → add_all (unused false r) (control_fields m ++ pose_ref_fields m)
      ≡ record r { fields = pose_ref_tokens m; bytes = 104; dir_out = false }
unfolding add_field field_token push_field input_name_to_idx
add_all_pose_ref r m = refl
