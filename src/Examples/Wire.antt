-- ===== src/Examples/Wire.antt =====
-- Packages and single fields.
use lib_urx.Base.{
  refl, [], some, ◌∷◌, inl, replicate, ◌≡◌, true, pos, ◌++◌, arith, ret, fault, length, drop,
}
use lib_urx.Bytes.{check-AreBytes, Bytes}
use lib_urx.Memory.{Ram, peek}
use lib_urx.Memory.Frames.{Begins}
use lib_urx.Magic.Types.{codes, int32, double, rtde_datasize, control_package_setup_outputs}
use lib_urx.Header.Package.{hdr_size}
use lib_urx.Header.Package.Laws.{be16}
use lib_urx.Header.Control.{
  rtde_control_msg_in, rtde_control_msg_out, rtde_data_package_init, low_byte,
}
use lib_urx.Header.Control.Laws.{
  control_msg_in_frame, control_msg_out_frame, control_msg_overflow, data_package_init_parse,
}
use lib_urx.Header.Responses.{
  is_unusable, rtde_control_package_resp_validate, rtde_parse_data_package,
}
use lib_urx.Header.Responses.Laws.{resp_validate_types, types_text, setup_response}
use lib_urx.Token.{token_parser, token_store}
use lib_urx.Token.Store.{IsRam, token_parser-token_store}

abbrev pub block : Bytes
block = replicate 2048 0

control_msg_in_frame_example :
    (b : Bytes) × (rtde_control_msg_in (some block) (some (codes "speed_slider_mask"))
      ≡ ret (some b))
    × Begins 2048 (be16 20 ++ ((b'I' ∷ codes "speed_slider_mask") ++ (0 ∷ []))) b
control_msg_in_frame_example =
    control_msg_in_frame block (codes "speed_slider_mask") refl (omega arith)

control_msg_out_frame_example :
    (b : Bytes) × (rtde_control_msg_out (some block) (some (codes "timestamp")) ≡ ret (some b))
    × Begins 2048 (be16 20 ++ (((b'O' ∷ replicate 8 0) ++ codes "timestamp") ++ (0 ∷ []))) b
control_msg_out_frame_example = control_msg_out_frame block (codes "timestamp") refl (omega arith)

control_msg_overflow_example :
    (rtde_control_msg_in (some block) (some (replicate 2045 65)) ≡ fault)
    × (rtde_control_msg_out (some block) (some (replicate 2037 65)) ≡ fault)
control_msg_overflow_example =
    control_msg_overflow block block (replicate 2045 65) (replicate 2037 65) refl refl refl refl

data_package_init_parse_example :
    (b : Bytes) × (rtde_data_package_init (some block) (pos 1) 12 ≡ ret (some b))
    × (length b ≡ 2048)
    × (rtde_parse_data_package (some b) ≡ ret true)
    × (hdr_size b ≡ ret 16)
    × (drop 4 b ≡ drop 4 block)
unfolding low_byte
data_package_init_parse_example = data_package_init_parse block (pos 1) 12 refl (omega arith)

resp_validate_types_example :
    rtde_control_package_resp_validate
      (some (setup_response control_package_setup_outputs 1 (types_text double (int32 ∷ [])) block))
    ≡ ret true
unfolding is_unusable
resp_validate_types_example =
    resp_validate_types control_package_setup_outputs 1 double (int32 ∷ []) block (inl refl)
      (omega arith)

-- Memory in which every cell holds 7.
abbrev pub sevens : Ram
sevens a = 7

pub sevens-IsRam : IsRam sevens
sevens-IsRam a = omega arith

abbrev pub small : Bytes
small = 1 ∷ 2 ∷ 3 ∷ 4 ∷ 5 ∷ 6 ∷ 7 ∷ 8 ∷ 9 ∷ 10 ∷ 11 ∷ 12 ∷ []

token_parser-token_store_example :
    (b : Bytes) × (m : Ram) × (token_store int32 8 40 sevens small ≡ ret b)
    × (token_parser int32 8 80 sevens b ≡ ret (m, b))
    × (peek m 80 (rtde_datasize int32) ≡ peek sevens 40 (rtde_datasize int32))
unfolding rtde_datasize
token_parser-token_store_example =
    token_parser-token_store int32 8 40 80 sevens small refl refl sevens-IsRam
      (check-AreBytes small refl) (omega arith)
