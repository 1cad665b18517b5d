-- ===== src/Magic/InputNames.antt =====
-- The input variables of include/urx/magic.h, in the order of the source.
use lib_urx.Base.{List, [], ◌∷◌}
use lib_urx.Magic.Types.{bool, uint8, uint32, int32, double}
use lib_urx.Magic.Names.{DataName, named}

unfoldable pub rtde_input_names : List DataName
rtde_input_names =
    named "speed_slider_mask" uint32
    ∷ named "speed_slider_fraction" double
    ∷ named "standard_digital_output_mask" uint8
    ∷ named "standard_digital_output" uint8
    ∷ named "configurable_digital_output_mask" uint8
    ∷ named "configurable_digital_output" uint8
    ∷ named "tool_digital_output_mask" uint8
    ∷ named "tool_digital_output" uint8
    ∷ named "standard_analog_output_mask" uint8
    ∷ named "standard_analog_output_type" uint8
    ∷ named "standard_analog_output_0" double
    ∷ named "standard_analog_output_1" double
    ∷ named "input_bit_registers0_to_31" uint32
    ∷ named "input_bit_registers32_to_63" uint32
    ∷ named "input_bit_register_X" bool
    ∷ named "input_int_register_0" int32
    ∷ named "input_int_register_1" int32
    ∷ named "input_int_register_2" int32
    ∷ named "input_int_register_3" int32
    ∷ named "input_int_register_4" int32
    ∷ named "input_int_register_5" int32
    ∷ named "input_int_register_6" int32
    ∷ named "input_int_register_7" int32
    ∷ named "input_int_register_8" int32
    ∷ named "input_int_register_9" int32
    ∷ named "input_int_register_10" int32
    ∷ named "input_int_register_11" int32
    ∷ named "input_int_register_12" int32
    ∷ named "input_int_register_13" int32
    ∷ named "input_int_register_14" int32
    ∷ named "input_int_register_15" int32
    ∷ named "input_int_register_16" int32
    ∷ named "input_int_register_17" int32
    ∷ named "input_int_register_18" int32
    ∷ named "input_int_register_19" int32
    ∷ named "input_int_register_20" int32
    ∷ named "input_int_register_21" int32
    ∷ named "input_int_register_22" int32
    ∷ named "input_int_register_23" int32
    ∷ named "input_int_register_24" int32
    ∷ named "input_int_register_25" int32
    ∷ named "input_int_register_26" int32
    ∷ named "input_int_register_27" int32
    ∷ named "input_int_register_28" int32
    ∷ named "input_int_register_29" int32
    ∷ named "input_int_register_30" int32
    ∷ named "input_int_register_31" int32
    ∷ named "input_int_register_32" int32
    ∷ named "input_int_register_33" int32
    ∷ named "input_int_register_34" int32
    ∷ named "input_int_register_35" int32
    ∷ named "input_int_register_36" int32
    ∷ named "input_int_register_37" int32
    ∷ named "input_int_register_38" int32
    ∷ named "input_int_register_39" int32
    ∷ named "input_int_register_40" int32
    ∷ named "input_int_register_41" int32
    ∷ named "input_int_register_42" int32
    ∷ named "input_int_register_43" int32
    ∷ named "input_int_register_44" int32
    ∷ named "input_int_register_45" int32
    ∷ named "input_int_register_46" int32
    ∷ named "input_int_register_47" int32
    ∷ named "input_double_register_0" double
    ∷ named "input_double_register_1" double
    ∷ named "input_double_register_2" double
    ∷ named "input_double_register_3" double
    ∷ named "input_double_register_4" double
    ∷ named "input_double_register_5" double
    ∷ named "input_double_register_6" double
    ∷ named "input_double_register_7" double
    ∷ named "input_double_register_8" double
    ∷ named "input_double_register_9" double
    ∷ named "input_double_register_10" double
    ∷ named "input_double_register_11" double
    ∷ named "input_double_register_12" double
    ∷ named "input_double_register_13" double
    ∷ named "input_double_register_14" double
    ∷ named "input_double_register_15" double
    ∷ named "input_double_register_16" double
    ∷ named "input_double_register_17" double
    ∷ named "input_double_register_18" double
    ∷ named "input_double_register_19" double
    ∷ named "input_double_register_20" double
    ∷ named "input_double_register_21" double
    ∷ named "input_double_register_22" double
    ∷ named "input_double_register_23" double
    ∷ named "input_double_register_24" double
    ∷ named "input_double_register_25" double
    ∷ named "input_double_register_26" double
    ∷ named "input_double_register_27" double
    ∷ named "input_double_register_28" double
    ∷ named "input_double_register_29" double
    ∷ named "input_double_register_30" double
    ∷ named "input_double_register_31" double
    ∷ named "input_double_register_32" double
    ∷ named "input_double_register_33" double
    ∷ named "input_double_register_34" double
    ∷ named "input_double_register_35" double
    ∷ named "input_double_register_36" double
    ∷ named "input_double_register_37" double
    ∷ named "input_double_register_38" double
    ∷ named "input_double_register_39" double
    ∷ named "input_double_register_40" double
    ∷ named "input_double_register_41" double
    ∷ named "input_double_register_42" double
    ∷ named "input_double_register_43" double
    ∷ named "input_double_register_44" double
    ∷ named "input_double_register_45" double
    ∷ named "input_double_register_46" double
    ∷ named "input_double_register_47" double
    ∷ []
