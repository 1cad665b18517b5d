-- ===== src/Magic/OutputNames.antt =====
-- The output variables of include/urx/magic.h, in the order of the source: the state of the
-- controller, the output registers, and the input registers read back.
use lib_urx.Base.{List, [], ◌∷◌}
use lib_urx.Magic.Types.{
  bool, uint8, uint32, uint64, int32, double, vector3d, vector6d, vector6int32,
}
use lib_urx.Magic.Names.{DataName, named}

unfoldable pub state_names : List DataName
state_names =
    named "timestamp" double
    ∷ named "target_q" vector6d
    ∷ named "target_qd" vector6d
    ∷ named "target_qdd" vector6d
    ∷ named "target_current" vector6d
    ∷ named "target_moment" vector6d
    ∷ named "actual_q" vector6d
    ∷ named "actual_qd" vector6d
    ∷ named "actual_current" vector6d
    ∷ named "joint_control_output" vector6d
    ∷ named "actual_TCP_pose" vector6d
    ∷ named "actual_TCP_speed" vector6d
    ∷ named "actual_TCP_force" vector6d
    ∷ named "target_TCP_pose" vector6d
    ∷ named "target_TCP_speed" vector6d
    ∷ named "actual_digital_input_bits" uint64
    ∷ named "joint_temperatures" vector6d
    ∷ named "actual_execution_time" double
    ∷ named "robot_mode" int32
    ∷ named "joint_mode" vector6int32
    ∷ named "safety_mode" int32
    ∷ named "safety_status" int32
    ∷ named "actual_tool_accelerometer" vector3d
    ∷ named "speed_scaling" double
    ∷ named "target_speed_fraction" double
    ∷ named "actual_momentum" double
    ∷ named "actual_main_voltage" double
    ∷ named "actual_robot_voltage" double
    ∷ named "actual_robot_current" double
    ∷ named "actual_joint_voltage" vector6d
    ∷ named "actual_digital_output_bits" uint64
    ∷ named "runtime_state" uint32
    ∷ named "elbow_position" vector3d
    ∷ named "elbow_velocity" vector3d
    ∷ named "robot_status_bits" uint32
    ∷ named "safety_status_bits" uint32
    ∷ named "analog_io_types" uint32
    ∷ named "standard_analog_input0" double
    ∷ named "standard_analog_input1" double
    ∷ named "standard_analog_output0" double
    ∷ named "standard_analog_output1" double
    ∷ named "io_current" double
    ∷ named "euromap67_input_bits" uint32
    ∷ named "euromap67_output_bits" uint32
    ∷ named "euromap67_24V_voltage" double
    ∷ named "euromap67_24V_current" double
    ∷ named "tool_mode" uint32
    ∷ named "tool_analog_input_types" uint32
    ∷ named "tool_analog_input0" double
    ∷ named "tool_analog_input1" double
    ∷ named "tool_output_voltage" int32
    ∷ named "tool_output_current" double
    ∷ named "tool_temperature" double
    ∷ named "tcp_force_scalar" double
    ∷ named "output_bit_registers0_to_31" uint32
    ∷ named "output_bit_registers32_to_63" uint32
    ∷ []

unfoldable pub output_register_names : List DataName
output_register_names =
    named "output_bit_register_X" bool
    ∷ named "output_int_register_0" int32
    ∷ named "output_int_register_1" int32
    ∷ named "output_int_register_2" int32
    ∷ named "output_int_register_3" int32
    ∷ named "output_int_register_4" int32
    ∷ named "output_int_register_5" int32
    ∷ named "output_int_register_6" int32
    ∷ named "output_int_register_7" int32
    ∷ named "output_int_register_8" int32
    ∷ named "output_int_register_9" int32
    ∷ named "output_int_register_10" int32
    ∷ named "output_int_register_11" int32
    ∷ named "output_int_register_12" int32
    ∷ named "output_int_register_13" int32
    ∷ named "output_int_register_14" int32
    ∷ named "output_int_register_15" int32
    ∷ named "output_int_register_16" int32
    ∷ named "output_int_register_17" int32
    ∷ named "output_int_register_18" int32
    ∷ named "output_int_register_19" int32
    ∷ named "output_int_register_20" int32
    ∷ named "output_int_register_21" int32
    ∷ named "output_int_register_22" int32
    ∷ named "output_int_register_23" int32
    ∷ named "output_int_register_24" int32
    ∷ named "output_int_register_25" int32
    ∷ named "output_int_register_26" int32
    ∷ named "output_int_register_27" int32
    ∷ named "output_int_register_28" int32
    ∷ named "output_int_register_29" int32
    ∷ named "output_int_register_30" int32
    ∷ named "output_int_register_31" int32
    ∷ named "output_int_register_32" int32
    ∷ named "output_int_register_33" int32
    ∷ named "output_int_register_34" int32
    ∷ named "output_int_register_35" int32
    ∷ named "output_int_register_36" int32
    ∷ named "output_int_register_37" int32
    ∷ named "output_int_register_38" int32
    ∷ named "output_int_register_39" int32
    ∷ named "output_int_register_40" int32
    ∷ named "output_int_register_41" int32
    ∷ named "output_int_register_42" int32
    ∷ named "output_int_register_43" int32
    ∷ named "output_int_register_44" int32
    ∷ named "output_int_register_45" int32
    ∷ named "output_int_register_46" int32
    ∷ named "output_int_register_47" int32
    ∷ named "output_double_register_0" double
    ∷ named "output_double_register_1" double
    ∷ named "output_double_register_2" double
    ∷ named "output_double_register_3" double
    ∷ named "output_double_register_4" double
    ∷ named "output_double_register_5" double
    ∷ named "output_double_register_6" double
    ∷ named "output_double_register_7" double
    ∷ named "output_double_register_8" double
    ∷ named "output_double_register_9" double
    ∷ named "output_double_register_10" double
    ∷ named "output_double_register_11" double
    ∷ named "output_double_register_12" double
    ∷ named "output_double_register_13" double
    ∷ named "output_double_register_14" double
    ∷ named "output_double_register_15" double
    ∷ named "output_double_register_16" double
    ∷ named "output_double_register_17" double
    ∷ named "output_double_register_18" double
    ∷ named "output_double_register_19" double
    ∷ named "output_double_register_20" double
    ∷ named "output_double_register_21" double
    ∷ named "output_double_register_22" double
    ∷ named "output_double_register_23" double
    ∷ named "output_double_register_24" double
    ∷ named "output_double_register_25" double
    ∷ named "output_double_register_26" double
    ∷ named "output_double_register_27" double
    ∷ named "output_double_register_28" double
    ∷ named "output_double_register_29" double
    ∷ named "output_double_register_30" double
    ∷ named "output_double_register_31" double
    ∷ named "output_double_register_32" double
    ∷ named "output_double_register_33" double
    ∷ named "output_double_register_34" double
    ∷ named "output_double_register_35" double
    ∷ named "output_double_register_36" double
    ∷ named "output_double_register_37" double
    ∷ named "output_double_register_38" double
    ∷ named "output_double_register_39" double
    ∷ named "output_double_register_40" double
    ∷ named "output_double_register_41" double
    ∷ named "output_double_register_42" double
    ∷ named "output_double_register_43" double
    ∷ named "output_double_register_44" double
    ∷ named "output_double_register_45" double
    ∷ named "output_double_register_46" double
    ∷ named "output_double_register_47" double
    ∷ []

unfoldable pub read_back_names : List DataName
read_back_names =
    named "input_bit_registers0_to_31" uint32
    ∷ named "input_bit_registers32_to_63" uint32
    ∷ named "input_bit_register_X" bool
    ∷ named "input_int_register_0" int32
    ∷ named "input_int_register_1" int32
    ∷ named "input_int_register_2" int32
    ∷ named "input_int_register_3" int32
    ∷ named "input_int_register_4" int32
    ∷ named "input_int_register_5" int32
    ∷ named "input_int_register_6" int32
    ∷ named "input_int_register_7" int32
    ∷ named "input_int_register_8" int32
    ∷ named "input_int_register_9" int32
    ∷ named "input_int_register_10" int32
    ∷ named "input_int_register_11" int32
    ∷ named "input_int_register_12" int32
    ∷ named "input_int_register_13" int32
    ∷ named "input_int_register_14" int32
    ∷ named "input_int_register_15" int32
    ∷ named "input_int_register_16" int32
    ∷ named "input_int_register_17" int32
    ∷ named "input_int_register_18" int32
    ∷ named "input_int_register_19" int32
    ∷ named "input_int_register_20" int32
    ∷ named "input_int_register_21" int32
    ∷ named "input_int_register_22" int32
    ∷ named "input_int_register_23" int32
    ∷ named "input_int_register_24" int32
    ∷ named "input_int_register_25" int32
    ∷ named "input_int_register_26" int32
    ∷ named "input_int_register_27" int32
    ∷ named "input_int_register_28" int32
    ∷ named "input_int_register_29" int32
    ∷ named "input_int_register_30" int32
    ∷ named "input_int_register_31" int32
    ∷ named "input_int_register_32" int32
    ∷ named "input_int_register_33" int32
    ∷ named "input_int_register_34" int32
    ∷ named "input_int_register_35" int32
    ∷ named "input_int_register_36" int32
    ∷ named "input_int_register_37" int32
    ∷ named "input_int_register_38" int32
    ∷ named "input_int_register_39" int32
    ∷ named "input_int_register_40" int32
    ∷ named "input_int_register_41" int32
    ∷ named "input_int_register_42" int32
    ∷ named "input_int_register_43" int32
    ∷ named "input_int_register_44" int32
    ∷ named "input_int_register_45" int32
    ∷ named "input_int_register_46" int32
    ∷ named "input_int_register_47" int32
    ∷ named "input_double_register_0" double
    ∷ named "input_double_register_1" double
    ∷ named "input_double_register_2" double
    ∷ named "input_double_register_3" double
    ∷ named "input_double_register_4" double
    ∷ named "input_double_register_5" double
    ∷ named "input_double_register_6" double
    ∷ named "input_double_register_7" double
    ∷ named "input_double_register_8" double
    ∷ named "input_double_register_9" double
    ∷ named "input_double_register_10" double
    ∷ named "input_double_register_11" double
    ∷ named "input_double_register_12" double
    ∷ named "input_double_register_13" double
    ∷ named "input_double_register_14" double
    ∷ named "input_double_register_15" double
    ∷ named "input_double_register_16" double
    ∷ named "input_double_register_17" double
    ∷ named "input_double_register_18" double
    ∷ named "input_double_register_19" double
    ∷ named "input_double_register_20" double
    ∷ named "input_double_register_21" double
    ∷ named "input_double_register_22" double
    ∷ named "input_double_register_23" double
    ∷ named "input_double_register_24" double
    ∷ named "input_double_register_25" double
    ∷ named "input_double_register_26" double
    ∷ named "input_double_register_27" double
    ∷ named "input_double_register_28" double
    ∷ named "input_double_register_29" double
    ∷ named "input_double_register_30" double
    ∷ named "input_double_register_31" double
    ∷ named "input_double_register_32" double
    ∷ named "input_double_register_33" double
    ∷ named "input_double_register_34" double
    ∷ named "input_double_register_35" double
    ∷ named "input_double_register_36" double
    ∷ named "input_double_register_37" double
    ∷ named "input_double_register_38" double
    ∷ named "input_double_register_39" double
    ∷ named "input_double_register_40" double
    ∷ named "input_double_register_41" double
    ∷ named "input_double_register_42" double
    ∷ named "input_double_register_43" double
    ∷ named "input_double_register_44" double
    ∷ named "input_double_register_45" double
    ∷ named "input_double_register_46" double
    ∷ named "input_double_register_47" double
    ∷ named "tool_output_mode" uint8
    ∷ named "tool_digital_output0_mode" uint8
    ∷ named "tool_digital_output1_mode" uint8
    ∷ named "input_bit_registers0_to_31" uint32
    ∷ named "input_bit_registers32_to_63" uint32
    ∷ []
