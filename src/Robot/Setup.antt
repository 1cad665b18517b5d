-- ===== src/Robot/Setup.antt =====
-- `init` and `init_TCP_pose` of src/robot.cpp: the robot's members become fields of its recipes.
pub mod Outputs
pub mod Session
pub mod Inputs
use Prim.Native.String.{String}
use lib_urx.Base.{
  ℕ, ◌+◌, ◌==◌, not, Bool, true, false, if◌then◌else◌, List, [], ◌∷◌, ◌++◌, none, some, length, ℤ,
  Run, ret, ◌>>=◌,
}
use lib_urx.Recipe.{Recipe, add_field, clear_fields}
use lib_urx.Recipe.Layout.Build.{add_all}
use lib_urx.Handler.{Exchange, put_recipe, register_recipe}
use lib_urx.Robot.{Robot, Members}

-- `if (!out->add_field(...)) return false;` for each field.
unfoldable pub add_fields : Recipe → List (String × ℕ) → Recipe × Bool
add_fields r [] = (r, true)
add_fields r (f ∷ fs) =
    let (r', added) = add_field r f.0 (some f.1) in
    elim added [ true ↦ add_fields r' fs | false ↦ (r', false) ]

abbrev pub state_fields : Members → List (String × ℕ)
state_fields m =
    ("output_int_register_0", m.out_seqnr)
    ∷ ("timestamp", m.timestamp)
    ∷ ("target_q", m.target_q)
    ∷ ("target_qd", m.target_qd)
    ∷ ("target_qdd", m.target_qdd)
    ∷ ("target_moment", m.target_moment)
    ∷ []

abbrev pub pose_fields : Members → List (String × ℕ)
pose_fields m =
    ("target_TCP_pose", m.target_tcp_pose)
    ∷ ("output_int_register_1", m.q_ref_out_seqnr_buf)
    ∷ ("output_double_register_0", m.q_ref_buf)
    ∷ ("output_double_register_1", m.q_ref_buf + 8)
    ∷ ("output_double_register_2", m.q_ref_buf + 16)
    ∷ ("output_double_register_3", m.q_ref_buf + 24)
    ∷ ("output_double_register_4", m.q_ref_buf + 32)
    ∷ ("output_double_register_5", m.q_ref_buf + 40)
    ∷ []

abbrev pub control_fields : Members → List (String × ℕ)
control_fields m =
    ("input_int_register_0", m.in_seqnr)
    ∷ ("input_int_register_1", m.cmd)
    ∷ ("input_double_register_0", m.set_qd)
    ∷ ("input_double_register_1", m.set_qd + 8)
    ∷ ("input_double_register_2", m.set_qd + 16)
    ∷ ("input_double_register_3", m.set_qd + 24)
    ∷ ("input_double_register_4", m.set_qd + 32)
    ∷ ("input_double_register_5", m.set_qd + 40)
    ∷ []

abbrev pub pose_ref_fields : Members → List (String × ℕ)
pose_ref_fields m =
    ("input_double_register_8", m.tcp_pose_ref)
    ∷ ("input_double_register_9", m.tcp_pose_ref + 8)
    ∷ ("input_double_register_10", m.tcp_pose_ref + 16)
    ∷ ("input_double_register_11", m.tcp_pose_ref + 24)
    ∷ ("input_double_register_12", m.tcp_pose_ref + 32)
    ∷ ("input_double_register_13", m.tcp_pose_ref + 40)
    ∷ []

-- The two functions for outputs differ in the fields. The last arguments are what the exchange of
-- `register_recipe` meets.
unfoldable pub init_outputs : Robot → List (String × ℕ) → Exchange → ℤ → Run (Robot × Bool)
init_outputs rb fields net written = elim rb.output [
  | none ↦ ret (rb, false)
  | some p ↦
      let r = rb.client.recipes p in
      let added = add_fields r fields in
      let h = put_recipe rb.client p added.0 in
      let registered : Run (Robot × Bool) = register_recipe h (some p) net written >>= λ res.
      let h' = res.0 in
      ret (
        if res.1
        then (record rb { client = h'; out_initialized = true }, true)
        else (record rb { client = put_recipe h' p (clear_fields (h'.recipes p)) }, false)) in
      if rb.out_initialized
      then ret (rb, true)
      else if not rb.client.con.connected
      then ret (rb, false)
      else if not (length r.fields == 0)
      then ret (rb, false)
      else if not added.1
      then ret (record rb { client = h }, false)
      else registered
]

unfoldable pub init_output : Robot → Exchange → ℤ → Run (Robot × Bool)
init_output rb net written = init_outputs rb (state_fields rb.members) net written

unfoldable pub init_output_tcp_pose : Robot → Exchange → ℤ → Run (Robot × Bool)
init_output_tcp_pose rb net written =
    init_outputs rb (state_fields rb.members ++ pose_fields rb.members) net written

-- The results of `add_field` are not looked at.
unfoldable pub init_inputs : Robot → List (String × ℕ) → Exchange → ℤ → Run (Robot × Bool)
init_inputs rb fields net written = elim rb.input [
  | none ↦ ret (rb, false)
  | some p ↦
      let h = put_recipe rb.client p (add_all (rb.client.recipes p) fields) in
      register_recipe h (some p) net written >>= λ res. ret (
        if res.1
        then (record rb { client = res.0; in_initialized = true }, true)
        else (record rb { client = res.0 }, false))
]

unfoldable pub init_input : Robot → Exchange → ℤ → Run (Robot × Bool)
init_input rb net written = init_inputs rb (control_fields rb.members) net written

unfoldable pub init_input_tcp_pose : Robot → Exchange → ℤ → Run (Robot × Bool)
init_input_tcp_pose rb net written =
    init_inputs rb (control_fields rb.members ++ pose_ref_fields rb.members) net written

-- `init() { return init_output() && init_input(); }`
unfoldable pub init : Robot → Exchange → ℤ → Exchange → ℤ → Run (Robot × Bool)
init rb net written net' written' = init_output rb net written >>= λ res.
    let rest = init_input res.0 net' written' in if res.1 then rest else ret res
