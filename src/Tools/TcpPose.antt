-- ===== src/Tools/TcpPose.antt =====
-- tools/tcp_pose.cpp: it moves the tool along a line of poses. The arithmetic on doubles is an
-- argument.
pub mod Main
pub mod Line
use lib_urx.Base.{
  ℕ, zero, suc, ◌+◌, ◌-◌, ◌==◌, ltb, Bool, true, false, not, ◌&&◌, if◌then◌else◌, List, [], ◌∷◌,
  length, ℤ, Run, fault, ret, ◌>>=◌,
}
use lib_urx.Double.{double_lt}
use lib_urx.Con.{Incoming}
use lib_urx.Helper.{close_vec}
use lib_urx.Robot.{Robot, RobotState}
use lib_urx.Robot.Receive.{receive_all, state}
use lib_urx.Robot.Command.{update_w, calculate_q_ref}
use lib_urx.Tools.{Doubles}
use lib_urx.Tools.RobotSpeed.{steer, still}

-- `poseDimension`.
abbrev pub pose_dimension : ℕ
pose_dimension = 6

-- `pose[j] = start_pose[j] + i*(end_pose[j] - start_pose[j]) / (steps-1)` for n places; a place that
-- a vector does not have is undefined.
unfoldable pub pose_at : Doubles → ℕ → ℕ → ℕ → List ℕ → List ℕ → Run (List ℕ)
pose_at d steps i zero start_pose end_pose = ret []
pose_at d steps i (suc n) (s ∷ start_pose) (e ∷ end_pose) =
    pose_at d steps i n start_pose end_pose >>= λ pose.
    let part = d.over (d.times (d.of_int i) (d.minus e s)) (d.of_int (steps - 1)) in
    ret (d.plus s part ∷ pose)
pose_at d steps i (suc n) _ _ = fault

-- The poses from number i on, with n left.
unfoldable pub poses_from : Doubles → ℕ → ℕ → ℕ → List ℕ → List ℕ → Run (List (List ℕ))
poses_from d steps zero i start_pose end_pose = ret []
poses_from d steps (suc n) i start_pose end_pose = do
  pose ← pose_at d steps i pose_dimension start_pose end_pose
  rest ← poses_from d steps n (i + 1) start_pose end_pose
  ret (pose ∷ rest)

unfoldable pub trace_linear : Doubles → List ℕ → List ℕ → ℕ → Run (List (List ℕ))
unfolding poses_from
trace_linear d start_pose end_pose steps = poses_from d steps steps 0 start_pose end_pose

-- `target_poses[step]`.
unfoldable pub pose_number : List (List ℕ) → ℕ → Run (List ℕ)
pose_number [] step = fault
pose_number (p ∷ ps) zero = ret p
pose_number (p ∷ ps) (suc step) = pose_number ps step

-- `step` and `timestamp` with the state of the loop.
pub record Tracing : Type 0 where
  pub robot : Robot
  pub w : List ℕ
  pub prev_err : List ℕ
  pub step : ℕ
  pub timestamp : ℕ

-- What one round of the loop meets: the frames that the receiver thread takes before each use of the
-- robot, the clock, the results of `send`, and what `wait_for_q_ref` sees.
pub record Round : Type 0 where
  pub before_state : List (Incoming × ℕ × ℕ)
  pub before_pose : List (Incoming × ℕ × ℕ)
  pub before_update : List (Incoming × ℕ × ℕ)
  pub now : ℕ
  pub pose_written : ℤ
  pub seen : ℕ → ℕ
  pub written : ℤ

-- 0.1 and 0.01.
abbrev pub period : ℕ
period = 0x3fb9_9999_9999_999a

abbrev pub tolerance : ℕ
tolerance = 0x3f84_7ae1_47ae_147b

-- The next pose, each 100 ms. `elapsed` gives the double of the seconds between two times.
unfoldable pub advance : (ℕ → ℕ → ℕ) → List (List ℕ) → Tracing → Round → Run Tracing
advance elapsed target_poses s net =
    let next =
      (receive_all s.robot net.before_pose >>= λ rb.
      pose_number target_poses (s.step + 1) >>= λ pose.
      calculate_q_ref rb pose net.pose_written net.seen >>= λ res.
      ret (record s { robot = res.0; step = s.step + 1; timestamp = net.now })) in
    if double_lt period (elapsed net.now s.timestamp) && ltb (s.step + 1) (length target_poses)
    then next
    else ret s

-- The new speeds and errors, which are kept where no reference is valid yet.
unfoldable pub speeds : Doubles → Tracing → RobotState → List ℕ × List ℕ
speeds d s told =
    if s.robot.q_ref_initialized
    then steer d told.jq_ref told.jq s.w s.prev_err
    else (still, s.prev_err)

-- The final reference is reached.
unfoldable pub is_done : Doubles → List (List ℕ) → Tracing → RobotState → Bool
is_done d target_poses s told =
    s.step + 1 == length target_poses && close_vec d.minus told.jq_ref told.jq tolerance

-- One round, and the variable `running`.
unfoldable pub round :
    Doubles → (ℕ → ℕ → ℕ) → List (List ℕ) → Tracing → Round → Run (Tracing × Bool)
round d elapsed target_poses s net = do
  heard ← receive_all s.robot net.before_state
  told ← state heard
  s1 ← advance elapsed target_poses (record s { robot = told.0 }) net
  let steered = speeds d s1 told.1
  let done = is_done d target_poses s1 told.1
  let w = if done then still else steered.0
  later ← receive_all s1.robot net.before_update
  sent ← update_w later w net.written
  ret (record s1 { robot = sent.0; w = w; prev_err = steered.1 }, not done)

-- The loop, over the rounds that there is time for.
unfoldable pub rounds :
    Doubles → (ℕ → ℕ → ℕ) → List (List ℕ) → Tracing → List Round → Run (Tracing × Bool)
rounds d elapsed target_poses s [] = ret (s, true)
rounds d elapsed target_poses s (net ∷ nets) = elim (round d elapsed target_poses s net) [
  | fault ↦ fault
  | ret (s', true) ↦ rounds d elapsed target_poses s' nets
  | ret (s', false) ↦ ret (s', false)
]

abbrev pub start_pose : List ℕ
start_pose =
    0x3fdb_851e_b851_eb85 ∷ 0xbfe2_3d70_a3d7_0a3d ∷ 0x3fe2_8f5c_28f5_c28f ∷ 0x3ff6_6666_6666_6666
    ∷ 0xbff1_9999_9999_999a ∷ 0x3ff4_cccc_cccc_cccd ∷ []

abbrev pub end_pose : List ℕ
end_pose =
    0x3fec_cccc_cccc_cccd ∷ 0xbfe6_6666_6666_6666 ∷ 0x3fe9_9999_9999_999a ∷ 0x3ffc_cccc_cccc_cccd
    ∷ 0xc004_cccc_cccc_cccd ∷ 0x4004_0000_0000_0000 ∷ []

-- What the calls of the system return behind the startup, which is that of robot_speed.cpp with
-- `init_output_TCP_pose` and `init_input_TCP_pose`.
pub record World : Type 0 where
  pub first : List (Incoming × ℕ × ℕ)
  pub begun_at : ℕ
  pub pose_written : ℤ
  pub seen : ℕ → ℕ
  pub rounds : List Round

-- `main` behind `start`, up to the end of the loop.
unfoldable pub trace : Doubles → (ℕ → ℕ → ℕ) → World → Robot → Run (Tracing × Bool)
trace d elapsed w rb = do
  target_poses ← trace_linear d start_pose end_pose 100
  pose ← pose_number target_poses 0
  heard ← receive_all rb w.first
  res ← calculate_q_ref heard pose w.pose_written w.seen
  let s : Tracing = record {
    robot = res.0;
    w = still;
    prev_err = still;
    step = 0;
    timestamp = w.begun_at;
  }
  rounds d elapsed target_poses s w.rounds
