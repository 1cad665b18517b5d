-- ===== src/Tools/TcpPose/Main.antt =====
-- The start and the end of tcp_pose.cpp; its options are read as in robot_speed.cpp.
use lib_urx.Base.{
  ℕ, Bool, true, false, not, if◌then◌else◌, List, ℤ, pos, Option, none, some, Run, fault, ret,
  ◌>>=◌,
}
use lib_urx.Bytes.{Bytes}
use lib_urx.Handler.{Exchange}
use lib_urx.Robot.{Robot}
use lib_urx.Robot.Setup.{init_output_tcp_pose, init_input_tcp_pose}
use lib_urx.Robot.Command
use lib_urx.Robot.Command.{start_, stop}
use lib_urx.Tools.{Doubles}
use lib_urx.Tools.TcpPose.{World, trace, Incoming}

-- What the calls of the system return in front of the loop and behind it.
pub record Calls : Type 0 where
  pub outputs : Exchange
  pub outputs_written : ℤ
  pub inputs : Exchange
  pub inputs_written : ℤ
  pub is_there : Bool
  pub contents : Option Bytes
  pub script_written : ℤ
  pub allowed : Bool
  pub begin_cp : Bytes
  pub begins : Exchange
  pub begun : Bool
  pub first : List (Incoming × ℕ × ℕ)
  pub stop_written : ℤ
  pub end_cp : Bytes
  pub ends : Exchange

-- `init_output_TCP_pose() && init_input_TCP_pose() && upload_script(sfile)`; `none` is an exception.
unfoldable pub startup : Calls → Bytes → Robot → Option (Run (Robot × Bool))
startup w sfile rb = elim (init_output_tcp_pose rb w.outputs w.outputs_written) [
  | fault ↦ some fault
  | ret (rb1, false) ↦ some (ret (rb1, false))
  | ret (rb1, true) ↦ elim (init_input_tcp_pose rb1 w.inputs w.inputs_written) [
    | fault ↦ some fault
    | ret (rb2, false) ↦ some (ret (rb2, false))
    | ret (rb2, true) ↦ Command.upload_script rb2 sfile w.is_there w.contents w.script_written
  ]
]

-- From `start` on: what `main` returns, or `none` where the loop still runs.
unfoldable pub drive : Doubles → (ℕ → ℕ → ℕ) → Calls → World → Robot → Run (Option ℤ × Robot)
drive d elapsed w t rb = start_ rb w.allowed w.begin_cp w.begins w.begun w.first >>= λ started.
    let driven =
      (trace d elapsed t started.0 >>= λ out.
      let stopped =
        (stop out.0.robot w.stop_written w.end_cp w.ends >>= λ res. ret (some (pos 0), res.0)) in
      if out.1 then ret (none, out.0.robot) else stopped) in
    if not started.1 then ret (some (pos 3), started.0) else driven

-- `main` behind the options, with the robot that the constructor makes.
unfoldable pub main :
    Doubles → (ℕ → ℕ → ℕ) → Calls → World → Bytes → Robot → Option (Run (Option ℤ × Robot))
main d elapsed w t sfile rb = elim (startup w sfile rb) [
  | none ↦ none
  | some run ↦ some (
      run >>= λ res.
      let driven = drive d elapsed w t res.0 in
      if not res.1 then ret (some (pos 2), res.0) else driven)
]
