-- ===== src/Tools/RobotSpeed.antt =====
-- tools/robot_speed.cpp: it moves the joints to one position. The arithmetic on doubles is an
-- argument.
pub mod Told
pub mod Steers
use lib_urx.Base.{
  ℕ, ◌==◌, ◌||◌, Bool, true, false, not, if◌then◌else◌, List, [], ◌∷◌, length, replicate, ◌⊎◌, inl,
  inr, ℤ, pos, Option, none, some, Run, fault, ret, ◌>>=◌,
}
use lib_urx.Bytes.{Bytes}
use lib_urx.Con.{Incoming}
use lib_urx.Helper.{close_vec, deg_to_rad}
use lib_urx.Handler.{Exchange}
use lib_urx.Robot.{Robot, dof}
use lib_urx.Robot.Setup.{init_output, init_input}
use lib_urx.Robot.Receive.{receive_all, state}
use lib_urx.Robot.Command
use lib_urx.Robot.Command.{update_w, start_, stop}
use lib_urx.Tools.{copied, Doubles}

-- The double of each constant of the source.
abbrev k_p : ℕ
k_p = 0x3fe6_6666_6666_6666

abbrev k_i : ℕ
k_i = 0x3f74_7ae1_47ae_147b

abbrev k_d : ℕ
k_d = 0x3ff1_9999_9999_999a

abbrev pub epsilon : ℕ
epsilon = 0x3f1a_36e2_eb1c_432d

unfoldable pub new_speed : Doubles → ℕ → ℕ → ℕ → ℕ
new_speed d err prev_err prev_speed =
    let p = d.times k_p err in
    let i = d.times k_i prev_speed in
    let more = d.over (d.minus err (d.times prev_err k_d)) k_d in d.plus (d.plus p i) more

-- The loop over the joints: the new speeds and the errors. All vectors have one size.
unfoldable pub steer : Doubles → List ℕ → List ℕ → List ℕ → List ℕ → List ℕ × List ℕ
steer d (a ∷ aq) (q ∷ jq) (w ∷ ws) (e ∷ prev_err) =
    let rest = steer d aq jq ws prev_err in
    let err = d.minus a q in (new_speed d err e w ∷ rest.0, err ∷ rest.1)
steer d _ _ _ _ = ([], [])

-- The six angles of `aq`, in degrees.
abbrev degrees : List ℕ
degrees =
    0x4066_8000_0000_0000 ∷ 0xc060_e000_0000_0000 ∷ 0x4056_8000_0000_0000 ∷ 0xc056_8000_0000_0000
    ∷ 0x4056_8000_0000_0000 ∷ 0xc056_8000_0000_0000 ∷ []

abbrev convert : Doubles → List ℕ → List ℕ
convert d [] = []
convert d (x ∷ xs) = deg_to_rad d.times d.over x ∷ convert d xs

unfoldable pub target : Doubles → List ℕ
target d = convert d degrees

pub record Steering : Type 0 where
  pub robot : Robot
  pub w : List ℕ
  pub prev_err : List ℕ

abbrev pub still : List ℕ
still = replicate dof 0

-- What one round of the loop meets: the frames that the receiver thread takes before `state` and
-- before `update_w`, and the result of `send`.
pub record Round : Type 0 where
  pub before_state : List (Incoming × ℕ × ℕ)
  pub before_update : List (Incoming × ℕ × ℕ)
  pub written : ℤ

-- One round, and the variable `running`.
unfoldable pub round : Doubles → List ℕ → Steering → Round → Run (Steering × Bool)
round d aq s net = do
  heard ← receive_all s.robot net.before_state
  told ← state heard
  let steered = steer d aq told.1.jq s.w s.prev_err
  let reached = close_vec d.minus told.1.jq aq epsilon
  let w = if reached then still else steered.0
  later ← receive_all told.0 net.before_update
  sent ← update_w later w net.written
  ret (record { robot = sent.0; w = w; prev_err = steered.1 }, not reached)

-- The loop, over the rounds that there is time for: the rounds that are left over.
unfoldable pub rounds :
    Doubles → List ℕ → Steering → List Round → Run (Steering × Bool × List Round)
rounds d aq s [] = ret (s, true, [])
rounds d aq s (net ∷ nets) = elim (round d aq s net) [
  | fault ↦ fault
  | ret (s', true) ↦ rounds d aq s' nets
  | ret (s', false) ↦ ret (s', false, nets)
]

pub record Options : Type 0 where
  pub ip4 : Bytes
  pub sfile : Bytes

abbrev set_option : ℕ → Bytes → Options → Options
set_option c optarg o =
    if c == b'i'
    then record o { ip4 = copied 15 optarg }
    else if c == b'f'
    then record o { sfile = copied 255 optarg }
    else o

-- The loop over what `getopt` returns: the options, or the code that `usage` exits with.
unfoldable pub parse_options : List (ℕ × Bytes) → Options → Options ⊎ ℤ
parse_options [] o = if length o.ip4 == 0 || length o.sfile == 0 then inr (pos 1) else inl o
parse_options ((c, optarg) ∷ more) o =
    let rest = parse_options more (set_option c optarg o) in if c == b'h' then inr (pos 0) else rest

-- What the calls of the system return during the startup and at the end.
pub record World : Type 0 where
  pub outputs : Exchange
  pub outputs_written : ℤ
  pub inputs : Exchange
  pub inputs_written : ℤ
  pub is_there : Bool
  pub contents : Option Bytes
  pub script_written : ℤ
  pub allowed : Bool
  pub begin_cp : Bytes
  pub begins : Exchange
  pub begun : Bool
  pub first : List (Incoming × ℕ × ℕ)
  pub rounds : List Round
  pub stop_written : ℤ
  pub end_cp : Bytes
  pub ends : Exchange

-- `init_output() && init_input() && upload_script(sfile)`; `none` is an exception.
unfoldable pub startup : World → Bytes → Robot → Option (Run (Robot × Bool))
startup w sfile rb = elim (init_output rb w.outputs w.outputs_written) [
  | fault ↦ some fault
  | ret (rb1, false) ↦ some (ret (rb1, false))
  | ret (rb1, true) ↦ elim (init_input rb1 w.inputs w.inputs_written) [
    | fault ↦ some fault
    | ret (rb2, false) ↦ some (ret (rb2, false))
    | ret (rb2, true) ↦ Command.upload_script rb2 sfile w.is_there w.contents w.script_written
  ]
]

-- From `start` on: what `main` returns, or `none` where the loop still runs.
unfoldable pub drive : Doubles → World → Robot → Run (Option ℤ × Robot)
drive d w rb = start_ rb w.allowed w.begin_cp w.begins w.begun w.first >>= λ started.
    let driven =
      (rounds d (target d) (record { robot = started.0; w = still; prev_err = still }) w.rounds
        >>= λ out.
            let stopped =
              (stop out.0.robot w.stop_written w.end_cp w.ends >>= λ res.
              ret (some (pos 0), res.0)) in
            if out.1 then ret (none, out.0.robot) else stopped) in
    if not started.1 then ret (some (pos 3), started.0) else driven

-- `main` behind the options, with the robot that the constructor makes.
unfoldable pub main : Doubles → World → Bytes → Robot → Option (Run (Option ℤ × Robot))
main d w sfile rb = elim (startup w sfile rb) [
  | none ↦ none
  | some run ↦ some (
      run >>= λ res.
      let driven = drive d w res.0 in if not res.1 then ret (some (pos 2), res.0) else driven)
]
