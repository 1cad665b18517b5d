-- ===== src/Examples/Steering.antt =====
-- Rounds of robot_speed.cpp and tcp_pose.cpp, with integers in place of doubles.
use lib_urx.Base.{
  ℕ, ◌≡◌, ◌==◌, ◌++◌, refl, not, if◌then◌else◌, List, [], ◌∷◌, take, drop, replicate, none, pos,
  ret, arith, inl, ◌+◌,
}
use lib_urx.Bytes.{Bytes, check-AreBytes}
use lib_urx.Con.{arrived}
use lib_urx.Header.Package.{hdr_size}
use lib_urx.Helper.{close_vec}
use lib_urx.Recipe.{Recipe}
use lib_urx.Handler.{find_recipe}
use lib_urx.Handler.Laws.{incoming}
use lib_urx.Handler.Session.{IsOutput}
use lib_urx.Robot.{Robot}
use lib_urx.Robot.Fields.{state_tokens, control_tokens}
use lib_urx.Robot.Fields.Layouts.{state-IsLaidOut}
use lib_urx.Robot.Doubles.{be_bytes}
use lib_urx.Robot.Command.Payload.{be_array}
use lib_urx.Tools.RobotSpeed
use lib_urx.Tools.RobotSpeed.{steer, still, epsilon, round}
use lib_urx.Tools.RobotSpeed.Told.{IsSetUp, angles}
use lib_urx.Tools.RobotSpeed.Steers.{round-steers}
use lib_urx.Base.{length, ◌-◌, ◌>>=◌, ltb, ◌&&◌}
use lib_urx.Double.{double_lt}
use lib_urx.Robot.Receive.{receive_all}
use lib_urx.Robot.Command.{calculate_q_ref}
use lib_urx.Tools.TcpPose
use lib_urx.Tools.TcpPose.{trace_linear, advance}
use lib_urx.Tools.TcpPose.Line.{on_line, advance-follows}
use lib_urx.Examples.Wire.{block, sevens-IsRam}
use lib_urx.Examples.Recipes.{outputs, inputs}
use lib_urx.Examples.Robots.{robot, members, members-InOrder, six}
use lib_urx.Examples.Tools.{integers}

abbrev recipes : ℕ → Recipe
recipes p =
    if p == 0
    then record outputs { ts_ns = none; fields = state_tokens members; bytes = 204 }
    else record inputs { fields = control_tokens members; bytes = 56 }

abbrev ready : Robot
ready = record (robot 1) { client = record (robot 1).client { recipes = recipes } }

state-IsOutput : IsOutput 1 204 none (state_tokens members)
state-IsOutput = record {
  is_id = refl;
  is_byte = omega arith;
  layout = state-IsLaidOut outputs members;
  fits = omega arith;
  apart = (
    (
      inl (omega arith),
      (inl (omega arith), (inl (omega arith), (inl (omega arith), (inl (omega arith), tt)))),
    ),
    (
      (inl (omega arith), (inl (omega arith), (inl (omega arith), (inl (omega arith), tt)))),
      (
        (inl (omega arith), (inl (omega arith), (inl (omega arith), tt))),
        ((inl (omega arith), (inl (omega arith), tt)), ((inl (omega arith), tt), (tt, tt))),
      ),
    ),
  );
  clear = tt;
}

ready-IsSetUp : IsSetUp ready 0 1 1 (pos 2)
unfolding find_recipe
ready-IsSetUp = record {
  out_initialized = refl;
  in_initialized = refl;
  input = refl;
  in_order = members-InOrder;
  is_output = state-IsOutput;
  talks = record {
    hears_it = record {
      registered = refl;
      fields = refl;
      bytes = refl;
      dir_out = refl;
      recipe_id = refl;
      tracked = refl;
      room = refl;
      are_bytes = check-AreBytes block refl;
      memory = sevens-IsRam;
    };
    sends_it = record {
      registered = refl;
      fields = refl;
      bytes = refl;
      dir_in = refl;
      block = (block, refl, refl);
      connected = refl;
      memory = sevens-IsRam;
    };
  };
}

abbrev pose : Bytes
pose = replicate 204 7

abbrev steering : RobotSpeed.Steering
steering = record { robot = ready; w = still; prev_err = still }

abbrev speeds : List ℕ
speeds =
    if close_vec integers.minus (angles pose) six epsilon
    then still
    else (steer integers six (angles pose) still still).0

round-steers_example :
    (s' : RobotSpeed.Steering) × (b : Bytes) × (round integers six steering (record {
      before_state = (arrived (incoming 208 b'U' 1 pose), 77, 88) ∷ [];
      before_update = [];
      written = pos 60;
    })
      ≡ ret (s', not (close_vec integers.minus (angles pose) six epsilon)))
    × (s'.w ≡ speeds)
    × (s'.prev_err ≡ (steer integers six (angles pose) still still).1)
    × (s'.robot.client.con.outgoing ≡ take 60 b ∷ [])
    × (hdr_size b ≡ ret 60)
    × (take 56 (drop 4 b) ≡ be_bytes 4 42 ++ (be_bytes 4 2 ++ be_array speeds []))
round-steers_example =
    round-steers integers six steering 0 1 1 60 (pos 2) pose 77 88 ready-IsSetUp refl
      (check-AreBytes pose refl) refl refl refl (omega arith)

-- The loop of tcp_pose.cpp at its second step, when nothing has come in.
abbrev tracing : TcpPose.Tracing
tracing = record { robot = robot 2; w = still; prev_err = still; step = 1; timestamp = 0 }

abbrev tracing_round : TcpPose.Round
tracing_round = record {
  before_state = [];
  before_pose = [];
  before_update = [];
  now = TcpPose.tolerance + TcpPose.period;
  pose_written = pos 108;
  seen = λ i. i;
  written = pos 108;
}

advance-follows_example :
    (ps : List (List ℕ)) × (trace_linear integers six six 3 ≡ ret ps)
    × (length ps ≡ 3)
    × (advance (λ b a. b - a) ps tracing tracing_round ≡ (
        if double_lt TcpPose.period (tracing_round.now - 0) && ltb (1 + 1) 3
        then (receive_all (robot 2) [] >>= λ rb.
            calculate_q_ref rb (on_line integers 3 (1 + 1) six six) (pos 108) (λ i. i) >>= λ res.
            ret (record tracing { robot = res.0; step = 1 + 1; timestamp = tracing_round.now }))
        else ret tracing))
advance-follows_example =
    advance-follows integers (λ b a. b - a) six six 3 tracing tracing_round refl refl (omega arith)
