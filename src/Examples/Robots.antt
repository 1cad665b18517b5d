-- ===== src/Examples/Robots.antt =====
-- A robot with all fields, over a connected client.
use lib_urx.Base.{
  ℕ, ◌≡◌, ◌<◌, ◌==◌, ◌↔◌, refl, true, false, List, [], ◌∷◌, ◌++◌, take, drop, replicate, some, none,
  pos, ret, arith, if◌then◌else◌,
}
use lib_urx.Bytes.{check-AreBytes, Bytes, AreBytes, le_bytes}
use lib_urx.Memory.{peek}
use lib_urx.Header.Package.{hdr_size}
use lib_urx.Header.Control.{low_byte}
use lib_urx.Header.Responses.{rtde_parse_data_package, is_unusable}
use lib_urx.Header.Responses.Laws.{types_text}
use lib_urx.Magic.Types.{double, int32, vector6d}
use lib_urx.Recipe.{Recipe}
use lib_urx.Handler.{find_recipe}
use lib_urx.Handler.Laws.{whole}
use lib_urx.Handler.Register.{setup_frame}
use lib_urx.Robot.{write_doubles, Robot, Members, new_state}
use lib_urx.Robot.Fields.{InOrder, unused, pose_tokens, control_tokens, pose_ref_tokens}
use lib_urx.Robot.Doubles.{write_doubles-IsRam, be_bytes, write_doubles-Holds}
use lib_urx.Robot.Receive.Publish.{IsReady}
use lib_urx.Robot.Setup.{init_output, init_output_tcp_pose}
use lib_urx.Robot.Setup.Outputs.{init_output-registers, init_output_tcp_pose-registers}
use lib_urx.Robot.Command.{update_w, calculate_q_ref, wait_for_q_ref}
use lib_urx.Robot.Command.Sends.{IsLinked}
use lib_urx.Robot.Command.Payload.{update_w-sends, calculate_q_ref-sends, be_array}
use lib_urx.Robot.Command.Wait.{wait_for_q_ref-finds}
use lib_urx.Examples.Wire.{block, sevens, sevens-IsRam}
use lib_urx.Examples.Recipes.{outputs, inputs}

abbrev pub members : Members
members = record {
  out_seqnr = 0;
  timestamp = 8;
  target_q = 16;
  target_qd = 64;
  target_qdd = 112;
  target_moment = 160;
  target_tcp_pose = 208;
  q_ref_buf = 256;
  q_ref_out_seqnr_buf = 308;
  in_seqnr = 312;
  cmd = 316;
  set_qd = 320;
  tcp_pose_ref = 368;
}

pub members-InOrder : InOrder members
members-InOrder = record {
  out_seqnr = omega arith;
  timestamp = omega arith;
  target_q = omega arith;
  target_qd = omega arith;
  target_qdd = omega arith;
  target_moment = omega arith;
  target_tcp_pose = omega arith;
  q_ref_buf = omega arith;
  q_ref_out_seqnr_buf = omega arith;
  in_seqnr = omega arith;
  cmd = omega arith;
  set_qd = omega arith;
}

-- The output recipe is at 0, an input recipe at 1 and the one for poses at 2.
abbrev recipes : ℕ → Recipe
recipes p =
    if p == 0
    then record outputs { ts_ns = none; fields = pose_tokens members; bytes = 304 }
    else if p == 1
    then record inputs { fields = control_tokens members; bytes = 56 }
    else record inputs { fields = pose_ref_tokens members; bytes = 104; recipe_id = pos 3 }

abbrev pub robot : ℕ → Robot
robot input = record {
  script = record { fname = []; script = []; parsed = false };
  urx_con = record { sock = pos 5; connected = true; outgoing = [] };
  client = record {
    con = record { sock = pos 4; connected = true; outgoing = [] };
    buffer = block;
    out = some 0;
    recipes_in = (pos 2, 1) ∷ (pos 3, 2) ∷ [];
    recipes = recipes;
    ram = sevens;
  };
  members = members;
  output = some 0;
  input = some input;
  out_initialized = true;
  in_initialized = true;
  running = true;
  joinable = true;
  updated_state = false;
  q_ref_initialized = false;
  last_seqnr = 41;
  q_ref_out_seqnr = 0;
  ur_state = new_state;
  ts_log = [];
  logged = [];
  has_log = true;
}

abbrev pub payload : Bytes
payload = replicate 304 7

pub payload-AreBytes : AreBytes payload
payload-AreBytes = check-AreBytes payload refl

pub robot-IsReady : IsReady (robot 1) 0 1 (pose_tokens members) 304
robot-IsReady = record {
  initialized = refl;
  registered = refl;
  fields = refl;
  bytes = refl;
  dir_out = refl;
  recipe_id = refl;
  is_id = refl;
  is_byte = omega arith;
  untracked = refl;
  room = refl;
  are_bytes = check-AreBytes block refl;
}

-- Six velocities, or a pose.
abbrev pub six : List ℕ
six = 1 ∷ 2 ∷ 3 ∷ 4 ∷ 5 ∷ 6 ∷ []

robot-IsLinked : IsLinked (robot 1) 1 (control_tokens members) 56 block
robot-IsLinked = record {
  initialized = refl;
  input = refl;
  registered = unfold find_recipe in refl;
  fields = refl;
  bytes = refl;
  dir_in = refl;
  block = refl;
  room = refl;
  connected = refl;
}

update_w-sends_example :
    (rb' : Robot) × (b : Bytes) × (update_w (robot 1) six (pos 60) ≡ ret (rb', true))
    × (rb'.client.con.outgoing ≡ take 60 b ∷ [])
    × (hdr_size b ≡ ret 60)
    × (rtde_parse_data_package (some b) ≡ ret true)
    × (take 56 (drop 4 b) ≡ be_bytes 4 42 ++ (be_bytes 4 2 ++ be_array six []))
    × (rb'.last_seqnr ≡ 42)
    × (peek rb'.client.ram 316 4 ≡ le_bytes 4 0)
unfolding low_byte
update_w-sends_example =
    update_w-sends (robot 1) six 1 60 block members-InOrder robot-IsLinked sevens-IsRam refl
      (omega arith)

-- The velocities that are in the memory.
abbrev driven : Robot
driven = record (robot 2) {
  client = record (robot 2).client { ram = write_doubles sevens 320 six };
}

driven-IsLinked : IsLinked driven 2 (pose_ref_tokens members) 104 block
driven-IsLinked = record {
  initialized = refl;
  input = refl;
  registered = unfold find_recipe in refl;
  fields = refl;
  bytes = refl;
  dir_in = refl;
  block = refl;
  room = refl;
  connected = refl;
}

calculate_q_ref-sends_example :
    (rb' : Robot) × (b : Bytes) × (calculate_q_ref driven six (pos 108) (λ i. i)
      ≡ ret (rb', true, some (wait_for_q_ref (λ i. i) 42)))
    × (rb'.client.con.outgoing ≡ take 108 b ∷ [])
    × (hdr_size b ≡ ret 108)
    × (take 104 (drop 4 b) ≡ be_bytes 4 42 ++ (be_bytes 4 3 ++ be_array six (be_array six [])))
    × (rb'.last_seqnr ≡ 42)
    × (rb'.q_ref_initialized ≡ true)
calculate_q_ref-sends_example =
    calculate_q_ref-sends driven six six 2 108 block (λ i. i) members-InOrder driven-IsLinked
      (write_doubles-IsRam sevens 320 six sevens-IsRam)
      (write_doubles-Holds sevens 320 320 0 six refl) refl refl (omega arith)

wait_for_q_ref-finds_example :
    (wait_for_q_ref (λ i. i) 42 ≡ true) ↔ ((k : ℕ) × (k < 500) × (k ≡ 42))
wait_for_q_ref-finds_example = wait_for_q_ref-finds (λ i. i) 42

-- A robot that has not been initialized.
abbrev idle : Robot
idle = record (robot 1) {
  out_initialized = false;
  client = record (robot 1).client {
    out = none;
    recipes = λ p. unused true (record outputs { cpo = some block; ts_ns = none });
  };
}

init_output-registers_example :
    (rb' : Robot) × (init_output idle
        (whole 86 (setup_frame 9 (types_text int32 (double ∷ vector6d ∷ []))))
        (pos 0)
      ≡ ret (rb', false))
    × (rb'.out_initialized ≡ false)
    × ((rb'.client.recipes 0).fields ≡ [])
    × ((rb'.client.recipes 0).bytes ≡ 204)
    × (rb'.client.out ≡ none)
unfolding is_unusable
init_output-registers_example =
    init_output-registers idle 0 86 9 (record outputs { cpo = some block; ts_ns = none }) block
      int32 (double ∷ vector6d ∷ []) (pos 0) refl refl refl refl refl refl refl
      (check-AreBytes block refl) (omega arith) (omega arith)

init_output_tcp_pose-registers_example :
    (rb' : Robot) × (init_output_tcp_pose idle
        (whole 274 (
          setup_frame 9 (
            types_text int32 (
              double ∷ vector6d ∷ vector6d ∷ vector6d ∷ vector6d ∷ vector6d ∷ int32 ∷ double
              ∷ double ∷ double ∷ double ∷ double ∷ double ∷ []))))
        (pos 0)
      ≡ ret (rb', true))
    × (rb'.out_initialized ≡ true)
    × ((rb'.client.recipes 0).fields ≡ pose_tokens members)
    × ((rb'.client.recipes 0).bytes ≡ 304)
    × (rb'.client.out ≡ some 0)
unfolding is_unusable
init_output_tcp_pose-registers_example =
    init_output_tcp_pose-registers idle 0 274 9 (record outputs { cpo = some block; ts_ns = none })
      block int32
      (double ∷ vector6d ∷ vector6d ∷ vector6d ∷ vector6d ∷ vector6d ∷ int32 ∷ double ∷ double
        ∷ double ∷ double ∷ double ∷ double ∷ [])
      (pos 0) refl refl refl refl refl refl refl (check-AreBytes block refl) (omega arith)
      (omega arith)
