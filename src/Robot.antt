-- ===== src/Robot.antt =====
-- include/urx/robot.hpp and src/robot.cpp: the robot. Recipes point to members of the robot, so
-- those members are stretches of the memory that the client has; the other members are fields.
pub mod Setup
pub mod Receive
pub mod Command
pub mod Doubles
pub mod Threads
pub mod Fields
use lib_urx.Base.{
  ℕ, zero, suc, ◌+◌, ◌-◌, ◌^◌, ◌≤◌, Bool, true, false, if◌then◌else◌, ltb, List, [], ◌∷◌, Option,
  none, some, replicate, ℤ, pos, negsuc, Run, ret, fault, ◌>>=◌,
}
use lib_urx.Bytes.{Bytes, le_value, le_bytes}
use lib_urx.Memory.{Ram, peek, poke}
use lib_urx.Script.{Script}
use lib_urx.Con.{Con}
use lib_urx.Recipe.{new_recipe, set_dir}
use lib_urx.Handler.{Client, Exchange, put_recipe, set_version}

-- `DOF`.
abbrev pub dof : ℕ
dof = 6

abbrev pub no_command : ℕ
no_command = 0

abbrev pub stop_command : ℕ
stop_command = 1

abbrev pub new_control_input_command : ℕ
new_control_input_command = 2

abbrev pub new_tcp_pose_ref_command : ℕ
new_tcp_pose_ref_command = 3

-- Doubles are their bits, and times are microseconds. `local_ts_us` is `none` where no constructor
-- has set it.
pub record RobotState : Type 0 where
  pub local_ts_us : Option ℕ
  pub ur_ts : ℕ
  pub seqnr : ℤ
  pub jq_ref : List ℕ
  pub jq : List ℕ
  pub jqd : List ℕ
  pub jqdd : List ℕ
  pub jt : List ℕ
  pub tcp_pose : List ℕ

abbrev zeros : List ℕ
zeros = replicate dof 0

abbrev pub new_state : RobotState
new_state = record {
  local_ts_us = none;
  ur_ts = 0;
  seqnr = pos 0;
  jq_ref = zeros;
  jq = zeros;
  jqd = zeros;
  jqdd = zeros;
  jt = zeros;
  tcp_pose = zeros;
}

-- The copy constructor: it does not copy the local time.
unfoldable pub copy_state : RobotState → RobotState
copy_state a = record a { local_ts_us = none }

-- `this[i] = a[i]` for each joint.
unfoldable pub copy_joints : ℕ → List ℕ → List ℕ → Run (List ℕ)
copy_joints zero this a = ret this
copy_joints (suc n) (x ∷ this) (y ∷ a) = copy_joints n this a >>= λ r. ret (y ∷ r)
copy_joints _ _ _ = fault

-- `operator=` and `copy_from`.
unfoldable pub assign_state : RobotState → RobotState → Run RobotState
unfolding copy_joints
assign_state this a = do
  jq_ref ← copy_joints dof this.jq_ref a.jq_ref
  jq ← copy_joints dof this.jq a.jq
  jqd ← copy_joints dof this.jqd a.jqd
  jqdd ← copy_joints dof this.jqdd a.jqdd
  jt ← copy_joints dof this.jt a.jt
  tcp_pose ← copy_joints dof this.tcp_pose a.tcp_pose
  ret (record {
    local_ts_us = a.local_ts_us;
    ur_ts = a.ur_ts;
    seqnr = a.seqnr;
    jq_ref = jq_ref;
    jq = jq;
    jqd = jqd;
    jqdd = jqdd;
    jt = jt;
    tcp_pose = tcp_pose;
  })

-- The addresses of the members that fields of recipes point to.
pub record Members : Type 0 where
  pub out_seqnr : ℕ
  pub timestamp : ℕ
  pub target_q : ℕ
  pub target_qd : ℕ
  pub target_qdd : ℕ
  pub target_moment : ℕ
  pub target_tcp_pose : ℕ
  pub q_ref_buf : ℕ
  pub q_ref_out_seqnr_buf : ℕ
  pub in_seqnr : ℕ
  pub cmd : ℕ
  pub set_qd : ℕ
  pub tcp_pose_ref : ℕ

-- `running` is `running_`, `joinable` says that `receiver` stands for a thread. `logged` is what was
-- written to `ts_log_fd`, and `has_log` says that this is not null.
pub record Robot : Type 0 where
  pub script : Script
  pub urx_con : Con
  pub client : Client
  pub members : Members
  pub output : Option ℕ
  pub input : Option ℕ
  pub out_initialized : Bool
  pub in_initialized : Bool
  pub running : Bool
  pub joinable : Bool
  pub updated_state : Bool
  pub q_ref_initialized : Bool
  pub last_seqnr : ℕ
  pub q_ref_out_seqnr : ℕ
  pub ur_state : RobotState
  pub ts_log : List (Option ℕ × ℕ)
  pub logged : List (Option ℕ × ℕ)
  pub has_log : Bool

-- A double, and n doubles of an array.
abbrev pub read_double : Ram → ℕ → ℕ
read_double m a = le_value (peek m a 8)

unfoldable pub read_doubles : ℕ → Ram → ℕ → List ℕ
read_doubles zero m a = []
read_doubles (suc n) m a = read_double m a ∷ read_doubles n m (a + 8)

unfoldable pub write_doubles : Ram → ℕ → List ℕ → Ram
write_doubles m a [] = m
write_doubles m a (x ∷ xs) = write_doubles (poke m a (le_bytes 8 x)) (a + 8) xs

abbrev pub write_word : Ram → ℕ → ℕ → Ram
write_word m a v = poke m a (le_bytes 4 v)

-- The uint32_t as an int32_t.
unfoldable pub to_int32 : ℕ → ℤ
to_int32 v = if ltb v (2 ^ 31) then pos v else negsuc (2 ^ 32 - 1 - v)

-- The constructor, over a connected client. The recipes go to two places of the store; `has` says
-- which allocations succeed, `stack` and `net` are those of `set_version`, whose result is not
-- looked at. The last argument says whether the log file can be opened.
unfoldable pub new_robot :
    Members → Script → Con → Client → ℕ → ℕ → (ℕ → Bool) → Bytes → Exchange → Bool → Run Robot
unfolding new_recipe set_dir set_version poke le_bytes
new_robot mem script urx_con rtdeh out_at in_at has stack net has_log = do
  output ← new_recipe (has 0) (has 1) (has 2)
  input ← new_recipe (has 3) (has 4) (has 5)
  let turned = (set_dir (has 6) input false).0
  let h = put_recipe (put_recipe rtdeh out_at output) in_at turned
  let m = write_word (write_word h.ram mem.in_seqnr 1) mem.cmd no_command
  asked ← set_version stack (record h { ram = m }) net
  ret (record {
    script = script;
    urx_con = urx_con;
    client = asked.0;
    members = mem;
    output = some out_at;
    input = some in_at;
    out_initialized = false;
    in_initialized = false;
    running = false;
    joinable = false;
    updated_state = false;
    q_ref_initialized = false;
    last_seqnr = 0;
    q_ref_out_seqnr = 0;
    ur_state = new_state;
    ts_log = [];
    logged = [];
    has_log = has_log;
  })
