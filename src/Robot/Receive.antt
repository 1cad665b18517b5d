-- ===== src/Robot/Receive.antt =====
-- `recv`, `state` and `run` of src/robot.cpp. A section that holds the lock is one function.
pub mod Publish
pub mod Latest
use lib_urx.Base.{
  ℕ, not, Bool, true, false, if◌then◌else◌, ltb, List, [], ◌∷◌, ◌++◌, some, length, Run, ret, ◌>>=◌,
}
use lib_urx.Bytes.{le_value}
use lib_urx.Memory.{peek, Ram}
use lib_urx.Con.{Incoming}
use lib_urx.Handler
use lib_urx.Robot.{
  Robot, RobotState, dof, read_double, read_doubles, to_int32, copy_state, assign_state, new_state,
  Members,
}

-- The values that `recv` copies out of the members that the recipe points to.
unfoldable pub snapshot : Members → Ram → ℕ → RobotState
snapshot mem m now = record {
  local_ts_us = some now;
  ur_ts = read_double m mem.timestamp;
  seqnr = to_int32 (le_value (peek m mem.out_seqnr 4));
  jq_ref = read_doubles dof m mem.q_ref_buf;
  jq = read_doubles dof m mem.target_q;
  jqd = read_doubles dof m mem.target_qd;
  jqdd = read_doubles dof m mem.target_qdd;
  jt = read_doubles dof m mem.target_moment;
  tcp_pose = read_doubles dof m mem.target_tcp_pose;
}

-- The part of `recv` that holds the lock; `now` is the clock.
unfoldable pub publish : Robot → ℕ → Robot × Bool
publish rb now =
    let m = rb.client.ram in
    let s = snapshot rb.members m now in
    let rb' = record rb {
      ur_state = s;
      q_ref_out_seqnr = le_value (peek m rb.members.q_ref_out_seqnr_buf 4);
      updated_state = true;
      ts_log = rb.ts_log ++ ((s.local_ts_us, s.ur_ts) ∷ []);
    } in
    if not rb.out_initialized then (rb, false) else (rb', true)

-- `ts` is the time that the connection gives the frame.
unfoldable pub recv : Robot → Incoming → ℕ → ℕ → Run (Robot × Bool)
recv rb input ts now = Handler.recv rb.client input ts >>= λ res.
    let rb' = record rb { client = res.0 } in ret (if res.1 then publish rb' now else (rb', false))

-- The result is a copy of the member.
unfoldable pub loc_state : Robot → Robot × RobotState
loc_state rb =
    (if rb.updated_state then record rb { updated_state = false } else rb, copy_state rb.ur_state)

-- More than 500 entries of the log are dropped, and written out where there is a log file.
unfoldable pub rotate_log : Robot → Robot
rotate_log rb =
    if ltb 500 (length rb.ts_log)
    then record rb {
      ts_log = [];
      logged = if rb.has_log then rb.logged ++ rb.ts_log else rb.logged;
    }
    else rb

-- `state()` from the end of its wait on: `updated_state` says whether the wait has met its
-- condition.
unfoldable pub state : Robot → Run (Robot × RobotState)
state rb =
    let (rb', s) = loc_state rb in
    let fresh = assign_state new_state s >>= λ out. ret (rotate_log rb', out) in
    if rb.updated_state then fresh else ret (rb, new_state)

-- `state(false)`.
unfoldable pub state_now : Robot → Run (Robot × RobotState)
state_now rb = let (rb', s) = loc_state rb in assign_state new_state s >>= λ out. ret (rb', out)

-- `run`, for the frames that come in before `running_` is cleared. The result of `recv` is not
-- looked at.
unfoldable pub receive_all : Robot → List (Incoming × ℕ × ℕ) → Run Robot
receive_all rb [] = ret rb
receive_all rb (i ∷ is) = elim (recv rb i.0 i.1 i.2) [
  | Run.fault ↦ Run.fault
  | ret res ↦ receive_all res.0 is
]

unfoldable pub run : Robot → List (Incoming × ℕ × ℕ) → Run Robot
run rb frames = receive_all (if not rb.running then record rb { running = true } else rb) frames
