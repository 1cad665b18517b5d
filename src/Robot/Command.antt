-- ===== src/Robot/Command.antt =====
-- What src/robot.cpp sends: `update_w`, `calculate_q_ref` with `wait_for_q_ref`, `start` and `stop`.
pub mod Sends
pub mod Payload
pub mod Wait
pub mod Refused
pub mod Stopped
use lib_urx.Base.{
  ℕ, zero, suc, ◌+◌, ◌%◌, ◌^◌, ◌==◌, not, Bool, true, false, if◌then◌else◌, List, Option, none,
  some, length, ℤ, Run, fault, ret, ◌>>=◌,
}
use lib_urx.Bytes.{Bytes}
use lib_urx.Memory.{Ram}
use lib_urx.Script
use lib_urx.Con.{Incoming}
use lib_urx.Robot.Receive.{run}
use lib_urx.Handler
use lib_urx.Handler.{Client, Exchange}
use lib_urx.Robot.{
  Robot, dof, write_doubles, write_word, no_command, stop_command, new_control_input_command,
  new_tcp_pose_ref_command,
}

abbrev pub set_ram : Robot → Ram → Robot
set_ram rb m = record rb { client = record rb.client { ram = m } }

-- `++last_seqnr` of a uint32_t.
abbrev pub next_seqnr : Robot → ℕ
next_seqnr rb = (rb.last_seqnr + 1) % 2 ^ 32

-- `in_seqnr = ++last_seqnr; cmd = command;`
unfoldable pub prepare : Robot → ℕ → Robot
prepare rb command =
    let seq = next_seqnr rb in
    let m = write_word rb.client.ram rb.members.in_seqnr seq in
    set_ram (record rb { last_seqnr = seq }) (write_word m rb.members.cmd command)

-- `rtdeh_->send(in->recipe_id())`.
unfoldable pub send_input : Robot → ℤ → Run (Robot × Bool)
send_input rb written = elim rb.input [
  | none ↦ fault
  | some p ↦ Handler.send rb.client (rb.client.recipes p).recipe_id written >>= λ res.
      ret (record rb { client = res.0 }, res.1)
]

-- A command that goes out; `cmd` is reset where it did.
unfoldable pub command : Robot → ℕ → ℤ → Run (Robot × Bool)
command rb c written = send_input (prepare rb c) written >>= λ res.
    let rb' = res.0 in
    ret (
      if res.1
      then (set_ram rb' (write_word rb'.client.ram rb'.members.cmd no_command), true)
      else (rb', false))

unfoldable pub update_w : Robot → List ℕ → ℤ → Run (Robot × Bool)
update_w rb new_w written =
    let rb' = set_ram rb (write_doubles rb.client.ram rb.members.set_qd new_w) in
    let sent = command rb' new_control_input_command written in
    if not (length new_w == dof)
    then ret (rb, false)
    else if not rb.in_initialized
    then ret (rb, false)
    else sent

-- The loop of `wait_for_q_ref`: `seen i` is the member `q_ref_out_seqnr` that the wait of attempt i
-- looked at last.
unfoldable pub wait_attempts : ℕ → ℕ → (ℕ → ℕ) → ℕ → Bool
wait_attempts zero i seen seqnr = false
wait_attempts (suc n) i seen seqnr =
    let rest = wait_attempts n (i + 1) seen seqnr in if seen i == seqnr then true else rest

-- The result says whether it returned before the message that it never received the number.
unfoldable pub wait_for_q_ref : (ℕ → ℕ) → ℕ → Bool
wait_for_q_ref seen seqnr = wait_attempts 500 0 seen seqnr

-- The part of `calculate_q_ref` that holds the lock.
unfoldable pub post_pose : Robot → List ℕ → ℤ → Run (Robot × Bool)
post_pose rb new_pose written =
    let rb' = set_ram rb (write_doubles rb.client.ram rb.members.tcp_pose_ref new_pose) in
    let sent = command rb' new_tcp_pose_ref_command written in
    if not (length new_pose == dof)
    then ret (rb, false)
    else if not rb.in_initialized
    then ret (rb, false)
    else sent

-- The last part of the result is what `wait_for_q_ref` came to, which is not looked at. The
-- destructor of the future that `std::async` returns waits for the call.
unfoldable pub calculate_q_ref : Robot → List ℕ → ℤ → (ℕ → ℕ) → Run (Robot × Bool × Option Bool)
calculate_q_ref rb new_pose written seen = post_pose rb new_pose written >>= λ res.
    let rb' = res.0 in
    let found = wait_for_q_ref seen rb'.last_seqnr in
    let initialized = rb'.q_ref_initialized in
    let waited = record rb' { q_ref_initialized = if initialized then initialized else true } in
    ret (if res.1 then (waited, true, some found) else (rb', false, none))

-- `start_`. `allowed` is what `f` returns. If the thread has begun before the wait is over, it has
-- received `frames` by then. Replacing a joinable thread terminates the program.
unfoldable pub start_ :
    Robot → Bool → Bytes → Exchange → Bool → List (Incoming × ℕ × ℕ) → Run (Robot × Bool)
start_ rb allowed stack net begun frames =
    let launched : Run (Robot × Bool) = Handler.start stack rb.client net >>= λ res.
    let rb' = record rb { client = res.0; joinable = true } in
    (if begun then run rb' frames else ret rb') >>= λ waited. ret (waited, waited.updated_state) in
    if not rb.out_initialized
    then ret (rb, false)
    else if not allowed
    then ret (rb, false)
    else if rb.joinable
    then fault
    else launched

-- The result of `send` is only printed, and that of the handler's `stop` is dropped. `join` throws
-- where there is no thread. The receiver takes no frame between the package and the join: the
-- frames that it took until then are in the robot already.
unfoldable pub stop : Robot → ℤ → Bytes → Exchange → Run (Robot × Bool)
stop rb written stack net =
    let stopped : Run (Robot × Bool) = send_input (prepare rb stop_command) written >>= λ res.
    let rb' = record res.0 { running = false; joinable = false } in
    if not rb.joinable
    then fault
    else (Handler.stop stack rb'.client net >>= λ out. ret (record rb' { client = out.0 }, true)) in
    if not rb.running then ret (rb, false) else stopped

unfoldable pub upload_script : Robot → Bytes → Bool → Option Bytes → ℤ → Option (Run (Robot × Bool))
upload_script rb script is_there contents written =
    elim (Script.upload_script rb.script rb.urx_con script is_there contents written) [
      | none ↦ none
      | some done ↦
          some (done >>= λ res. ret (record rb { script = res.0; urx_con = res.1 }, res.2))
    ]
