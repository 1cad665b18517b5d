-- ===== src/Robot/Threads.antt =====
-- The receiver thread of the robot next to the threads that use it. A section that holds the lock
-- is one step, as is the call of the protocol client that `recv` makes before it takes the lock.
pub mod Keeps
pub mod States
pub mod Sound
pub mod Safety
pub mod Mailbox
use lib_urx.Base.{
  ℕ, ◌≡◌, ◌≤◌, ◌+◌, Bool, true, false, List, [], ◌∷◌, length, pos, ℤ, ret, drop, if◌then◌else◌,
}
use lib_urx.Bytes.{Bytes, AreBytes}
use lib_urx.Con.{Incoming, failed, arrived}
use lib_urx.Handler
use lib_urx.Handler.{Client}
use lib_urx.Handler.Laws.{incoming, is_expected}
use lib_urx.Robot.{Robot, RobotState}
use lib_urx.Robot.Receive.{publish, state, state_now}
use lib_urx.Robot.Command.{update_w, post_pose}

-- The receiver waits for a frame, or for the lock behind a frame that was parsed.
pub data Receiver : Type 0 where
  waiting holding : Receiver

-- `delivered` has the payloads that were parsed, and `shown` the states that were returned, the
-- latest first.
pub record System : Type 0 where
  pub robot : Robot
  pub receiver : Receiver
  pub delivered : List Bytes
  pub shown : List RobotState

-- What stands behind the header of what a read gave.
abbrev pub payload_of : Incoming → Bytes
payload_of (arrived bs) = drop 4 bs
payload_of (failed n) = []

-- What one read gives is one whole package of the output recipe, an error, or one other whole frame
-- that the recipe does not take. TCP does not promise it: a read may also give a part of a frame, or
-- several.
pub data IsWhole (h : Client) (p id : ℕ) : Incoming → Type 0 where
  fresh :
      (payload : Bytes)
      → length payload ≡ 304
      → AreBytes payload
      → IsWhole h p id (arrived (incoming 308 b'U' id payload))
  broken : (n : ℕ) → IsWhole h p id (failed n)
  strange :
      (size type id' : ℕ) (payload : Bytes)
      → size ≤ 2048
      → size ≡ 4 + length payload
      → AreBytes (incoming size type id' payload)
      → is_expected (h.recipes p) size type id' ≡ false
      → IsWhole h p id (arrived (incoming size type id' payload))

pub data Step : System → System → Type 0 where
  receives :
      (s : System) (input : Incoming) (ts : ℕ) (h : Client) (done : Bool)
      → s.receiver ≡ waiting
      → Handler.recv s.robot.client input ts ≡ ret (h, done)
      → Step s (record s {
        robot = record s.robot { client = h };
        receiver = if done then holding else waiting;
        delivered = if done then payload_of input ∷ s.delivered else s.delivered;
      })
  publishes :
      (s : System) (now : ℕ)
      → s.receiver ≡ holding
      → Step s (record s { robot = (publish s.robot now).0; receiver = waiting })
  asks :
      (s : System) (rb : Robot) (out : RobotState)
      → state s.robot ≡ ret (rb, out)
      → Step s (record s { robot = rb; shown = out ∷ s.shown })
  drives :
      (s : System) (w : List ℕ) (written : ℤ) (rb : Robot) (done : Bool)
      → update_w s.robot w written ≡ ret (rb, done)
      → Step s (record s { robot = rb })
  poses :
      (s : System) (pose : List ℕ) (written : ℤ) (rb : Robot) (done : Bool)
      → post_pose s.robot pose written ≡ ret (rb, done)
      → Step s (record s { robot = rb })

-- The states of the system that steps lead to.
pub data Reachable (s : System) : System → Type 0 where
  here : Reachable s s
  after : {t u : System} → Reachable s t → Step t u → Reachable s u

-- A step that reads a whole frame, and steps that all do. p and id are those of the output recipe.
abbrev pub IsFramed : (p id : ℕ) {s t : System} → Step s t → Type 0
IsFramed p id (receives s input ts h done w run) = IsWhole s.robot.client p id input
IsFramed p id (publishes s now w) = Unit {0}
IsFramed p id (asks s rb out run) = Unit {0}
IsFramed p id (drives s w written rb done run) = Unit {0}
IsFramed p id (poses s pose written rb done run) = Unit {0}

abbrev pub AreFramed : (p id : ℕ) {s t : System} → Reachable s t → Type 0
AreFramed p id here = Unit {0}
AreFramed p id (after before step) = AreFramed p id before × IsFramed p id step
