-- ===== src/Examples/Threads.antt =====
-- A package arrives, is published and is asked for.
use lib_urx.Base.{refl, [], ◌∷◌, All, arith, false, ◌≡◌, ret, true}
use lib_urx.Memory.{Ram}
use lib_urx.Handler
use lib_urx.Con.{arrived}
use lib_urx.Robot.{copy_state, assign_state, read_doubles}
use lib_urx.Robot.Receive.{state, loc_state, rotate_log, snapshot}
use lib_urx.Base.{◌≡◌, ret}
use lib_urx.Handler.Laws.{incoming}
use lib_urx.Robot.{copy_state, assign_state, read_doubles}
use lib_urx.Robot.Fields.{pose_tokens}
use lib_urx.Robot.Fields.Layouts.{pose-IsLaidOut}
use lib_urx.Robot.Fields.Places.{pose_tokens-Apart}
use lib_urx.Robot.Receive.{publish, state, loc_state, rotate_log, snapshot}
use lib_urx.Robot.Receive.Publish.{filled_client, ready-recv}
use lib_urx.Robot.Threads.{
  System, waiting, holding, receives, fresh, publishes, asks, Step, Reachable, here, after,
}
use lib_urx.Robot.Threads.States.{IsCopy}
use lib_urx.Robot.Threads.Mailbox.{Move, replied, view, Step-Move}
use lib_urx.Robot.Threads.Safety.{state-untorn}
use lib_urx.Examples.Robots.{robot, payload, payload-AreBytes, robot-IsReady, members-InOrder}

abbrev begin : System
begin = record { robot = robot 1; receiver = waiting; delivered = []; shown = [] }

arrival :
    (m : Ram) × (Handler.recv (robot 1).client (arrived (incoming 308 b'U' 1 payload)) 77
      ≡ ret (filled_client (robot 1).client (incoming 308 b'U' 1 payload) m, true))
arrival =
    let (m, run, fields) =
      ready-recv (robot 1) 0 1 304 (pose_tokens (robot 1).members) payload 77 robot-IsReady
        (pose-IsLaidOut ((robot 1).client.recipes 0) (robot 1).members)
        (pose_tokens-Apart (robot 1).members members-InOrder) (omega arith) refl payload-AreBytes in
    (m, run)

abbrev parsed : System
parsed = record {
  robot = record (robot 1) {
    client = filled_client (robot 1).client (incoming 308 b'U' 1 payload) arrival.0;
  };
  receiver = holding;
  delivered = payload ∷ [];
  shown = [];
}

abbrev published : System
published = record parsed { robot = (publish parsed.robot 88).0; receiver = waiting }

abbrev answered : System
answered = record published {
  robot = record published.robot { updated_state = false };
  shown = copy_state published.robot.ur_state ∷ [];
}

answer : state published.robot ≡ ret (answered.robot, copy_state published.robot.ur_state)
unfolding state loc_state rotate_log publish assign_state copy_state snapshot read_doubles
answer = refl

abbrev asked : Step published answered
asked = asks published answered.robot (copy_state published.robot.ur_state) answer

abbrev two_steps : Reachable begin published
two_steps =
    after
      (after here (
        receives begin (arrived (incoming 308 b'U' 1 payload)) 77 parsed.robot.client true refl
          arrival.1))
      (publishes parsed 88 refl)

abbrev steps : Reachable begin answered
steps = after two_steps asked

state-untorn_example : All (IsCopy (payload ∷ [])) (copy_state published.robot.ur_state ∷ [])
state-untorn_example =
    state-untorn 0 1 begin answered robot-IsReady members-InOrder refl refl refl steps
      ((((tt, fresh payload refl payload-AreBytes), tt), tt))

Step-Move_example :
    Move
      (payload ∷ [])
      replied
      (view published.robot)
      []
      (view answered.robot)
      (copy_state published.robot.ur_state ∷ [])
Step-Move_example =
    Step-Move 0 1 begin published answered robot-IsReady members-InOrder refl refl refl two_steps
      ((tt, fresh payload refl payload-AreBytes), tt) asked
