-- ===== src/Robot/Threads/Safety.antt =====
-- No state is torn: the receiver overwrites the members field by field without the lock, and a state
-- has the values of one package all the same.
use lib_urx.Handler
use lib_urx.Handler.{Client}
use lib_urx.Handler.Receive.{incoming-AreBytes, recv-rejects, recv-fails}
use lib_urx.Robot.Fields.Layouts.{pose-IsLaidOut}
use lib_urx.Robot.Receive.{snapshot, publish}
use lib_urx.Robot.Threads.{
  System, waiting, holding, IsWhole, fresh, broken, strange, Step, receives, payload_of, IsFramed,
  AreFramed, publishes, asks, drives, poses, Reachable, here, after, arrived, Incoming, incoming,
}
use lib_urx.Robot.Threads.Keeps.{Keeps, update_w-Keeps, post_pose-Keeps}
use lib_urx.Robot.Threads.States.{IsFrom, initial, carries, older, IsCopy, state-Keeps}
use mathlib.Core.Path.{subst}
use lib_urx.Base.{
  ℕ, ◌≡◌, sym, List, [], ◌∷◌, length, All, Bool, Ends, true, ret, arith, false, if◌then◌else◌,
}
use lib_urx.Bytes.{le_value, Bytes, AreBytes}
use lib_urx.Memory.{peek}
use lib_urx.Robot.{Robot, Client, new_state}
use lib_urx.Robot.Fields.{InOrder, pose_tokens}
use lib_urx.Robot.Fields.Places.{pose_tokens-Apart}
use lib_urx.Robot.Receive.Publish.{published, IsReady, filled_client, snapshot-carried, ready-recv}
use lib_urx.Robot.Threads.Sound.{IsSound, IsHeld, IsSound-Keeps, IsReady-filled, older_copies}

arrives-IsSound :
    (p id : ℕ) (s : System) (payload : Bytes) (ts : ℕ) (h : Client)
    → length payload ≡ 304
    → AreBytes payload
    → Handler.recv s.robot.client (arrived (incoming 308 b'U' id payload)) ts ≡ ret (h, true)
    → IsSound p id s
    → IsSound p id (record s {
      robot = record s.robot { client = h };
      receiver = holding;
      delivered = payload ∷ s.delivered;
    })
arrives-IsSound p id s payload ts h len bytes run i =
    let rb = s.robot in
    let ks = pose_tokens rb.members in
    let frame = incoming 308 b'U' id payload in
    let r = i.ready in
    let (m, run', fields) =
      ready-recv rb p id 304 ks payload ts r (pose-IsLaidOut (rb.client.recipes p) rb.members)
        (pose_tokens-Apart rb.members i.in_order) (omega arith) len bytes in
    let same : filled_client rb.client frame m ≡ h = cc (run, run') in
    let sound : IsSound p id (record s {
      robot = record rb { client = filled_client rb.client frame m };
      receiver = holding;
      delivered = payload ∷ s.delivered;
    }) =
      record {
        ready =
            IsReady-filled rb p id ks 304 frame m
              (incoming-AreBytes 308 b'U' id payload (omega arith) r.is_byte bytes) r;
        in_order = i.in_order;
        from = older payload s.delivered i.from;
        held = (len, fields);
        copies = older_copies payload s.delivered s.shown i.copies;
      } in
    subst
      (λ c. IsSound p id (record s {
        robot = record rb { client = c };
        receiver = holding;
        delivered = payload ∷ s.delivered;
      }))
      same sound

refilled-IsSound :
    (p id : ℕ) (s : System) (frame : Bytes)
    → AreBytes frame
    → IsSound p id s
    → IsSound p id (record s {
      robot = record s.robot { client = filled_client s.robot.client frame s.robot.client.ram };
      receiver = waiting;
    })
refilled-IsSound p id s frame b i = record {
  ready =
      IsReady-filled s.robot p id (pose_tokens s.robot.members) 304 frame s.robot.client.ram b
        i.ready;
  in_order = i.in_order;
  from = i.from;
  held = tt;
  copies = i.copies;
}

waiting-IsSound :
    (p id : ℕ) (s : System) → IsSound p id s → IsSound p id (record s { receiver = waiting })
waiting-IsSound p id s i = record {
  ready = i.ready;
  in_order = i.in_order;
  from = i.from;
  held = tt;
  copies = i.copies;
}

-- The receiver and the payloads after a read.
abbrev received : System → Incoming → Client → Bool → System
received s input h done = record s {
  robot = record s.robot { client = h };
  receiver = if done then holding else waiting;
  delivered = if done then payload_of input ∷ s.delivered else s.delivered;
}

receives-IsSound :
    (p id : ℕ) (s : System) (input : Incoming) (ts : ℕ) (h : Client) (done : Bool)
    → IsWhole s.robot.client p id input
    → Handler.recv s.robot.client input ts ≡ ret (h, done)
    → IsSound p id s
    → IsSound p id (received s input h done)
receives-IsSound p id s input ts h done (fresh payload len bytes) run i =
    let rb = s.robot in
    let (m, run', fields) =
      ready-recv rb p id 304 (pose_tokens rb.members) payload ts i.ready
        (pose-IsLaidOut (rb.client.recipes p) rb.members) (pose_tokens-Apart rb.members i.in_order)
        (omega arith) len bytes in
    let taken : done ≡ true = cc (run, run') in
    rw taken (arrives-IsSound p id s payload ts h len bytes (rw taken at run) i)
receives-IsSound p id s input ts h done (broken n) run i =
    let failed_ = recv-fails s.robot.client n ts in
    let same : s.robot.client ≡ h = cc (run, failed_) in
    let missed : done ≡ false = cc (run, failed_) in
    rw missed (
      subst
        (λ c. IsSound p id (record s { robot = record s.robot { client = c }; receiver = waiting }))
        same (waiting-IsSound p id s i))
receives-IsSound p id s input ts h done (strange size type id' payload fits whole bytes e) run i =
    let c = s.robot.client in
    let r = i.ready in
    let frame = incoming size type id' payload in
    let run' =
      recv-rejects c p size type id' payload ts r.registered r.room r.are_bytes fits whole e in
    let same : filled_client c frame c.ram ≡ h = cc (run, run') in
    let missed : done ≡ false = cc (run, run') in
    rw missed (
      subst
        (λ k. IsSound p id (record s { robot = record s.robot { client = k }; receiver = waiting }))
        same (refilled-IsSound p id s frame bytes i))

pub publish_part :
    (rb : Robot) (now : ℕ)
    → rb.out_initialized ≡ true
    → (publish rb now).0
      ≡ published rb rb.client
          (snapshot rb.members rb.client.ram now)
          (le_value (peek rb.client.ram rb.members.q_ref_out_seqnr_buf 4))
unfolding publish
publish_part rb now e = rw e

published-IsFrom :
    (rb : Robot) (now : ℕ) (ps : List Bytes)
    → IsHeld holding rb ps
    → IsFrom (snapshot rb.members rb.client.ram now) ps
published-IsFrom rb now [] h = absurd h
published-IsFrom rb now (payload ∷ ps) h =
    carries now payload ps (snapshot-carried rb.members rb.client.ram now payload h.0 h.1).0

publishes-IsSound :
    (p id : ℕ) (s : System) (now : ℕ)
    → s.receiver ≡ holding
    → IsSound p id s
    → IsSound p id (record s { robot = (publish s.robot now).0; receiver = waiting })
publishes-IsSound p id s now w i =
    let rb = s.robot in
    let r = i.ready in
    let values = snapshot rb.members rb.client.ram now in
    let found = le_value (peek rb.client.ram rb.members.q_ref_out_seqnr_buf 4) in
    let sound : IsSound p id
        (record s { robot = published rb rb.client values found; receiver = waiting }) =
      record {
        ready = record {
          initialized = r.initialized;
          registered = r.registered;
          fields = r.fields;
          bytes = r.bytes;
          dir_out = r.dir_out;
          recipe_id = r.recipe_id;
          is_id = r.is_id;
          is_byte = r.is_byte;
          untracked = r.untracked;
          room = r.room;
          are_bytes = r.are_bytes;
        };
        in_order = i.in_order;
        from = published-IsFrom rb now s.delivered (subst (λ c. IsHeld c rb s.delivered) w i.held);
        held = tt;
        copies = i.copies;
      } in
    subst (λ x. IsSound p id (record s { robot = x; receiver = waiting }))
      (sym (publish_part rb now r.initialized)) sound

Step-IsSound :
    (p id : ℕ) (s t : System) (step : Step s t)
    → IsFramed p id step
    → IsSound p id s
    → IsSound p id t
Step-IsSound p id s t (receives s' input ts h done w run) f i =
    receives-IsSound p id s' input ts h done f run i
Step-IsSound p id s t (publishes s' now w) f i = publishes-IsSound p id s' now w i
Step-IsSound p id s t (asks s' rb out run) f i =
    let (kept, copy) =
      subst (Ends (λ res. Keeps s'.robot res.0 × IsCopy s'.delivered res.1)) run
        (state-Keeps s'.robot s'.delivered i.from) in
    let sound = IsSound-Keeps p id s' rb kept i in
    record {
      ready = sound.ready;
      in_order = sound.in_order;
      from = sound.from;
      held = sound.held;
      copies = (copy, i.copies);
    }
Step-IsSound p id s t (drives s' w written rb done run) f i =
    IsSound-Keeps p id s' rb
      (subst (Ends (λ res. Keeps s'.robot res.0)) run
        (update_w-Keeps s'.robot w written i.in_order))
      i
Step-IsSound p id s t (poses s' pose written rb done run) f i =
    IsSound-Keeps p id s' rb
      (subst (Ends (λ res. Keeps s'.robot res.0)) run
        (post_pose-Keeps s'.robot pose written i.in_order))
      i

pub Reachable-IsSound :
    (p id : ℕ) (s t : System) (steps : Reachable s t)
    → AreFramed p id steps
    → IsSound p id s
    → IsSound p id t
Reachable-IsSound p id s t here f i = i
Reachable-IsSound p id s t (after before step) f i =
    Step-IsSound p id _ t step f.1 (Reachable-IsSound p id s _ before f.0 i)

-- A robot that has not published, before its threads start.
pub start-IsSound :
    (p id : ℕ) (s : System)
    → IsReady s.robot p id (pose_tokens s.robot.members) 304
    → InOrder s.robot.members
    → s.robot.ur_state ≡ new_state
    → s.receiver ≡ waiting
    → s.shown ≡ []
    → IsSound p id s
start-IsSound p id s r o e w n = record {
  ready = r;
  in_order = o;
  from = initial s.delivered e;
  held = subst (λ c. IsHeld c s.robot s.delivered) (sym w) tt;
  copies = subst (All (IsCopy s.delivered)) (sym n) tt;
}

-- From a robot that has not published, over an output recipe with all fields that is registered,
-- where every read from the connection gives an error or exactly one whole frame, be it a package of
-- the recipe or a frame that the recipe does not take: whatever order the receiver, calls of
-- `state`, `update_w` and the sending part of `calculate_q_ref` take turns in, every state that
-- `state` has returned is a copy of the initial one or of the values of one single package that was
-- delivered. A copy has all values but the local time.
pub state-untorn :
    (p id : ℕ) (s t : System)
    → IsReady s.robot p id (pose_tokens s.robot.members) 304
    → InOrder s.robot.members
    → s.robot.ur_state ≡ new_state
    → s.receiver ≡ waiting
    → s.shown ≡ []
    → (steps : Reachable s t) → AreFramed p id steps
    → All (IsCopy t.delivered) t.shown
state-untorn p id s t r o e w n steps framed =
    (Reachable-IsSound p id s t steps framed (start-IsSound p id s r o e w n)).copies
