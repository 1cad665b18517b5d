-- ===== src/Robot/Threads/Mailbox.antt =====
-- What the threads promise their users: a mailbox that holds the latest state.
use mathlib.Core.Path.{subst}
use lib_urx.Base.{
  ℕ, ◌≡◌, refl, sym, Bool, true, false, if◌then◌else◌, List, [], ◌∷◌, length, ltb, ret, Run, Ends,
  Bool-cases, inl, inr,
}
use lib_urx.Bytes.{Bytes}
use lib_urx.Robot.{Robot, RobotState, new_state, copy_state}
use lib_urx.Robot.Fields.{InOrder, pose_tokens}
use lib_urx.Robot.Receive.{publish, state, loc_state, rotate_log}
use lib_urx.Robot.Receive.Publish.{IsReady, carried, snapshot-carried}
use lib_urx.Robot.Threads.{
  System, waiting, holding, Step, receives, AreFramed, publishes, asks, drives, poses, Reachable,
}
use lib_urx.Robot.Threads.Keeps.{
  Keeps, update_w-Keeps, post_pose-Keeps, update_w-KeepsFlag, post_pose-KeepsFlag,
}
use lib_urx.Robot.Threads.States.{IsFrom, assign_copy}
use lib_urx.Robot.Threads.Sound.{IsSound, IsHeld}
use lib_urx.Robot.Threads.Safety.{publish_part, start-IsSound, Reachable-IsSound}

-- A value, and whether it has not been taken yet.
pub record Mailbox : Type 0 where
  pub value : RobotState
  pub is_new : Bool

-- What a user is told: a copy of a value that was not taken yet, or an initial state.
abbrev pub reply : Mailbox → RobotState
reply b = if b.is_new then copy_state b.value else new_state

-- What a user sees of a step.
pub data Event : Type 0 where
  hidden posted replied : Event

-- The moves of a mailbox, with the payloads that were delivered and the replies so far: one that
-- cannot be seen leaves the mailbox, the values of the latest payload may be put in, and a reply
-- takes the value.
pub data Move (ps : List Bytes)
    : Event → Mailbox → List RobotState → Mailbox → List RobotState → Type 0 where
  stays : (b : Mailbox) (told : List RobotState) → Move ps hidden b told b told
  posts :
      (b : Mailbox) (told : List RobotState) (now : ℕ) (payload : Bytes) (older : List Bytes)
      → ps ≡ payload ∷ older
      → Move ps posted b told (record { value = carried now payload; is_new = true }) told
  replies :
      (b : Mailbox) (told : List RobotState)
      → Move ps replied b told (record b { is_new = false }) (reply b ∷ told)

abbrev pub event : {t u : System} → Step t u → Event
event (receives t input ts h done w run) = hidden
event (publishes t now w) = posted
event (asks t rb out run) = replied
event (drives t w written rb done run) = hidden
event (poses t pose written rb done run) = hidden

-- The mailbox that a robot is.
abbrev pub view : Robot → Mailbox
view rb = record { value = rb.ur_state; is_new = rb.updated_state }

view_kept :
    (rb rb' : Robot)
    → rb'.ur_state ≡ rb.ur_state
    → rb'.updated_state ≡ rb.updated_state
    → view rb ≡ view rb'
view_kept rb rb' e f = rw (e, f)

keeps-Move :
    (ps : List Bytes) (told : List RobotState) (rb rb' : Robot)
    → rb'.ur_state ≡ rb.ur_state
    → rb'.updated_state ≡ rb.updated_state
    → Move ps hidden (view rb) told (view rb') told
keeps-Move ps told rb rb' e f =
    subst (λ b. Move ps hidden (view rb) told b told) (view_kept rb rb' e f) (stays (view rb) told)

view_rotated : (rb : Robot) → view (rotate_log rb) ≡ view rb
unfolding rotate_log
view_rotated rb = elim (Bool-cases (ltb 500 (length rb.ts_log))) [ inl e ↦ rw e | inr e ↦ rw e ]

-- A call of `state`, by the flag.
state-updated :
    (ps : List Bytes) (rb : Robot)
    → IsFrom rb.ur_state ps
    → rb.updated_state ≡ true
    → state rb ≡ ret (rotate_log (record rb { updated_state = false }), copy_state rb.ur_state)
unfolding state loc_state
state-updated ps rb h e = rw (e, assign_copy rb.ur_state ps h)

state-idle : (rb : Robot) → rb.updated_state ≡ false → state rb ≡ ret (rb, new_state)
unfolding state loc_state
state-idle rb e = rw e

replies_as :
    (ps : List Bytes) (told : List RobotState) (b b' : Mailbox) (out : RobotState)
    → b' ≡ record b { is_new = false }
    → out ≡ reply b
    → Move ps replied b told b' (out ∷ told)
replies_as ps told b b' out e f = rw (e, f) (replies b told)

-- A call of `state` is a reply.
state-Move :
    (ps : List Bytes) (told : List RobotState) (rb : Robot)
    → IsFrom rb.ur_state ps
    → Ends (λ res. Move ps replied (view rb) told (view res.0) (res.1 ∷ told)) (state rb)
state-Move ps told rb h =
    let is_reply : Run (Robot × RobotState) → Type 0 =
      Ends (λ res. Move ps replied (view rb) told (view res.0) (res.1 ∷ told)) in
    elim (Bool-cases rb.updated_state) [
      | inl e ↦ subst is_reply (sym (state-updated ps rb h e)) (
          replies_as ps told (view rb) _ _ (view_rotated (record rb { updated_state = false }))
            (rw e))
      | inr e ↦
          subst is_reply (sym (state-idle rb e))
            (replies_as ps told (view rb) (view rb) _ (rw e) (rw e))
    ]

publishes-Move :
    (rb : Robot) (now : ℕ) (ps : List Bytes) (told : List RobotState)
    → rb.out_initialized ≡ true
    → IsHeld holding rb ps
    → Move ps posted (view rb) told (view (publish rb now).0) told
publishes-Move rb now [] told r h = absurd h
publishes-Move rb now (payload ∷ ps) told r h =
    let same : record { value = carried now payload; is_new = true } ≡ view (publish rb now).0 =
      rw (
        publish_part rb now r,
        (snapshot-carried rb.members rb.client.ram now payload h.0 h.1).0,
      ) in
    subst (λ b. Move (payload ∷ ps) posted (view rb) told b told) same
      (posts (view rb) told now payload ps refl)

sound-Move :
    (p id : ℕ) (t u : System)
    → IsSound p id t
    → (step : Step t u)
    → Move u.delivered (event step) (view t.robot) t.shown (view u.robot) u.shown
sound-Move p id t u i (receives t' input ts h done w run) = stays (view t'.robot) t'.shown
sound-Move p id t u i (publishes t' now w) =
    publishes-Move t'.robot now t'.delivered t'.shown i.ready.initialized
      (subst (λ c. IsHeld c t'.robot t'.delivered) w i.held)
sound-Move p id t u i (asks t' rb out run) =
    subst
      (Ends
        (λ res. Move t'.delivered replied (view t'.robot) t'.shown (view res.0) (res.1 ∷ t'.shown)))
      run (state-Move t'.delivered t'.shown t'.robot i.from)
sound-Move p id t u i (drives t' w written rb done run) =
    keeps-Move t'.delivered t'.shown t'.robot rb
      (subst (Ends (λ res. Keeps t'.robot res.0)) run
        (update_w-Keeps t'.robot w written i.in_order)).ur_state
      (subst (Ends (λ res. res.0.updated_state ≡ t'.robot.updated_state)) run
        (update_w-KeepsFlag t'.robot w written))
sound-Move p id t u i (poses t' pose written rb done run) =
    keeps-Move t'.delivered t'.shown t'.robot rb
      (subst (Ends (λ res. Keeps t'.robot res.0)) run
        (post_pose-Keeps t'.robot pose written i.in_order)).ur_state
      (subst (Ends (λ res. res.0.updated_state ≡ t'.robot.updated_state)) run
        (post_pose-KeepsFlag t'.robot pose written))

-- From a robot that has not published, over an output recipe with all fields that is registered,
-- where every read from the connection so far has given an error or exactly one whole frame, be it a
-- package of the recipe or a frame that the recipe does not take: whatever order the receiver, calls
-- of `state`, `update_w` and the sending part of `calculate_q_ref` take turns in, the robot is a
-- mailbox for one state: the receiver's publication puts in the values of the latest package and
-- marks them new, a call of `state` is told a copy of them when they are new and an initial state
-- otherwise and marks them taken, and every other step leaves the value, the mark and the replies.
pub Step-Move :
    (p id : ℕ) (s t u : System)
    → IsReady s.robot p id (pose_tokens s.robot.members) 304
    → InOrder s.robot.members
    → s.robot.ur_state ≡ new_state
    → s.receiver ≡ waiting
    → s.shown ≡ []
    → (steps : Reachable s t) → AreFramed p id steps
    → (step : Step t u)
    → Move u.delivered (event step) (view t.robot) t.shown (view u.robot) u.shown
Step-Move p id s t u r o e w n steps framed step =
    sound-Move p id t u (Reachable-IsSound p id s t steps framed (start-IsSound p id s r o e w n))
      step
