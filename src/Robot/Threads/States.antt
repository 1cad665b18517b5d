-- ===== src/Robot/Threads/States.antt =====
-- Where a state that `state` returns comes from.
use lib_urx.Base.{
  Ends-if, Option, ltb, length, if◌then◌else◌, ◌++◌, ℕ, ◌≡◌, refl, sym, Bool, true, false, List, [],
  ◌∷◌, ret, Ends, Bool-cases, inl, inr,
}
use lib_urx.Bytes.{Bytes}
use lib_urx.Robot.{Robot, RobotState, new_state, copy_state, assign_state}
use lib_urx.Robot.Receive.{state, loc_state, rotate_log}
use lib_urx.Robot.Receive.Publish.{carried}
use lib_urx.Robot.Threads.Keeps.{nothing, Keeps}

-- A state is the initial one or has the values of one of some payloads.
pub data IsFrom (s : RobotState) : List Bytes → Type 0 where
  initial : (ps : List Bytes) → s ≡ new_state → IsFrom s ps
  carries :
      (now : ℕ) (payload : Bytes) (ps : List Bytes)
      → s ≡ carried now payload
      → IsFrom s (payload ∷ ps)
  older : (payload : Bytes) (ps : List Bytes) → IsFrom s ps → IsFrom s (payload ∷ ps)

-- A copy of such a state.
abbrev pub IsCopy : List Bytes → RobotState → Type 0
IsCopy ps t = (s : RobotState) × IsFrom s ps × (t ≡ copy_state s)

copy_new : assign_state new_state (copy_state new_state) ≡ ret (copy_state new_state)
unfolding assign_state copy_state
copy_new = refl

copy_carried :
    (now : ℕ) (payload : Bytes)
    → assign_state new_state (copy_state (carried now payload))
      ≡ ret (copy_state (carried now payload))
unfolding assign_state copy_state
copy_carried now payload = refl

-- Its assignment does not fault.
pub assign_copy :
    (s : RobotState) (ps : List Bytes)
    → IsFrom s ps
    → assign_state new_state (copy_state s) ≡ ret (copy_state s)
assign_copy s ps (initial ps' e) = rw e copy_new
assign_copy s ps (carries now payload ps' e) = rw e (copy_carried now payload)
assign_copy s ps (older payload ps' h) = assign_copy s ps' h

pub copy_initial : copy_state new_state ≡ new_state
unfolding copy_state
copy_initial = refl

-- The flag and the logs do not count.
relabel :
    (rb rb1 : Robot) (updated : Bool) (log logged : List (Option ℕ × ℕ))
    → Keeps rb rb1
    → Keeps rb (record rb1 { updated_state = updated; ts_log = log; logged = logged })
relabel rb rb1 updated log logged k = record {
  members = k.members;
  out_initialized = k.out_initialized;
  ur_state = k.ur_state;
  out = k.out;
  buffer = k.buffer;
  recipes = k.recipes;
  below = k.below;
}

loc-Keeps :
    (rb : Robot) (b : Bool) → Keeps rb (if b then record rb { updated_state = false } else rb)
loc-Keeps rb true = relabel rb rb false rb.ts_log rb.logged (nothing rb)
loc-Keeps rb false = nothing rb

rotate_log-Keeps : (rb rb1 : Robot) → Keeps rb rb1 → Keeps rb (rotate_log rb1)
unfolding rotate_log
rotate_log-Keeps rb rb1 k = elim (Bool-cases (ltb 500 (length rb1.ts_log))) [
  | inl e ↦ rw e (
      relabel rb rb1 rb1.updated_state []
        (if rb1.has_log then rb1.logged ++ rb1.ts_log else rb1.logged) k)
  | inr e ↦ rw e k
]

pub state-Keeps :
    (rb : Robot) (ps : List Bytes)
    → IsFrom rb.ur_state ps
    → Ends (λ res. Keeps rb res.0 × IsCopy ps res.1) (state rb)
unfolding state loc_state
state-Keeps rb ps h =
    Ends-if _ rb.updated_state _ _
      (rw (assign_copy rb.ur_state ps h)
        (rotate_log-Keeps rb _ (loc-Keeps rb rb.updated_state), (rb.ur_state, h, refl)))
      (nothing rb, (new_state, initial ps refl, sym copy_initial))
