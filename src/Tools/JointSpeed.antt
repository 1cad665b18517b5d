-- ===== src/Tools/JointSpeed.antt =====
-- tools/joint_speed.cpp: it moves the elbow to one angle, over the protocol client. The arithmetic on
-- doubles is an argument.
pub mod Main
pub mod Window
pub mod Rounds
pub mod Settles
use lib_urx.Base.{
  ℕ, zero, suc, ◌-◌, ◌==◌, ◌||◌, ◌&&◌, Bool, true, false, not, if◌then◌else◌, List, [], ◌∷◌, ℤ, Run,
  fault, ret, ◌>>=◌, ◌+◌,
}
use lib_urx.Bytes.{le_value, le_bytes}
use lib_urx.Magic.Types.{codes}
use lib_urx.Memory.{Ram, peek, poke}
use lib_urx.Double.{double_lt}
use lib_urx.Con.{Incoming}
use lib_urx.Helper.{deg_to_rad}
use lib_urx.Handler
use lib_urx.Handler.{Client, send_emerg_msg}
use lib_urx.Tools.{Doubles}
use lib_urx.Tools.RobotSpeed.{new_speed}

-- 0.0001, and -0.0001.
abbrev near : ℕ
near = 0x3f1a_36e2_eb1c_432d

abbrev minus_near : ℕ
minus_near = 0xbf1a_36e2_eb1c_432d

unfoldable pub close : (ℕ → ℕ → ℕ) → ℕ → ℕ → Bool
close minus a b = let diff = minus a b in double_lt diff near && double_lt minus_near diff

-- The first n elements of two arrays, `urx::END` of them; behind an array is undefined.
unfoldable pub close_vec : (ℕ → ℕ → ℕ) → ℕ → List ℕ → List ℕ → Run Bool
close_vec minus zero actual target = ret true
close_vec minus (suc n) (a ∷ actual) (b ∷ target) =
    let rest = close_vec minus n actual target in if not (close minus a b) then ret false else rest
close_vec minus (suc n) _ _ = fault

-- The copy of the first n elements of an array, and what stands behind them.
unfoldable pub set_vec : ℕ → List ℕ → List ℕ → Run (List ℕ)
set_vec zero tq nq = ret tq
set_vec (suc n) (t ∷ tq) (x ∷ nq) = set_vec n tq nq >>= λ rest. ret (x ∷ rest)
set_vec (suc n) _ _ = fault

-- `aq[urx::ELBOW]`, from 90 degrees.
unfoldable pub elbow_target : Doubles → ℕ
elbow_target d = deg_to_rad d.times d.over 0x4056_8000_0000_0000

-- The addresses of `cmd`, of the elbow's `in_tqd` and of `actual_q`.
pub record Places : Type 0 where
  pub cmd : ℕ
  pub in_tqd : ℕ
  pub actual_q : ℕ

-- The variables of the loop; `id` is that of the input recipe.
pub record Regulator : Type 0 where
  pub client : Client
  pub id : ℤ
  pub speed : ℕ
  pub prev_err : ℕ
  pub stabilizer : ℕ

-- What one round meets: what `recv` finds, and when, the results of three calls of `send`, and
-- whether the allocation of a message succeeds.
pub record Round : Type 0 where
  pub input : Incoming
  pub ts : ℕ
  pub first : ℤ
  pub second : ℤ
  pub message : ℤ
  pub has_msg : Bool

-- 0.00005, and -0.00005.
abbrev pub small : ℕ
small = 0x3f0a_36e2_eb1c_432d

abbrev pub minus_small : ℕ
minus_small = 0xbf0a_36e2_eb1c_432d

unfoldable pub is_off : ℕ → Bool
is_off err = double_lt err minus_small || double_lt small err

abbrev pub set_ram : Client → Ram → Client
set_ram h m = record h { ram = m }

-- `cmd = value`, and a double.
abbrev set_cmd : Places → ℕ → Client → Client
set_cmd at_ value h = set_ram h (poke h.ram at_.cmd (le_bytes 4 value))

abbrev set_speed : Places → ℕ → Client → Client
set_speed at_ speed h = set_ram h (poke h.ram at_.in_tqd (le_bytes 8 speed))

-- The error that the loop reads from the third joint.
abbrev pub error_of : Doubles → Places → Ram → ℕ
error_of d at_ m = d.minus (elbow_target d) (le_value (peek m (at_.actual_q + 8 + 8) 8))

-- The elbow is off: a new speed goes out, and then the command 0.
unfoldable pub move : Places → Regulator → Round → Run Regulator
move at_ r net = do
  sent ← Handler.send (set_cmd at_ 2 (set_speed at_ r.speed r.client)) r.id net.first
  cleared ← Handler.send (set_cmd at_ 0 sent.0) r.id net.second
  ret (record r { client = cleared.0; stabilizer = 25 })

-- The elbow has been near for long enough.
unfoldable pub finish : Places → Regulator → Round → Run Regulator
finish at_ r net = do
  told ← send_emerg_msg net.has_msg r.client (codes "Target Reached, stopping robot") net.message
  sent ← Handler.send (set_speed at_ 0 (set_cmd at_ 3 told.0)) r.id net.first
  ret (record r { client = sent.0 })

-- `if (--stabilizer <= 0)`, for an elbow that is near.
unfoldable pub settle : Places → Regulator → Round → Run (Regulator × Bool)
settle at_ r net =
    let left = r.stabilizer - 1 in
    let r' = record r { stabilizer = left } in
    let finished = finish at_ r' net >>= λ done. ret (done, false) in
    if left == 0 then finished else ret (r', true)

-- One round, and the variable `running`. The result of `recv` is not looked at.
unfoldable pub round : Doubles → Places → Regulator → Round → Run (Regulator × Bool)
round d at_ r net = do
  got ← Handler.recv r.client net.input net.ts
  let err = error_of d at_ got.0.ram
  let r' = record r { client = got.0; speed = new_speed d err r.prev_err r.speed; prev_err = err }
  let moved = move at_ r' net >>= λ done. ret (done, true)
  if is_off err then moved else settle at_ r' net

-- The loop, over the rounds that there is time for: the rounds that are left over.
unfoldable pub rounds :
    Doubles → Places → Regulator → List Round → Run (Regulator × Bool × List Round)
rounds d at_ r [] = ret (r, true, [])
rounds d at_ r (net ∷ nets) = elim (round d at_ r net) [
  | fault ↦ fault
  | ret (r', true) ↦ rounds d at_ r' nets
  | ret (r', false) ↦ ret (r', false, nets)
]
