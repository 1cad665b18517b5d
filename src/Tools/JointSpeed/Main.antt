-- ===== src/Tools/JointSpeed/Main.antt =====
-- The start and the end of joint_speed.cpp: its recipes, the script for the controller, and the stop.
use Prim.Native.String.{String}
use lib_urx.Base.{
  ℕ, ◌+◌, Bool, true, false, not, if◌then◌else◌, List, [], ◌∷◌, ℤ, pos, negsuc, Option, none, some,
  Run, fault, ret, ◌>>=◌, replicate,
}
use lib_urx.Bytes.{Bytes, le_bytes}
use lib_urx.Memory.{poke}
use lib_urx.Con.{new_con}
use lib_urx.Recipe.{Recipe, new_recipe, add_field, set_dir}
use lib_urx.Script.{Script, upload_script}
use lib_urx.Handler
use lib_urx.Handler.{Client, Exchange, put_recipe, set_version, register_recipe, start, stop}
use lib_urx.Tools.{Doubles, Dial, dial}
use lib_urx.Tools.JointSpeed.{Places, Regulator, Round, rounds, set_ram}

-- What the program meets: the addresses of `ts`, `target_q`, `in_seqnr` and of the six doubles of
-- `in_tqd`, the places of its recipes, which allocations succeed, the stack behind each request, and
-- what the calls of the system return. `sends` has the results of the four calls of `send` in front
-- of the loop.
pub record World : Type 0 where
  pub ts : ℕ
  pub target_q : ℕ
  pub in_seqnr : ℕ
  pub tqd : ℕ
  pub cmd : ℕ
  pub actual_q : ℕ
  pub out : ℕ
  pub inp : ℕ
  pub has : ℕ → Bool
  pub prot : Bytes
  pub version : Exchange
  pub outputs : Exchange
  pub inputs : Exchange
  pub inputs_written : ℤ
  pub begin_cp : Bytes
  pub begins : Exchange
  pub sends : ℕ → ℤ
  pub script : Script
  pub reached : Dial
  pub is_there : Bool
  pub contents : Option Bytes
  pub script_written : ℤ
  pub rounds : List Round
  pub last_written : ℤ
  pub end_cp : Bytes
  pub ends : Exchange

-- The elbow is the third joint.
abbrev pub places : World → Places
places w = record { cmd = w.cmd; in_tqd = w.tqd + 8 + 8; actual_q = w.actual_q }

abbrev set_word : ℕ → ℕ → Client → Client
set_word a v h = set_ram h (poke h.ram a (le_bytes 4 v))

abbrev set_double : ℕ → ℕ → Client → Client
set_double a v h = set_ram h (poke h.ram a (le_bytes 8 v))

-- The results of `add_field` are not looked at.
unfoldable pub with_fields : Recipe → List (String × ℕ) → Recipe
with_fields r [] = r
with_fields r ((name, a) ∷ fs) = with_fields (add_field r name (some a)).0 fs

unfoldable pub set_output : World → Client → Run (Client × Bool)
unfolding with_fields
set_output w h = do
  made ← new_recipe (w.has 0) (w.has 1) (w.has 2)
  let out =
      with_fields made
        (("timestamp", w.ts) ∷ ("target_q", w.target_q) ∷ ("actual_q", w.actual_q) ∷ [])
  register_recipe (put_recipe h w.out out) (some w.out) w.outputs (pos 0)

-- `in_seqnr`, `cmd` and `in_tqd` as they are declared.
abbrev declared : World → Client → Client
declared w h =
    let h1 = set_word w.cmd 2 (set_word w.in_seqnr 1 h) in
    set_ram h1 (poke h1.ram w.tqd (replicate 48 0))

unfoldable pub set_input : World → Client → Run (Client × Bool)
unfolding with_fields
set_input w h = do
  made ← new_recipe (w.has 3) (w.has 4) (w.has 5)
  let turned = (set_dir (w.has 6) made false).0
  let inp = with_fields turned (
      ("input_int_register_0", w.in_seqnr)
      ∷ ("input_int_register_1", w.cmd)
      ∷ ("input_double_register_0", w.tqd)
      ∷ ("input_double_register_1", w.tqd + 8)
      ∷ ("input_double_register_2", w.tqd + 8 + 8)
      ∷ ("input_double_register_3", w.tqd + 24)
      ∷ ("input_double_register_4", w.tqd + 32)
      ∷ ("input_double_register_5", w.tqd + 40)
      ∷ [])
  register_recipe (put_recipe (declared w h) w.inp inp) (some w.inp) w.inputs w.inputs_written

-- A speed for the elbow with the command 2, and then the command 0.
unfoldable pub nudge : World → ℕ → ℤ → ℤ → Client → Run Client
nudge w speed first second h = do
  let id = (h.recipes w.inp).recipe_id
  sent ← Handler.send (set_word w.cmd 2 (set_double (w.tqd + 8 + 8) speed h)) id first
  cleared ← Handler.send (set_word w.cmd 0 sent.0) id second
  ret cleared.0

-- From `set_version` to the first speed, 0; false where the program returns -1.
unfoldable pub set_up : World → Client → Run (Client × Bool)
set_up w h = set_version w.prot h w.version >>= λ asked.
    let outputs =
      (set_output w asked.0 >>= λ out.
      let inputs =
        (set_input w out.0 >>= λ inp.
        let begun : Run (Client × Bool) =
          (start w.begin_cp inp.0 w.begins >>= λ started.
          nudge w 0 (w.sends 0) (w.sends 1) started.0 >>= λ still. ret (still, true)) in
        if not inp.1 then ret (inp.0, false) else begun) in
      if not out.1 then ret (out.0, false) else inputs) in
    if not asked.1 then ret (asked.0, false) else outputs

-- 0.5.
abbrev half : ℕ
half = 0x3fe0_0000_0000_0000

-- Behind the upload, at the speed 0.5: what the program returns, or `none` where the loop still runs.
unfoldable pub regulate : Doubles → World → Client → Run (Option ℤ × Client)
regulate d w h = nudge w half (w.sends 2) (w.sends 3) h >>= λ begun.
    let id = (begun.recipes w.inp).recipe_id in
    let r : Regulator = record {
      client = begun;
      id = id;
      speed = 0;
      prev_err = 0;
      stabilizer = 25;
    } in
    rounds d (places w) r w.rounds >>= λ out.
    let stopped : Run (Option ℤ × Client) =
      (Handler.send (set_word w.cmd 1 out.0.client) id w.last_written >>= λ sent.
      stop w.end_cp sent.0 w.ends >>= λ done. ret (some (pos 0), done.0)) in
    if out.1 then ret (none, out.0.client) else stopped

-- `main` behind the test of the arguments, over a client that tried to connect; `none` is an
-- exception.
unfoldable pub main : Doubles → World → Bytes → Client → Option (Run (Option ℤ × Client))
main d w fname h = elim (set_up w h) [
  | fault ↦ some fault
  | ret (h', false) ↦ some (ret (some (negsuc 0), h'))
  | ret (h', true) ↦
      elim (upload_script w.script (dial new_con w.reached) fname w.is_there w.contents
        w.script_written) [
          | none ↦ none
          | some run ↦ some (
              run >>= λ up.
              let regulated = regulate d w h' in
              if not up.2 then ret (some (negsuc 0), h') else regulated)
        ]
]
