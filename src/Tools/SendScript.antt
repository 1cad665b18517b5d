-- ===== src/Tools/SendScript.antt =====
-- tools/send_script.cpp: it uploads a script.
use lib_urx.Base.{
  Bool, if◌then◌else◌, List, ◌∷◌, ℤ, pos, Option, none, some, Run, fault, ret, ◌>>=◌,
}
use lib_urx.Bytes.{Bytes}
use lib_urx.Con.{Con, new_con}
use lib_urx.Script.{Script, upload_script}
use lib_urx.Tools.{Dial, dial}

-- `main`: a wrong number of arguments is only reported, and a missing one is a null pointer. `none`
-- is an exception that nothing catches. `script` is the new handler's script.
unfoldable pub main : Script → List Bytes → Dial → Bool → Option Bytes → ℤ → Option (Run (ℤ × Con))
main script (argv0 ∷ ip ∷ name ∷ more) d is_there contents written =
    elim (upload_script script (dial new_con d) name is_there contents written) [
      | none ↦ none
      | some run ↦ some (run >>= λ res. ret (if res.2 then pos 0 else pos 1, res.1))
    ]
main script _ d is_there contents written = some fault
