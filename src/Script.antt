-- ===== src/Script.antt =====
-- include/urx/urx_script.hpp and src/urx_script.cpp: a script file that is read, formatted and
-- uploaded, and src/urx_handler.cpp. The file system is an argument: whether the file is there, and
-- its contents where it can be opened. `none` as a result stands for a thrown exception.
pub mod Laws
use lib_urx.Base.{
  [], ◌∷◌, none, some, true, false, ℤ, Bool, ℕ, List, Option, if◌then◌else◌, length, ◌==◌, ◌++◌,
  not, Run, ◌&&◌, replicate, ret, ◌>>=◌, is_positive,
}
use lib_urx.Bytes.{Bytes}
use lib_urx.Con.{Con, do_send}

pub record Script : Type 0 where
  pub fname : Bytes
  pub script : Bytes
  pub parsed : Bool

unfoldable pub set_script : Script → Bytes → Bool → Script × Bool
set_script s fname is_there =
    if length fname == 0
    then (s, false)
    else if not is_there
    then (s, false)
    else (record s { fname = fname; parsed = false }, true)

-- The constructor does not set `parsed_`: the first argument is what the memory holds.
unfoldable pub new_script : Bool → Bytes → Bool → Script
unfolding set_script
new_script garbage fname is_there =
    (set_script (record { fname = []; script = []; parsed = garbage }) fname is_there).0

-- `while (std::getline(in, line))`: no line stands behind a last newline.
abbrev add_to_line : ℕ → List Bytes → List Bytes
add_to_line c [] = (c ∷ []) ∷ []
add_to_line c (x ∷ xs) = (c ∷ x) ∷ xs

unfoldable pub get_lines : Bytes → List Bytes
get_lines [] = []
get_lines (c ∷ cs) = let lines = get_lines cs in if c == 10 then [] ∷ lines else add_to_line c lines

-- `script_.append(line + "\n")` for each line.
unfoldable pub append_lines : List Bytes → Bytes
append_lines [] = []
append_lines (l ∷ ls) = l ++ (10 ∷ append_lines ls)

unfoldable pub read_file : Script → Option Bytes → Option (Script × Bool)
unfolding get_lines append_lines
read_file s none = if length s.fname == 0 then none else some (record s { script = [] }, false)
read_file s (some contents) =
    let text = append_lines (get_lines contents) in
    let s' = record s { script = text } in
    if length s.fname == 0
    then none
    else if length text == 0
    then some (s', false)
    else some (record s' { parsed = true }, true)

abbrev starts_line : Bytes → Bool
starts_line [] = false
starts_line (c ∷ cs) = c == 10

-- `boost::replace_all(script_, "\r\n", "\n")`: a return goes where a newline follows it.
unfoldable pub replace_returns : Bytes → Bytes
replace_returns [] = []
replace_returns (c ∷ cs) =
    let rest = replace_returns cs in if c == 13 && starts_line cs then rest else c ∷ rest

-- `boost::replace_all(script_, "\t", "        ")`.
unfoldable pub replace_tabs : Bytes → Bytes
replace_tabs [] = []
replace_tabs (c ∷ cs) =
    let rest = replace_tabs cs in if c == 9 then replicate 8 32 ++ rest else c ∷ rest

unfoldable pub get_script : Script → Option (Script × Bytes)
unfolding replace_returns replace_tabs
get_script s =
    let text = replace_tabs (replace_returns s.script) in
    if not s.parsed then none else some (record s { script = text }, text)

unfoldable pub read_script : Script → Bytes → Bool → Option Bytes → Option (Script × Bytes)
read_script s fname is_there contents =
    let (s', named) = set_script s fname is_there in
    let read : Option (Script × Bytes) = elim (read_file s' contents) [
      | none ↦ none
      | some r ↦ elim r.1 [ true ↦ get_script r.0 | false ↦ none ]
    ] in
    if not named then none else read

-- `URX_Handler::upload_script`. The last argument is the result of `send`.
unfoldable pub upload_script :
    Script → Con → Bytes → Bool → Option Bytes → ℤ → Option (Run (Script × Con × Bool))
upload_script s con script_name is_there contents written =
    let (s', named) = set_script s script_name is_there in
    let sent : Option (Run (Script × Con × Bool)) = elim (read_file s' contents) [
      | none ↦ none
      | some r ↦ elim r.1 [
        | false ↦ some (ret (r.0, con, false))
        | true ↦ elim (get_script r.0) [
          | none ↦ none
          | some g ↦
              some (
                do_send con g.1 (length g.1) written >>= λ res. ret (g.0, res.0, is_positive res.1))
        ]
      ]
    ] in
    if not named then some (ret (s', con, false)) else sent
