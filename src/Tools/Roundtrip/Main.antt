-- ===== src/Tools/Roundtrip/Main.antt =====
-- The start of measure_roundtrip.cpp: its options, its recipes, and the script for the controller.
use lib_urx.Base.{
  ℕ, zero, suc, ◌+◌, ◌==◌, ◌||◌, ltb, Bool, not, if◌then◌else◌, List, [], ◌∷◌, length, ◌⊎◌, inl,
  inr, ℤ, pos, negsuc, Option, none, some, Run, fault, ret, ◌>>=◌, false, true,
}
use lib_urx.Bytes.{Bytes, le_bytes}
use lib_urx.Memory.{poke}
use lib_urx.Con.{Incoming, new_con}
use lib_urx.Recipe.{new_recipe, add_field, set_dir}
use lib_urx.Script.{Script, upload_script}
use lib_urx.Handler
use lib_urx.Handler.{Client, Exchange, put_recipe, set_version, register_recipe, start}
use lib_urx.Tools.{copied, Dial, dial}
use lib_urx.Tools.Roundtrip.{Places, Mark, Measurement, Trip, measure}

pub record Options : Type 0 where
  pub ip4 : Bytes
  pub fpath : Bytes
  pub csv_file : Bytes
  pub loopctr : ℤ
  pub trace_timeout : ℤ
  pub tracefd : Option (List Mark)

abbrev pub defaults : Options
defaults = record {
  ip4 = [];
  fpath = [];
  csv_file = [];
  loopctr = pos 5000;
  trace_timeout = negsuc 0;
  tracefd = none;
}

abbrev exceeds : ℤ → ℕ → Bool
exceeds (pos a) b = ltb b a
exceeds (negsuc a) b = false

-- Above 2000 the trace is opened, if it can be.
abbrev set_timeout : Bool → ℤ → Options → Options
set_timeout has_marker timeout o = record o {
  trace_timeout = timeout;
  tracefd = if exceeds timeout 2000 then (if has_marker then some [] else none) else o.tracefd;
}

abbrev set_option : (Bytes → ℤ) → Bool → ℕ → Bytes → Options → Options
set_option atoi has_marker c optarg o =
    if c == b'c'
    then record o { csv_file = copied 255 optarg }
    else if c == b'i'
    then record o { ip4 = copied 15 optarg }
    else if c == b'l'
    then record o { loopctr = atoi optarg }
    else if c == b'f'
    then record o { fpath = copied 255 optarg }
    else if c == b't'
    then set_timeout has_marker (atoi optarg) o
    else o

-- The loop over what `getopt` returns, and the test behind it: the options, or what the program
-- returns at once.
unfoldable pub parse_options : (Bytes → ℤ) → Bool → List (ℕ × Bytes) → Options → Options ⊎ ℤ
parse_options atoi has_marker [] o =
    if length o.ip4 == 0 || length o.fpath == 0 then inr (negsuc 0) else inl o
parse_options atoi has_marker ((c, optarg) ∷ more) o =
    let rest = parse_options atoi has_marker more (set_option atoi has_marker c optarg o) in
    if c == b'l' then (if exceeds (atoi optarg) 0 then rest else inr (negsuc 0)) else rest

-- What the program meets: the places of its recipes, which allocations succeed, the stack behind
-- each request, and what the calls of the system return.
pub record World : Type 0 where
  pub out : ℕ
  pub inp : ℕ
  pub has : ℕ → Bool
  pub prot : Bytes
  pub version : Exchange
  pub outputs : Exchange
  pub inputs : Exchange
  pub inputs_written : ℤ
  pub begin_cp : Bytes
  pub begins : Exchange
  pub first_written : ℤ
  pub script : Script
  pub reached : Dial
  pub is_there : Bool
  pub contents : Option Bytes
  pub script_written : ℤ
  pub first : Incoming × ℕ
  pub trips : ℕ → Trip
  pub can_open : Bool
  pub last_written : ℤ

abbrev set_word : Client → ℕ → ℕ → Client
set_word h a v = record h { ram = poke h.ram a (le_bytes 4 v) }

unfoldable pub set_output : Places → World → Client → Run (Client × Bool)
set_output at_ w h = do
  made ← new_recipe (w.has 0) (w.has 1) (w.has 2)
  let timed = (add_field made "timestamp" (some at_.ts)).0
  let out = (add_field timed "output_int_register_0" (some at_.out_seqnr)).0
  register_recipe (put_recipe h w.out out) (some w.out) w.outputs (pos 0)

unfoldable pub set_input : Places → World → Client → Run (Client × Bool)
set_input at_ w h = do
  made ← new_recipe (w.has 3) (w.has 4) (w.has 5)
  let turned = (set_dir (w.has 6) made false).0
  let inp = (add_field turned "input_int_register_0" (some at_.in_seqnr)).0
  let h' = put_recipe (set_word h at_.in_seqnr 1336) w.inp inp
  register_recipe h' (some w.inp) w.inputs w.inputs_written

-- `h.start(); in_seqnr = 1; h.send(in.recipe_id());`
unfoldable pub begin : Places → World → Client → Run (Client × Bool)
begin at_ w h = do
  started ← start w.begin_cp h w.begins
  let h' = set_word started.0 at_.in_seqnr 1
  sent ← Handler.send h' (h'.recipes w.inp).recipe_id w.first_written
  ret (sent.0, true)

-- From `set_version` to the first number; false where the program returns -1.
unfoldable pub set_up : Places → World → Client → Run (Client × Bool)
set_up at_ w h = set_version w.prot h w.version >>= λ asked.
    let outputs =
      (set_output at_ w asked.0 >>= λ out.
      let inputs =
        (set_input at_ w out.0 >>= λ inp.
        let begun = begin at_ w inp.0 in if not inp.1 then ret (inp.0, false) else begun) in
      if not out.1 then ret (out.0, false) else inputs) in
    if not asked.1 then ret (asked.0, false) else outputs

-- The first n trips, from number i on.
unfoldable pub first_trips : (ℕ → Trip) → ℕ → ℕ → List Trip
first_trips trips zero i = []
first_trips trips (suc n) i = trips i ∷ first_trips trips n (i + 1)

-- A count that is not positive never gets here.
abbrev count : ℤ → ℕ
count (pos n) = n
count (negsuc n) = 0

-- Behind the upload; a package is received and forgotten. The rows go to a file that is named.
unfoldable pub run_trips : Places → World → Options → Client → Run (ℤ × Option (List (ℕ × ℕ)))
run_trips at_ w o h = Handler.recv h w.first.0 w.first.1 >>= λ got.
    let s : Measurement = record {
      client = got.0;
      id = (got.0.recipes w.inp).recipe_id;
      tracefd = o.tracefd;
      ts_set = [];
      horiz_found = false;
      horiz = [];
      sleeps = 0;
    } in
    measure at_ o.trace_timeout s (first_trips w.trips (count o.loopctr) 0) w.can_open
      w.last_written
    >>= λ rows. elim rows [
      | none ↦ ret (negsuc 0, none)
      | some ts_set ↦ ret (pos 0, if length o.csv_file == 0 then none else some ts_set)
    ]

-- `main` behind the options, over a client that tried to connect; `none` is an exception. The sleeps
-- in front of the loop and at the end are left out.
unfoldable pub main : Places → World → Options → Client → Option (Run (ℤ × Option (List (ℕ × ℕ))))
main at_ w o h = elim (set_up at_ w h) [
  | fault ↦ some fault
  | ret (h', false) ↦ some (ret (negsuc 0, none))
  | ret (h', true) ↦
      elim (upload_script w.script (dial new_con w.reached) o.fpath w.is_there w.contents
        w.script_written) [
          | none ↦ none
          | some run ↦ some (
              run >>= λ up.
              let measured = run_trips at_ w o h' in
              if not up.2 then ret (negsuc 0, none) else measured)
        ]
]
