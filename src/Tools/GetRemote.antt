-- ===== src/Tools/GetRemote.antt =====
-- tools/get_remote.cpp: it logs when the packages of a controller arrive.
pub mod Log
pub mod Session
use lib_urx.Base.{
  ℕ, zero, suc, ◌+◌, ◌==◌, ◌||◌, Bool, not, if◌then◌else◌, List, [], ◌∷◌, ◌++◌, length, ◌⊎◌, inl,
  inr, ℤ, pos, negsuc, Option, none, some, Run, ret, ◌>>=◌,
}
use lib_urx.Bytes.{Bytes, le_value}
use lib_urx.Memory.{Ram, peek}
use lib_urx.Con.{Incoming}
use lib_urx.Recipe.{Recipe, new_recipe, track_ts_ns, add_field}
use lib_urx.Handler
use lib_urx.Handler.{Client, Exchange, put_recipe, set_version, register_recipe, start, stop}
use lib_urx.Tools.{copied, Dial, new_handler, connect_ur}

pub record Options : Type 0 where
  pub ip4 : Bytes
  pub csv_file : Bytes
  pub loopctr : ℤ

abbrev pub defaults : Options
defaults = record { ip4 = []; csv_file = []; loopctr = pos 5000 }

abbrev set_option : (Bytes → ℤ) → ℕ → Bytes → Options → Options
set_option atoi c optarg o =
    if c == b'i'
    then record o { ip4 = copied 15 optarg }
    else if c == b'c'
    then record o { csv_file = copied 255 optarg }
    else record o { loopctr = atoi optarg }

-- The loop over what `getopt` returns: the options, or what the program returns at once.
unfoldable pub parse_options : (Bytes → ℤ) → List (ℕ × Bytes) → Options → Options ⊎ ℤ
parse_options atoi [] o = inl o
parse_options atoi ((c, optarg) ∷ more) o =
    let rest = parse_options atoi more (set_option atoi c optarg o) in
    if c == b'h'
    then inr (pos 0)
    else if not (c == b'i' || c == b'c' || c == b'l')
    then inr (pos 1)
    else rest

-- What the program meets: the addresses of `ts_ns` and `ur_ts`, the place of its recipe, the stack
-- behind each request, which allocations succeed, and what the calls of the system return.
pub record World : Type 0 where
  pub ts_ns : ℕ
  pub ur_ts : ℕ
  pub out : ℕ
  pub prot : Bytes
  pub begin_cp : Bytes
  pub end_cp : Bytes
  pub has : ℕ → Bool
  pub version : Exchange
  pub setup : Exchange
  pub begins : Exchange
  pub ends : Exchange
  pub frames : ℕ → Incoming × ℕ

-- An entry of `ts_set`: when a package arrived, and when it was sent.
abbrev pub Stamp : Type 0
Stamp = ℕ × ℕ

-- `std::tuple(ts_ns, ur_ts)`.
abbrev pub stamp : ℕ → ℕ → Ram → Stamp
stamp ts_ns ur_ts m = (le_value (peek m ts_ns 8), le_value (peek m ur_ts 8))

-- The loop with n rounds left; `frames ctr` is what `recv` finds in round ctr, and when.
unfoldable pub collect :
    ℕ → ℕ → (ℕ → Incoming × ℕ) → ℕ → ℕ → Client → List Stamp → Run (Client × List Stamp)
collect ts_ns ur_ts frames zero ctr h ts_set = ret (h, ts_set)
collect ts_ns ur_ts frames (suc n) ctr h ts_set =
    Handler.recv h (frames ctr).0 (frames ctr).1 >>= λ res.
    let (h', got) = res in
    collect ts_ns ur_ts frames n (ctr + 1) h'
      (if got then ts_set ++ (stamp ts_ns ur_ts h'.ram ∷ []) else ts_set)

-- A negative count makes no round.
abbrev pub rounds : ℤ → ℕ
rounds (pos n) = n
rounds (negsuc n) = 0

-- `main` from `start` on: what it returns, and the rows of the file.
unfoldable pub log : World → ℤ → Client → Run (ℤ × Option (List Stamp))
log w loopctr h = do
  begun ← start w.begin_cp h w.begins
  res ← collect w.ts_ns w.ur_ts w.frames (rounds loopctr) 0 begun.0 []
  stopped ← stop w.end_cp res.0 w.ends
  ret (pos 0, some res.1)

-- `main` from `set_version` on. No `send` follows the setup of an output recipe.
unfoldable pub session : World → ℤ → Client → Run (ℤ × Option (List Stamp))
session w loopctr h0 = set_version w.prot h0 w.version >>= λ asked.
    let registered : Run (ℤ × Option (List Stamp)) =
      (new_recipe (w.has 0) (w.has 1) (w.has 2) >>= λ made.
      let (tracked, m, done) = track_ts_ns made asked.0.ram (some w.ts_ns) in
      let out = (add_field tracked "timestamp" (some w.ur_ts)).0 in
      let h1 = put_recipe (record asked.0 { ram = m }) w.out out in
      register_recipe h1 (some w.out) w.setup (pos 0) >>= λ res.
      let logged = log w loopctr res.0 in if not res.1 then ret (negsuc 0, none) else logged) in
    if not asked.1 then ret (negsuc 0, none) else registered

-- `main`. The file is written where its name is not empty, and it never is.
unfoldable pub main :
    (Bytes → ℤ)
    → List (ℕ × Bytes)
    → World
    → Bytes
    → (ℕ → Recipe)
    → Ram
    → Dial
    → Dial
    → Run (ℤ × Option (List Stamp))
main atoi argv w buffer recipes ram first again = elim (parse_options atoi argv defaults) [
  | inr code ↦ ret (code, none)
  | inl o ↦
      if length o.ip4 == 0 || length o.csv_file == 0
      then ret (pos 1, none)
      else session w o.loopctr (connect_ur (new_handler buffer recipes ram first) again).0
]
