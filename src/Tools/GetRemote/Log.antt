-- ===== src/Tools/GetRemote/Log.antt =====
-- The rows that get_remote.cpp logs.
use mathlib.Core.List.{append-nil, append_assoc}
use lib_urx.Base.{
  ℕ, zero, suc, ◌+◌, ◌^◌, ◌<◌, ◌≡◌, sym, ap, ◌∙◌, Bool, if◌then◌else◌, List, [], ◌∷◌, ◌++◌, take,
  some, ret, arith, true, length,
}
use lib_urx.Bytes.{Bytes, le_value, be_value, le_value-le_bytes}
use lib_urx.Memory.{Ram, peek}
use lib_urx.Con.{Incoming}
use lib_urx.Token.{Token, token_out}
use lib_urx.Magic.Types.{double}
use lib_urx.Handler.{Client}
use lib_urx.Handler.Laws.{whole, sp_asked, start_stop-answers}
use lib_urx.Handler.Session.{
  Hears-sp_asked, Hears, IsOutput, Arrival, fresh, broken, strange, Effect, hears, heard_client,
}
use lib_urx.Robot.Receive.Publish.{word_be}
use lib_urx.Base.{ℤ, pos, ◌≤◌}
use lib_urx.Tools.GetRemote.{log, World, rounds, collect, stamp, Stamp}

-- The only field of the recipe.
abbrev pub timestamp_field : ℕ → Token
timestamp_field ur_ts = record {
  kind = token_out;
  name = "timestamp";
  type = double;
  magic_idx = 0;
  datasize = 8;
  offset = 0;
  storage = ur_ts;
}

-- A package is logged with the time of its arrival and the time that it carries.
abbrev pub entry : {id : ℕ} {input : Incoming} → Arrival id 8 input → ℕ → List Stamp
entry (fresh payload len bytes) ts = (ts, be_value (take 8 payload)) ∷ []
entry (broken e) ts = []
entry (strange size type id' payload fits whole bytes e) ts = []

-- The entries of n rounds.
abbrev pub logged :
    {id : ℕ}
    → (frames : ℕ → Incoming × ℕ) → ((i : ℕ) → Arrival id 8 (frames i).0)
    → ℕ
    → ℕ
    → List Stamp
logged frames arrivals zero ctr = []
logged frames arrivals (suc n) ctr =
    entry (arrivals ctr) (frames ctr).1 ++ logged frames arrivals n (ctr + 1)

entry_lem :
    (id ts_ns ur_ts ts : ℕ) (input : Incoming) (a : Arrival id 8 input) (m m' : Ram) (heard : Bool)
    (ts_set : List Stamp)
    → ts < 2 ^ 64
    → Effect (some ts_ns) (timestamp_field ur_ts ∷ []) ts a m m' heard
    → (if heard then ts_set ++ (stamp ts_ns ur_ts m' ∷ []) else ts_set) ≡ ts_set ++ entry a ts
entry_lem id ts_ns ur_ts ts input (fresh payload len bytes) m m' heard ts_set lt
      (e, (field, _), time, outside) =
    let local : le_value (peek m' ts_ns 8) ≡ ts =
      ap le_value time ∙ le_value-le_bytes 8 ts (omega (arith, lt)) in
    let remote = word_be 8 m' ur_ts payload field in rw (e, local, remote)
entry_lem id ts_ns ur_ts ts input (broken n) m m' heard ts_set lt (e, same) =
    rw e (sym (append-nil ts_set))
entry_lem id ts_ns ur_ts ts input (strange size type id' payload fits whole bytes x) m m' heard
      ts_set lt (e, same) =
    rw e (sym (append-nil ts_set))

collect_from :
    (id ts_ns ur_ts p n ctr : ℕ) (h : Client) (frames : ℕ → Incoming × ℕ) (ts_set : List Stamp)
    (arrivals : (i : ℕ) → Arrival id 8 (frames i).0)
    → ((i : ℕ) → (frames i).1 < 2 ^ 64)
    → IsOutput id 8 (some ts_ns) (timestamp_field ur_ts ∷ [])
    → Hears h p id 8 (some ts_ns) (timestamp_field ur_ts ∷ [])
    → (m : Ram) × (b : Bytes) × (collect ts_ns ur_ts frames n ctr h ts_set
        ≡ ret (heard_client h m b, ts_set ++ logged frames arrivals n ctr))
      × Hears (heard_client h m b) p id 8 (some ts_ns) (timestamp_field ur_ts ∷ [])
unfolding collect
collect_from id ts_ns ur_ts p zero ctr h frames ts_set arrivals lt o i =
    (h.ram, h.buffer, rw append-nil, i)
collect_from id ts_ns ur_ts p (suc n) ctr h frames ts_set arrivals lt o i =
    let ks = timestamp_field ur_ts ∷ [] in
    let ts = (frames ctr).1 in
    let a = arrivals ctr in
    let (m, b, heard, run, i', effect) = hears h p id 8 (some ts_ns) ks (frames ctr).0 ts o i a in
    let more = entry_lem id ts_ns ur_ts ts (frames ctr).0 a h.ram m heard ts_set (lt ctr) effect in
    let (m', b', runs, i'') =
      collect_from id ts_ns ur_ts p n (ctr + 1) (heard_client h m b) frames (ts_set ++ entry a ts)
        arrivals lt o i' in
    (m', b', rw (run, more, runs, append_assoc), i'')

-- With a recipe of the timestamp alone that is registered under an id and tracks the time, over a
-- connection that takes the requests to start and to stop and brings whole answers, and where each
-- call of `recv` finds a package of the recipe, another frame or an error: the program returns 0,
-- and hands `write_file` one row for each package that arrived in the rounds, in order, with the
-- time of its arrival and the timestamp that it carries, and no other row.
pub log-rows :
    (w : World) (h : Client) (p id n n' kind accepted kind' accepted' : ℕ) (loopctr : ℤ)
    (arrivals : (i : ℕ) → Arrival id 8 (w.frames i).0)
    → ((i : ℕ) → (w.frames i).1 < 2 ^ 64)
    → IsOutput id 8 (some w.ts_ns) (timestamp_field w.ur_ts ∷ [])
    → Hears h p id 8 (some w.ts_ns) (timestamp_field w.ur_ts ∷ [])
    → h.con.connected ≡ true
    → w.begins ≡ whole n (0 ∷ 4 ∷ kind ∷ accepted ∷ [])
    → w.ends ≡ whole n' (0 ∷ 4 ∷ kind' ∷ accepted' ∷ [])
    → 3 ≤ n
    → 3 ≤ n'
    → kind < 256
    → accepted < 256
    → length w.begin_cp ≡ 3
    → length w.end_cp ≡ 3
    → log w loopctr h ≡ ret (pos 0, some (logged w.frames arrivals (rounds loopctr) 0))
unfolding log
log-rows w h p id n n' kind accepted kind' accepted' loopctr arrivals lt o i c e e' fits fits' kb ab
      len len' =
    let begun = (start_stop-answers w.begin_cp h n kind accepted len c i.room fits).0 in
    let h1 = sp_asked h b'S' kind accepted in
    let i1 =
      Hears-sp_asked h p id 8 b'S' kind accepted (some w.ts_ns) (timestamp_field w.ur_ts ∷ []) kb ab
        i in
    let (m, b, run, i2) =
      collect_from id w.ts_ns w.ur_ts p (rounds loopctr) 0 h1 w.frames [] arrivals lt o i1 in
    let stopped =
      (start_stop-answers w.end_cp (heard_client h1 m b) n' kind' accepted' len' c i2.room
        fits').1 in
    rw (e, begun, run, e', stopped)
