-- ===== src/Tools/GetRemote/Session.antt =====
-- The whole session of get_remote.cpp.
use lib_urx.Header.Responses.{is_unusable}
use lib_urx.Base.{
  ℕ, ◌+◌, ◌^◌, ◌<◌, ◌≤◌, ◌≡◌, ◌==◌, refl, ap, ◌∙◌, Bool, true, false, if◌then◌else◌, [], ◌∷◌,
  length, Option, none, some, ℤ, pos, negsuc, ret, arith, Bool-cases, inl, inr, ◌⊎◌,
}
use lib_urx.Bytes.{Bytes, AreBytes, le_bytes, le_bytes-AreBytes}
use lib_urx.Memory.{Ram, poke}
use lib_urx.Magic.Types.{double, codes, rtde_datasize}
use lib_urx.Magic.Lookup.{output_name_to_idx}
use lib_urx.Header.Control.{rtde_control_msg_get, rtde_control_get_in}
use lib_urx.Header.Responses.Laws.{types_text}
use lib_urx.Token.{num_bytes}
use lib_urx.Token.Store.{IsRam, poke-IsRam}
use lib_urx.Recipe.{Recipe, new_recipe, track_ts_ns, add_field, push_field, field_token, get_fields}
use lib_urx.Recipe.Response.{accepted}
use lib_urx.Handler.{Client, put_recipe, register_recipe}
use lib_urx.Handler.Laws.{whole, answered}
use lib_urx.Handler.Receive.{length-filled, filled-AreBytes}
use lib_urx.Handler.Register.{setup_frame, itself}
use lib_urx.Handler.Register.Request.{asked}
use lib_urx.Handler.Register.Output.{register_recipe-accepts}
use lib_urx.Handler.Session.{Hears, IsOutput, Arrival}
use lib_urx.Handler.Version.{set_version_lem}
use lib_urx.Tools.GetRemote.{World, session, rounds, log}
use lib_urx.Tools.GetRemote.Log.{timestamp_field, logged, log-rows}

-- The recipe of the program, over its blocks.
abbrev timestamp_recipe : ℕ → ℕ → Bytes → Option Bytes → Option Bytes → Recipe
timestamp_recipe ts_ns ur_ts cpo cpi dp = record {
  active = false;
  recipe_id = negsuc 0;
  ts_ns = some ts_ns;
  fields = timestamp_field ur_ts ∷ [];
  cpo = some cpo;
  cpi = cpi;
  bytes = 8;
  dir_out = true;
  dp = dp;
}

make_recipe :
    (ts_ns ur_ts : ℕ) (m : Ram) (has_cpi has_dp : Bool)
    → (made : Recipe) × (cpo : Bytes) × (cpi : Option Bytes) × (dp : Option Bytes) × (new_recipe
          true has_cpi has_dp
        ≡ ret made)
      × ((add_field (track_ts_ns made m (some ts_ns)).0 "timestamp" (some ur_ts)).0
          ≡ timestamp_recipe ts_ns ur_ts cpo cpi dp)
      × (length cpo ≡ 2048)
unfolding new_recipe track_ts_ns add_field push_field field_token output_name_to_idx num_bytes
    rtde_control_get_in rtde_control_msg_get
make_recipe ts_ns ur_ts m true has_dp = (_, _, _, _, refl, refl, refl)
make_recipe ts_ns ur_ts m false has_dp = (_, _, _, _, refl, refl, refl)

timestamp_listed :
    (ts_ns ur_ts : ℕ) (cpo : Bytes) (cpi dp : Option Bytes)
    → get_fields (timestamp_recipe ts_ns ur_ts cpo cpi dp) ≡ ret (codes "timestamp")
unfolding get_fields
timestamp_listed ts_ns ur_ts cpo cpi dp = refl

-- The registration of the recipe.
registers :
    (h : Client) (ts_ns ur_ts p n id : ℕ) (cpo : Bytes) (cpi dp : Option Bytes)
    → length cpo ≡ 2048
    → h.con.connected ≡ true
    → length h.buffer ≡ 2048
    → AreBytes h.buffer
    → IsRam h.ram
    → 20 ≤ n
    → id < 256
    → (h' : Client) × (register_recipe
          (put_recipe h p (timestamp_recipe ts_ns ur_ts cpo cpi dp))
          (some p)
          (whole n (setup_frame id (types_text double [])))
          (pos 0)
        ≡ ret (h', true))
      × Hears h' p id 8 (some ts_ns) (timestamp_field ur_ts ∷ [])
      × (h'.con.connected ≡ true)
unfolding is_unusable
registers h ts_ns ur_ts p n id cpo cpi dp room c len bytes memory fits byte =
    let r = timestamp_recipe ts_ns ur_ts cpo cpi dp in
    let (b, msg, size, length_b) =
      asked r (codes "timestamp") cpo refl refl room (timestamp_listed ts_ns ur_ts cpo cpi dp)
        (omega arith) in
    let h1 = put_recipe h p r in
    let there : h1.recipes p ≡ r = rw (itself p) in
    let (h', run, recipe, out, room', kept, con, ram) =
      register_recipe-accepts h1 p (record r { cpo = some b }) b 20 n id double [] (pos 0)
        (rw there msg) refl size (omega (arith, length_b)) c fits len bytes (omega arith) refl
        byte in
    (
      h',
      run,
      record {
        registered = out;
        fields = ap (λ q. q.fields) recipe;
        bytes = ap (λ q. q.bytes) recipe;
        dir_out = ap (λ q. q.dir_out) recipe;
        recipe_id = ap (λ q. q.recipe_id) recipe;
        tracked = ap (λ q. q.ts_ns) recipe;
        room = room';
        are_bytes = kept;
        memory = rw ram memory;
      },
      con,
    )

timestamp-IsOutput :
    (id ts_ns ur_ts : ℕ)
    → (id == 0) ≡ false
    → id < 256
    → (ts_ns + 8 ≤ ur_ts) ⊎ (ur_ts + 8 ≤ ts_ns)
    → IsOutput id 8 (some ts_ns) (timestamp_field ur_ts ∷ [])
unfolding rtde_datasize
timestamp-IsOutput id ts_ns ur_ts is_id byte apart = record {
  is_id = is_id;
  is_byte = byte;
  layout = (record { kind_fits = refl; type_fits = refl; size_fits = refl }, refl, refl);
  fits = omega arith;
  apart = (tt, tt);
  clear = (apart, tt);
}

-- Over a connection that takes each request whole, with a block for the request of the recipe, and
-- with `ts_ns` and `ur_ts` apart in the memory and times below 2^64: if the controller refuses the version, the program
-- returns -1 and writes no file. If it accepts, lists DOUBLE for the one field of the recipe under an
-- id from 1 to 255, and answers the requests to start and to stop, in any way, and if each call of
-- `recv` finds a package of the recipe, another frame or an error, then the program returns 0 and
-- hands `write_file` one row for each package that arrived in the rounds, in order, with the time of
-- its arrival and the timestamp that it carries, and no other row.
pub session-logs :
    (w : World) (h : Client) (n n_setup n_begin n_end accepted id kind begun kind' ended : ℕ)
    (loopctr : ℤ) (arrivals : (i : ℕ) → Arrival id 8 (w.frames i).0)
    → ((i : ℕ) → (w.frames i).1 < 2 ^ 64)
    → w.has 0 ≡ true
    → (w.ts_ns + 8 ≤ w.ur_ts) ⊎ (w.ur_ts + 8 ≤ w.ts_ns)
    → h.con.connected ≡ true
    → length h.buffer ≡ 2048
    → AreBytes h.buffer
    → IsRam h.ram
    → length w.prot ≡ 5
    → length w.begin_cp ≡ 3
    → length w.end_cp ≡ 3
    → w.version ≡ whole n (0 ∷ 4 ∷ b'V' ∷ accepted ∷ [])
    → w.setup ≡ whole n_setup (setup_frame id (types_text double []))
    → w.begins ≡ whole n_begin (0 ∷ 4 ∷ kind ∷ begun ∷ [])
    → w.ends ≡ whole n_end (0 ∷ 4 ∷ kind' ∷ ended ∷ [])
    → 5 ≤ n
    → 20 ≤ n_setup
    → 3 ≤ n_begin
    → 3 ≤ n_end
    → accepted < 256
    → (id == 0) ≡ false
    → id < 256
    → kind < 256
    → begun < 256
    → session w loopctr h
      ≡ ret (
          if accepted == 0
          then (negsuc 0, none)
          else (pos 0, some (logged w.frames arrivals (rounds loopctr) 0)))
unfolding session track_ts_ns log
session-logs w h n n_setup n_begin n_end accepted id kind begun kind' ended loopctr arrivals lt has
      apart c room bytes memory prot begin_cp end_cp version setup begins ends fits fits_setup
      fits_begin fits_end byte is_id id_byte kind_byte begun_byte =
    let answer = 0 ∷ 4 ∷ b'V' ∷ accepted ∷ [] in
    let h1 = answered h (0 ∷ 5 ∷ b'V' ∷ 0 ∷ 2 ∷ []) 1024 answer in
    let ask = set_version_lem w.prot h n accepted prot c room fits in
    let (made, cpo, cpi, dp, new, added, cpo_room) =
      make_recipe w.ts_ns w.ur_ts h.ram (w.has 1) (w.has 2) in
    let m = poke h.ram w.ts_ns (le_bytes 8 0) in
    let h2 : Client = record h1 { ram = m } in
    let (h3, run, hearing, con) =
      registers h2 w.ts_ns w.ur_ts w.out n_setup id cpo cpi dp cpo_room c
        (length-filled h.buffer 1024 answer ∙ room)
        (filled-AreBytes h.buffer 1024 answer bytes
          (omega arith, (omega arith, (omega arith, (byte, tt)))))
        (poke-IsRam h.ram w.ts_ns (le_bytes 8 0) memory (le_bytes-AreBytes 8 0)) fits_setup
        id_byte in
    let rows =
      log-rows w h3 w.out id n_begin n_end kind begun kind' ended loopctr arrivals lt
        (timestamp-IsOutput id w.ts_ns w.ur_ts is_id id_byte apart) hearing con begins ends
        fits_begin fits_end kind_byte begun_byte begin_cp end_cp in
    elim (Bool-cases (accepted == 0)) [
      | inl e ↦ rw (version, ask, e) refl
      | inr e ↦ rw (version, ask, e, has, new, added, setup, run) rows
    ]
