-- ===== src/Robot/Command/Sends.antt =====
-- What the robot's commands hand to the connection.
use mathlib.Core.Path.{subst}
use lib_urx.Base.{
  ℕ, ◌≡◌, ◌≤◌, ◌+◌, ◌==◌, ap, ◌∙◌, true, false, not, List, length, take, drop, some, pos, ret,
  arith, All,
}
use lib_urx.Bytes.{Bytes, le_bytes, le_bytes-AreBytes}
use lib_urx.Memory.{Ram}
use lib_urx.Header.Package.{hdr_size}
use lib_urx.Header.Control.{low_byte}
use lib_urx.Header.Responses.{rtde_parse_data_package}
use lib_urx.Token.{Token}
use lib_urx.Token.Store.{IsRam, poke-IsRam}
use lib_urx.Recipe.Layout.{Layout}
use lib_urx.Recipe.Layout.Store.{sent}
use lib_urx.Recipe.Layout.Packed.{packed, Layout-packed}
use lib_urx.Handler
use lib_urx.Handler.{Client, find_recipe, send}
use lib_urx.Handler.Updates.{updated, send-updates}
use lib_urx.Robot.{Robot, write_word}
use lib_urx.Robot.Command.{prepare, send_input, command, set_ram, next_seqnr}

-- The robot's input recipe at p is registered with some fields.
pub record IsLinked (rb : Robot) (p : ℕ) (ks : List Token) (n : ℕ) (dp : Bytes) : Type 0 where
  pub initialized : rb.in_initialized ≡ true
  pub input : rb.input ≡ some p
  pub registered :
      find_recipe rb.client.recipes rb.client.recipes_in (rb.client.recipes p).recipe_id ≡ some p
  pub fields : (rb.client.recipes p).fields ≡ ks
  pub bytes : (rb.client.recipes p).bytes ≡ n
  pub dir_in : (rb.client.recipes p).dir_out ≡ false
  pub block : (rb.client.recipes p).dp ≡ some dp
  pub room : length dp ≡ 2048
  pub connected : rb.client.con.connected ≡ true

-- The memory when a command goes out.
abbrev pub commanding : Robot → Ram → ℕ → Ram
commanding rb m c = write_word (write_word m rb.members.in_seqnr (next_seqnr rb)) rb.members.cmd c

-- The robot after a command went out in the package b.
abbrev pub commanded : Robot → Ram → ℕ → ℕ → Bytes → ℕ → Robot
commanded rb m c p b size =
    let m' = commanding rb m c in
    let h = updated (record rb.client { ram = m' }) p b size in
    record rb {
      last_seqnr = next_seqnr rb;
      client = record h { ram = write_word m' rb.members.cmd 0 };
    }

pub commanding-IsRam : (rb : Robot) (m : Ram) (c : ℕ) → IsRam m → IsRam (commanding rb m c)
commanding-IsRam rb m c h =
    poke-IsRam _ rb.members.cmd (le_bytes 4 c)
      (poke-IsRam m rb.members.in_seqnr (le_bytes 4 (next_seqnr rb)) h
        (le_bytes-AreBytes 4 (next_seqnr rb)))
      (le_bytes-AreBytes 4 c)

-- A command over a `send` that returns true.
command_part :
    (rb : Robot) (m : Ram) (c p n : ℕ) (b : Bytes) (size : ℕ)
    → rb.input ≡ some p
    → Handler.send
        (record rb.client { ram = commanding rb m c })
        (rb.client.recipes p).recipe_id
        (pos n)
      ≡ ret (updated (record rb.client { ram = commanding rb m c }) p b size, true)
    → command (set_ram rb m) c (pos n) ≡ ret (commanded rb m c p b size, true)
unfolding command prepare send_input
command_part rb m c p n b size i run = simp (i, run)

-- `send` with the memory of a command.
pub ready-sends :
    (rb : Robot) (m : Ram) (c p e n : ℕ) (ks : List Token) (dp : Bytes)
    → IsLinked rb p ks e dp
    → Layout false 0 ks e
    → e ≤ 2044
    → IsRam m
    → 4 + e ≤ n
    → let h : Client = record rb.client { ram = commanding rb m c } in
      (b : Bytes) × (Handler.send h (rb.client.recipes p).recipe_id (pos n)
        ≡ ret (updated h p b (4 + e), true))
      × (hdr_size b ≡ ret (4 + e))
      × (rtde_parse_data_package (some b)
          ≡ ret (not (low_byte (rb.client.recipes p).recipe_id == 0)))
      × (take e (drop 4 b) ≡ packed (commanding rb m c) ks)
ready-sends rb m c p e n ks dp i l fits ram w =
    let m' = commanding rb m c in
    let h : Client = record rb.client { ram = m' } in
    let (b, run, room, size, valid, fields) =
      send-updates h (h.recipes p).recipe_id p n dp i.registered
        (rw (i.dir_in, i.fields, i.bytes) l) i.dir_in (commanding-IsRam rb m c ram) i.block i.room
        (omega (arith, i.bytes, fits)) i.connected (omega (arith, i.bytes, w)) in
    let whole =
      Layout-packed false 0 ks e e m' (drop 4 b) (omega arith) l (
        subst (All (λ k. take k.datasize (drop k.offset (drop 4 b)) ≡ sent m' k)) i.fields
          fields) in
    (
      b,
      run ∙ ap (λ k. ret (updated h p b (4 + k), true)) i.bytes,
      size ∙ ap (λ k. ret (4 + k)) i.bytes,
      valid,
      whole,
    )

pub command-sends :
    (rb : Robot) (m : Ram) (c p e n : ℕ) (ks : List Token) (dp : Bytes)
    → IsLinked rb p ks e dp
    → Layout false 0 ks e
    → e ≤ 2044
    → IsRam m
    → 4 + e ≤ n
    → (b : Bytes) × (command (set_ram rb m) c (pos n) ≡ ret (commanded rb m c p b (4 + e), true))
      × (hdr_size b ≡ ret (4 + e))
      × (rtde_parse_data_package (some b)
          ≡ ret (not (low_byte (rb.client.recipes p).recipe_id == 0)))
      × (take e (drop 4 b) ≡ packed (commanding rb m c) ks)
command-sends rb m c p e n ks dp i l fits ram w =
    let (b, run, size, valid, whole) = ready-sends rb m c p e n ks dp i l fits ram w in
    (b, command_part rb m c p n b (4 + e) i.input run, size, valid, whole)
