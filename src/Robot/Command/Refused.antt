-- ===== src/Robot/Command/Refused.antt =====
-- Commands that do not go out.
use lib_urx.Base.{ℕ, ◌≡◌, ◌∙◌, refl, true, false, List, length, some, ℤ, ret, arith}
use lib_urx.Bytes.{Bytes, le_bytes}
use lib_urx.Memory.{Ram, peek}
use lib_urx.Token.Store.{IsRam}
use lib_urx.Handler
use lib_urx.Handler.{Client, put_recipe, find_recipe}
use lib_urx.Handler.Updates.{send-unsent}
use lib_urx.Robot.{Robot, write_doubles}
use lib_urx.Robot.Doubles.{write_doubles-IsRam}
use lib_urx.Robot.Fields.{control_tokens}
use lib_urx.Robot.Fields.Layouts.{control-IsLaidOut}
use lib_urx.Robot.Command.{update_w, command, prepare, send_input, set_ram, next_seqnr}
use lib_urx.Robot.Command.Sends.{commanding, commanding-IsRam}
use lib_urx.Robot.Command.Payload.{update_w_part, word_written}

command_failed :
    (rb : Robot) (m : Ram) (c p : ℕ) (written : ℤ) (h : Client)
    → rb.input ≡ some p
    → Handler.send
        (record rb.client { ram = commanding rb m c })
        (rb.client.recipes p).recipe_id
        written
      ≡ ret (h, false)
    → command (set_ram rb m) c written
      ≡ ret (record rb { last_seqnr = next_seqnr rb; client = h }, false)
unfolding command prepare send_input
command_failed rb m c p written h i run = simp (i, run)

-- `update_w` with six velocities without a connection returns false. Its sequence number is used up
-- all the same, the command 2 stays in the memory, and nothing is handed to the connection.
pub update_w-unsent :
    (rb : Robot) (w : List ℕ) (p : ℕ) (dp : Bytes) (written : ℤ)
    → rb.in_initialized ≡ true
    → rb.input ≡ some p
    → find_recipe rb.client.recipes rb.client.recipes_in (rb.client.recipes p).recipe_id ≡ some p
    → (rb.client.recipes p).fields ≡ control_tokens rb.members
    → (rb.client.recipes p).bytes ≡ 56
    → (rb.client.recipes p).dir_out ≡ false
    → (rb.client.recipes p).dp ≡ some dp
    → length dp ≡ 2048
    → rb.client.con.connected ≡ false
    → IsRam rb.client.ram
    → length w ≡ 6
    → (rb' : Robot) × (update_w rb w written ≡ ret (rb', false))
      × (rb'.last_seqnr ≡ next_seqnr rb)
      × (peek rb'.client.ram rb.members.cmd 4 ≡ le_bytes 4 2)
      × (rb'.client.con.outgoing ≡ rb.client.con.outgoing)
update_w-unsent rb w p dp written i input found fields bytes dir block room c ram six =
    let m = write_doubles rb.client.ram rb.members.set_qd w in
    let h : Client = record rb.client { ram = commanding rb m 2 } in
    let (b, run) =
      send-unsent h (h.recipes p).recipe_id written p dp found
        (rw (dir, fields, bytes) (control-IsLaidOut (rb.client.recipes p) rb.members)) dir
        (commanding-IsRam rb m 2 (write_doubles-IsRam rb.client.ram rb.members.set_qd w ram)) block
        room (omega (arith, bytes)) c in
    let h' = put_recipe h p (record (h.recipes p) { dp = some b }) in
    (
      record rb { last_seqnr = next_seqnr rb; client = h' },
      update_w_part rb w written six i ∙ command_failed rb m 2 p written h' input run,
      refl,
      word_written _ rb.members.cmd 2,
      refl,
    )
