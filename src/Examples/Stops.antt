-- ===== src/Examples/Stops.antt =====
-- A robot that is stopped.
use lib_urx.Base.{◌≡◌, refl, true, false, [], ◌∷◌, ◌++◌, take, drop, pos, ret, arith}
use lib_urx.Bytes.{Bytes, le_bytes}
use lib_urx.Memory.{peek}
use lib_urx.Header.Package.{hdr_size}
use lib_urx.Handler.{find_recipe}
use lib_urx.Handler.Laws.{whole}
use lib_urx.Robot.{Robot, write_doubles}
use lib_urx.Robot.Doubles.{be_bytes, write_doubles-Holds, write_doubles-IsRam}
use lib_urx.Robot.Fields.{control_tokens}
use lib_urx.Robot.Command.{stop}
use lib_urx.Robot.Command.Sends.{IsLinked}
use lib_urx.Robot.Command.Payload.{be_array}
use lib_urx.Robot.Command.Stopped.{stop-pauses}
use lib_urx.Examples.Wire.{block, sevens, sevens-IsRam}
use lib_urx.Examples.Robots.{robot, members, members-InOrder, six}

abbrev moving : Robot
moving = record (robot 1) {
  client = record (robot 1).client { ram = write_doubles sevens 320 six };
}

moving-IsLinked : IsLinked moving 1 (control_tokens members) 56 block
moving-IsLinked = record {
  initialized = refl;
  input = refl;
  registered = unfold find_recipe in refl;
  fields = refl;
  bytes = refl;
  dir_in = refl;
  block = refl;
  room = refl;
  connected = refl;
}

stop-pauses_example :
    (rb' : Robot) × (b : Bytes) × (stop moving
        (pos 60)
        (7 ∷ 7 ∷ 7 ∷ [])
        (whole 3 (0 ∷ 4 ∷ b'P' ∷ 1 ∷ []))
      ≡ ret (rb', true))
    × (rb'.client.con.outgoing ≡ (0 ∷ 3 ∷ b'P' ∷ []) ∷ take 60 b ∷ [])
    × (hdr_size b ≡ ret 60)
    × (take 56 (drop 4 b) ≡ be_bytes 4 42 ++ (be_bytes 4 1 ++ be_array six []))
    × (rb'.last_seqnr ≡ 42)
    × (rb'.running ≡ false)
    × (rb'.joinable ≡ false)
    × (peek rb'.client.ram 316 4 ≡ le_bytes 4 1)
stop-pauses_example =
    stop-pauses moving six 1 60 3 b'P' 1 block (7 ∷ 7 ∷ 7 ∷ []) members-InOrder moving-IsLinked
      (write_doubles-IsRam sevens 320 six sevens-IsRam)
      (write_doubles-Holds sevens 320 320 0 six refl) refl refl refl (omega arith) refl refl
      (omega arith)
