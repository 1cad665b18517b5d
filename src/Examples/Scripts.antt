-- ===== src/Examples/Scripts.antt =====
-- A script file of two lines.
use lib_urx.Base.{[], ◌∷◌, refl, some, pos, true, false, ret, replicate, ◌≡◌, ◌++◌, arith}
use lib_urx.Bytes.{Bytes}
use lib_urx.Con.{Con}
use lib_urx.Script.{Script, upload_script}
use lib_urx.Script.Laws.{upload_script-sends}

abbrev idle : Script
idle = record { fname = []; script = []; parsed = false }

abbrev open_con : Con
open_con = record { sock = pos 4; connected = true; outgoing = [] }

-- "a\r\n\tb" is sent as "a\n        b\n".
abbrev sent_text : Bytes
sent_text = b'a' ∷ 10 ∷ (replicate 8 32 ++ (b'b' ∷ 10 ∷ []))

upload_script-sends_example :
    upload_script idle open_con (b'm' ∷ []) true (some (b'a' ∷ 13 ∷ 10 ∷ 9 ∷ b'b' ∷ [])) (pos 20)
    ≡ some (
        ret (
          record { fname = b'm' ∷ []; script = sent_text; parsed = true },
          record open_con { outgoing = sent_text ∷ [] },
          true,
        ))
upload_script-sends_example =
    upload_script-sends idle open_con b'm' 20 b'a' [] (13 ∷ 10 ∷ 9 ∷ b'b' ∷ []) refl (omega arith)
      (omega arith)
