-- ===== src/Examples/Setups.antt =====
-- The registration of an input recipe, and a robot that has lost its connection.
use lib_urx.Token.Store.{IsRam, poke-IsRam}
use lib_urx.Robot.Doubles.{write_doubles-IsRam, be_bytes, write_doubles-Holds}
use lib_urx.Robot.Fields.{unused, control_tokens}
use lib_urx.Robot.Setup.{init_input}
use lib_urx.Robot.Setup.Inputs.{init_input-registers}
use lib_urx.Robot.Command.{update_w}
use lib_urx.Robot.Command.Sends.{IsLinked}
use lib_urx.Robot.Command.Payload.{be_array}
use lib_urx.Robot.Command.Refused.{update_w-unsent}
use lib_urx.Base.{
  ◌≡◌, refl, true, [], ◌∷◌, ◌++◌, length, take, drop, All, replicate, some, none, pos, ret, arith,
  List, false,
}
use lib_urx.Bytes.{check-AreBytes, Bytes, le_bytes, le_bytes-AreBytes}
use lib_urx.Memory.{Ram, poke, peek}
use lib_urx.Magic.Types.{codes, double, uint32, control_package_setup_inputs, DataType, int32}
use lib_urx.Header.Package.{hdr_size}
use lib_urx.Header.Control.{rtde_control_msg_in}
use lib_urx.Header.Responses.{is_unusable}
use lib_urx.Header.Responses.Laws.{types_text}
use lib_urx.Recipe.{Recipe, get_msg, get_fields}
use lib_urx.Recipe.Response.{accepted}
use lib_urx.Recipe.Layout.Store.{sent}
use lib_urx.Handler.{Client, find_recipe, register_recipe}
use lib_urx.Handler.Laws.{whole}
use lib_urx.Handler.Register.{setup_frame_of}
use lib_urx.Handler.Register.Input.{register_recipe-input}
use lib_urx.Robot.{write_doubles, Robot}
use lib_urx.Examples.Wire.{block, sevens, sevens-IsRam}
use lib_urx.Examples.Recipes.{inputs, inputs-IsLaidOut}
use lib_urx.Examples.Robots.{six, robot, members}

abbrev asker : Recipe
asker = record inputs { cpi = some block }

abbrev request : Bytes
request = 0 ∷ 44 ∷ b'I' ∷ (codes "speed_slider_mask,input_double_register_0" ++ replicate 2004 0)

get_msg-asker : get_msg asker ≡ ret (record asker { cpi = some request }, some request)
unfolding get_msg get_fields rtde_control_msg_in
get_msg-asker = refl

request_size : hdr_size request ≡ ret 44
unfolding hdr_size
request_size = refl

abbrev newcomer : Client
newcomer = record {
  con = record { sock = pos 4; connected = true; outgoing = [] };
  buffer = block;
  out = none;
  recipes_in = [];
  recipes = λ p. asker;
  ram = sevens;
}

register_recipe-input_example :
    (h' : Client) × (u : Bytes) × (register_recipe newcomer
        (some 5)
        (whole 44 (setup_frame_of control_package_setup_inputs 9 (types_text uint32 (double ∷ []))))
        (pos 16)
      ≡ ret (h', true))
    × (h'.recipes 5 ≡ record (accepted (record asker { cpi = some request }) 9) { dp = some u })
    × (find_recipe h'.recipes h'.recipes_in (pos 9) ≡ some 5)
    × (h'.con ≡ record newcomer.con { outgoing = take 16 u ∷ take 44 request ∷ [] })
    × (h'.ram ≡ sevens)
    × (length u ≡ 2048)
    × (hdr_size u ≡ ret 16)
    × All (λ j. take j.datasize (drop j.offset (drop 4 u)) ≡ sent sevens j) inputs.fields
unfolding is_unusable
register_recipe-input_example =
    register_recipe-input newcomer 5 (record asker { cpi = some request }) request block 44 44 9 16
      uint32 (double ∷ []) get_msg-asker refl request_size (omega arith) refl (omega arith) refl
      (check-AreBytes block refl) (omega arith) refl refl inputs-IsLaidOut sevens-IsRam refl refl
      (omega arith) (omega arith)

-- The members of a robot: the number 1, the command 0 and some velocities.
abbrev words : Ram
words = poke (poke sevens 312 (le_bytes 4 1)) 316 (le_bytes 4 0)

abbrev fresh : Ram
fresh = write_doubles words 320 six

fresh-IsRam : IsRam fresh
fresh-IsRam = write_doubles-IsRam words 320 six (
    poke-IsRam (poke sevens 312 (le_bytes 4 1)) 316 (le_bytes 4 0)
      (poke-IsRam sevens 312 (le_bytes 4 1) sevens-IsRam (le_bytes-AreBytes 4 1))
      (le_bytes-AreBytes 4 0))

fresh_number : peek fresh 312 4 ≡ le_bytes 4 1
unfolding peek write_doubles poke le_bytes
fresh_number = refl

fresh_command : peek fresh 316 4 ≡ le_bytes 4 0
unfolding peek write_doubles poke le_bytes
fresh_command = refl

abbrev idle : Robot
idle = record (robot 7) {
  in_initialized = false;
  client = record newcomer { recipes = λ p. unused false asker; ram = fresh };
}

abbrev six_doubles : List DataType
six_doubles = double ∷ double ∷ double ∷ double ∷ double ∷ double ∷ []

init_input-registers_example :
    (rb' : Robot) × (b : Bytes) × (u : Bytes) × (init_input idle
        (whole 188
          (setup_frame_of control_package_setup_inputs 9 (types_text int32 (int32 ∷ six_doubles))))
        (pos 60)
      ≡ ret (rb', true))
    × IsLinked rb' 7 (control_tokens members) 56 u
    × (rb'.client.con.outgoing ≡ take 60 u ∷ take 188 b ∷ [])
    × (hdr_size u ≡ ret 60)
    × (take 56 (drop 4 u) ≡ be_bytes 4 1 ++ (be_bytes 4 0 ++ be_array six []))
unfolding is_unusable
init_input-registers_example =
    init_input-registers idle 7 188 9 60 1 0 six asker block block int32 (int32 ∷ six_doubles) refl
      refl refl refl refl refl refl refl refl (check-AreBytes block refl) fresh-IsRam fresh_number
      fresh_command (write_doubles-Holds words 320 320 0 six refl) refl (omega arith) (omega arith)
      (omega arith) refl

-- The connection is lost.
abbrev lost : Robot
lost = record (robot 1) {
  client = record (robot 1).client { con = record (robot 1).client.con { connected = false } };
}

update_w-unsent_example :
    (rb' : Robot) × (update_w lost six (pos 60) ≡ ret (rb', false))
    × (rb'.last_seqnr ≡ 42)
    × (peek rb'.client.ram 316 4 ≡ le_bytes 4 2)
    × (rb'.client.con.outgoing ≡ [])
update_w-unsent_example =
    update_w-unsent lost six 1 block (pos 60) refl refl (unfold find_recipe in refl) refl refl refl
      refl refl refl sevens-IsRam refl
