-- ===== src/Examples/Clients.antt =====
-- A client with one output and one input recipe.
use lib_urx.Base.{
  ℕ, refl, [], some, none, ◌∷◌, true, false, if◌then◌else◌, pos, ◌≡◌, replicate, ◌==◌, ret, All,
  arith, length, take, drop, ◌++◌, inr,
}
use lib_urx.Bytes.{check-AreBytes, Bytes}
use lib_urx.Memory.{Ram, peek}
use lib_urx.Header.Package.{hdr_size}
use lib_urx.Header.Control.{low_byte}
use lib_urx.Header.Responses.{rtde_parse_data_package}
use lib_urx.Recipe.{Recipe}
use lib_urx.Recipe.Layout.Parse.{TsIs, field_value}
use lib_urx.Recipe.Layout.Store.{sent}
use lib_urx.Handler.{
  Client, start, stop, send, parse_incoming_data, find_recipe, insert, recv, register_recipe,
}
use lib_urx.Handler.Receive.{recv-delivers}
use lib_urx.Con.{arrived}
use lib_urx.Handler.Register.{register_recipe-output, setup_frame}
use lib_urx.Recipe.{get_msg, get_fields}
use lib_urx.Header.Control.{rtde_control_msg_out}
use lib_urx.Recipe.Response.{accepted}
use lib_urx.Magic.Types.{codes, double, int32}
use lib_urx.Header.Responses.{is_unusable}
use lib_urx.Header.Responses.Laws.{types_text}
use lib_urx.Handler.Laws.{
  start_stop-answers, parse_incoming_data-rejects, parse_incoming_data-delivers, incoming, whole,
  sp_asked,
}
use lib_urx.Handler.Updates.{send-updates, insert-lookup, updated}
use lib_urx.Examples.Wire.{block, small, sevens, sevens-IsRam}
use lib_urx.Examples.Recipes.{
  outputs, inputs, outputs-IsLaidOut, inputs-IsLaidOut, outputs-Apart, outputs-TsClear,
}

-- Pointer 0 is the output recipe, every other pointer the input recipe.
abbrev both : ℕ → Recipe
both p = if p == 0 then outputs else inputs

abbrev client : Bytes → Client
client buffer = record {
  con = record { sock = pos 4; connected = true; outgoing = [] };
  buffer = buffer;
  out = some 0;
  recipes_in = (pos 2, 1) ∷ [];
  recipes = both;
  ram = sevens;
}

parse_incoming_data-delivers_example :
    (m : Ram) × (parse_incoming_data (client (incoming 16 b'U' 1 small)) 77
      ≡ ret (record (client (incoming 16 b'U' 1 small)) { ram = m }, true))
    × All (λ k. peek m k.storage k.datasize ≡ field_value k small) outputs.fields
    × TsIs (some 300) m 77
parse_incoming_data-delivers_example =
    parse_incoming_data-delivers (client (incoming 16 b'U' 1 small)) 0 16 b'U' 1 small 77 refl refl
      (omega arith) refl (omega arith) (check-AreBytes small refl) outputs-IsLaidOut refl
      outputs-Apart outputs-TsClear

parse_incoming_data-rejects_example :
    parse_incoming_data (client (incoming 15 b'U' 1 small)) 77
    ≡ ret (client (incoming 15 b'U' 1 small), false)
parse_incoming_data-rejects_example =
    parse_incoming_data-rejects (client (incoming 15 b'U' 1 small)) 0 15 b'U' 1 small 77 refl refl
      (omega arith) outputs-IsLaidOut (inr (inr (inr (omega arith))))

send-updates_example :
    (b : Bytes) × (send (client block) (pos 2) (pos 16) ≡ ret (updated (client block) 1 b 16, true))
    × (length b ≡ 2048)
    × (hdr_size b ≡ ret 16)
    × (rtde_parse_data_package (some b) ≡ ret true)
    × All (λ k. take k.datasize (drop k.offset (drop 4 b)) ≡ sent sevens k) inputs.fields
unfolding low_byte
send-updates_example =
    send-updates (client block) (pos 2) 1 16 block (unfold find_recipe in refl) inputs-IsLaidOut
      refl sevens-IsRam refl refl (omega arith) refl (omega arith)

insert-lookup_example :
    find_recipe both (insert (pos 2) 7 ((pos 2, 1) ∷ [])) (pos 2)
    ≡ elim (find_recipe both ((pos 2, 1) ∷ []) (pos 2)) [ none ↦ some 7 | some q ↦ some q ]
insert-lookup_example = insert-lookup both ((pos 2, 1) ∷ []) (pos 2) (pos 2) 7 (refl, tt) refl

start_stop-answers_example :
    (start (replicate 3 0) (client block) (whole 3 (0 ∷ 4 ∷ b'P' ∷ 1 ∷ []))
      ≡ ret (sp_asked (client block) b'S' b'P' 1, false))
    × (stop (replicate 3 0) (client block) (whole 3 (0 ∷ 4 ∷ b'P' ∷ 1 ∷ []))
        ≡ ret (sp_asked (client block) b'P' b'P' 1, false))
start_stop-answers_example =
    start_stop-answers (replicate 3 0) (client block) 3 b'P' 1 refl refl refl (omega arith)

recv-delivers_example :
    (m : Ram) × (b : Bytes) × (recv (client block) (arrived (incoming 16 b'U' 1 small)) 77
      ≡ ret (record (client block) { ram = m; buffer = b }, true))
    × All (λ k. peek m k.storage k.datasize ≡ field_value k small) outputs.fields
    × TsIs (some 300) m 77
recv-delivers_example =
    recv-delivers (client block) 0 16 1 small 77 refl refl (check-AreBytes block refl) (omega arith)
      (omega arith) refl (check-AreBytes small refl) outputs-IsLaidOut refl outputs-Apart
      outputs-TsClear

abbrev asker : Recipe
asker = record outputs { cpo = some block }

abbrev request : Bytes
request = 0 ∷ 31 ∷ b'O' ∷ (replicate 8 0 ++ (codes "timestamp,robot_mode" ++ replicate 2017 0))

get_msg-asker : get_msg asker ≡ ret (record asker { cpo = some request }, some request)
unfolding get_msg get_fields rtde_control_msg_out
get_msg-asker = refl

request_size : hdr_size request ≡ ret 31
unfolding hdr_size
request_size = refl

abbrev newcomer : Client
newcomer = record (client block) { out = none; recipes = λ p. asker }

register_recipe-output_example :
    (h' : Client) × (register_recipe newcomer
        (some 5)
        (whole 31 (setup_frame 9 (types_text double (int32 ∷ []))))
        (pos 0)
      ≡ ret (h', true))
    × (h'.recipes 5 ≡ accepted (record asker { cpo = some request }) 9)
    × (h'.out ≡ some 5)
    × (h'.con.outgoing ≡ take 31 request ∷ [])
unfolding is_unusable
register_recipe-output_example =
    register_recipe-output newcomer 5 (record asker { cpo = some request }) request 31 31 9 double
      (int32 ∷ []) (pos 0) get_msg-asker refl request_size (omega arith) refl (omega arith) refl
      (check-AreBytes block refl) (omega arith)
