-- ===== src/Examples/Sessions.antt =====
-- A robot that registers its outputs and receives a package.
use lib_urx.Base.{◌≡◌, refl, true, [], ◌∷◌, List, pos, ret, none, some, arith, false}
use lib_urx.Bytes.{check-AreBytes}
use lib_urx.Con.{arrived}
use lib_urx.Magic.Types.{DataType, double, int32, vector6d}
use lib_urx.Header.Responses.{is_unusable}
use lib_urx.Header.Responses.Laws.{types_text}
use lib_urx.Handler.Laws.{whole, incoming}
use lib_urx.Handler.Register.{setup_frame}
use lib_urx.Recipe.{Recipe}
use lib_urx.Robot.{Robot}
use lib_urx.Robot.Fields.{unused}
use lib_urx.Robot.Setup.{init_output_tcp_pose}
use lib_urx.Robot.Setup.Session.{init_output_tcp_pose-recv}
use lib_urx.Robot.Receive.{recv, state}
use lib_urx.Robot.Receive.Publish.{carried}
use lib_urx.Examples.Wire.{block}
use lib_urx.Examples.Recipes.{outputs}
use lib_urx.Examples.Robots.{robot, members-InOrder, payload, payload-AreBytes}

abbrev asker : Recipe
asker = record outputs { cpo = some block; ts_ns = none }

abbrev idle : Robot
idle = record (robot 1) {
  out_initialized = false;
  client = record (robot 1).client { out = none; recipes = λ p. unused true asker };
}

-- The types behind the first.
abbrev listed : List DataType
listed =
    double ∷ vector6d ∷ vector6d ∷ vector6d ∷ vector6d ∷ vector6d ∷ int32 ∷ double ∷ double ∷ double
    ∷ double ∷ double ∷ double ∷ []

init_output_tcp_pose-recv_example :
    (rb1 : Robot) × (rb2 : Robot) × (rb3 : Robot) × (init_output_tcp_pose idle
        (whole 274 (setup_frame 9 (types_text int32 listed)))
        (pos 0)
      ≡ ret (rb1, true))
    × (recv rb1 (arrived (incoming 308 b'U' 9 payload)) 77 88 ≡ ret (rb2, true))
    × (state rb2 ≡ ret (rb3, record (carried 88 payload) { local_ts_us = none }))
unfolding is_unusable
init_output_tcp_pose-recv_example =
    init_output_tcp_pose-recv idle 0 274 9 asker block int32 listed (pos 0) payload 77 88
      members-InOrder refl refl refl refl refl refl refl refl (check-AreBytes block refl)
      (omega arith) (omega arith) refl refl (omega arith) refl payload-AreBytes
