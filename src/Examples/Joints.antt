-- ===== src/Examples/Joints.antt =====
-- The loop of joint_speed.cpp, with integers in place of doubles.
use lib_urx.Base.{
  ℕ, ◌≡◌, ◌==◌, ◌<◌, ◌++◌, refl, Bool, true, false, if◌then◌else◌, List, [], ◌∷◌, length, replicate,
  some, none, pos, ret, arith, inl,
}
use lib_urx.Bytes.{Bytes, check-AreBytes}
use lib_urx.Con.{arrived}
use lib_urx.Magic.Types.{int32, rtde_datasize}
use lib_urx.Memory.{Ram}
use lib_urx.Token.{Token}
use lib_urx.Token.Store.{IsRam}
use lib_urx.Recipe.Layout.{Layout}
use lib_urx.Handler.{Client, find_recipe}
use lib_urx.Handler.Laws.{incoming}
use lib_urx.Handler.Session.{IsOutput}
use lib_urx.Handler.Talking.{Talks}
use lib_urx.Robot.Fields.{token}
use lib_urx.Tools.JointSpeed
use lib_urx.Tools.JointSpeed.Rounds.{joint_tokens}
use lib_urx.Tools.JointSpeed.Settles.{offs_in, rounds-settle}
use lib_urx.Tools.JointSpeed.Window.{Quiet}
use lib_urx.Examples.Wire.{block, sevens, sevens-IsRam}
use lib_urx.Examples.Recipes.{outputs, inputs}
use lib_urx.Examples.Tools.{integers}

-- A client with the output recipe at 0 and the input recipe at 1.
abbrev pub talker : List Token → ℕ → List Token → ℕ → Ram → Client
talker ks n ks' n' m = record {
  con = record { sock = pos 4; connected = true; outgoing = [] };
  buffer = block;
  out = some 0;
  recipes_in = (pos 2, 1) ∷ [];
  recipes = λ p.
      if p == 0
      then record outputs { ts_ns = none; fields = ks; bytes = n }
      else record inputs { fields = ks'; bytes = n' };
  ram = m;
}

pub talker-Talks :
    (ks : List Token) (n : ℕ) (ks' : List Token) (n' : ℕ) (m : Ram)
    → IsRam m
    → Talks 0 1 n none ks 1 n' (pos 2) ks' (talker ks n ks' n' m)
unfolding find_recipe
talker-Talks ks n ks' n' m i = record {
  hears_it = record {
    registered = refl;
    fields = refl;
    bytes = refl;
    dir_out = refl;
    recipe_id = refl;
    tracked = refl;
    room = refl;
    are_bytes = check-AreBytes block refl;
    memory = i;
  };
  sends_it = record {
    registered = refl;
    fields = refl;
    bytes = refl;
    dir_in = refl;
    block = (block, refl, refl);
    connected = refl;
    memory = i;
  };
}

abbrev pub number_token : List Token
number_token = token false "input_int_register_0" int32 15 4 0 0 ∷ []

pub number-Layout : Layout false 0 number_token 4
unfolding rtde_datasize
number-Layout = (record { kind_fits = refl; type_fits = refl; size_fits = refl }, refl, refl)

-- The places of joint_speed.cpp, and its fields.
abbrev joint_places : JointSpeed.Places
joint_places = record { cmd = 0; in_tqd = 8; actual_q = 112 }

joint-IsOutput : IsOutput 1 104 none (joint_tokens 56 64 joint_places)
unfolding rtde_datasize
joint-IsOutput = record {
  is_id = refl;
  is_byte = omega arith;
  layout = (
    record { kind_fits = refl; type_fits = refl; size_fits = refl },
    refl,
    (
      record { kind_fits = refl; type_fits = refl; size_fits = refl },
      refl,
      (record { kind_fits = refl; type_fits = refl; size_fits = refl }, refl, refl),
    ),
  );
  fits = omega arith;
  apart = ((inl (omega arith), (inl (omega arith), tt)), ((inl (omega arith), tt), (tt, tt)));
  clear = tt;
}

abbrev angles : Bytes
angles = replicate 104 7

abbrev regulator : JointSpeed.Regulator
regulator = record {
  client = talker (joint_tokens 56 64 joint_places) 104 number_token 4 sevens;
  id = pos 2;
  speed = 0;
  prev_err = 0;
  stabilizer = 25;
}

abbrev joint_round : JointSpeed.Round
joint_round = record {
  input = arrived (incoming 108 b'U' 1 angles);
  ts = 77;
  first = pos 8;
  second = pos 8;
  message = pos 0;
  has_msg = false;
}

rounds-settle_example :
    (r' : JointSpeed.Regulator) × (running : Bool) × (left : List JointSpeed.Round)
    × (JointSpeed.rounds integers joint_places regulator (joint_round ∷ joint_round ∷ [])
        ≡ ret (r', running, left))
    × (running ≡ false
        → (before : List Bool) × (window : List Bool) × (after : List Bool) × (offs_in integers
              (angles ∷ angles ∷ [])
            ≡ before ++ (window ++ after))
          × Quiet window
          × (length window ≡ 25)
          × (length after ≡ length left))
    × (running ≡ true
        → (before window after : List Bool)
        → offs_in integers (angles ∷ angles ∷ []) ≡ before ++ (window ++ after)
        → Quiet window
        → length window < 25)
rounds-settle_example =
    rounds-settle integers joint_places 56 64 0 1 1 4 (pos 2) number_token joint-IsOutput
      number-Layout (omega arith) regulator (joint_round ∷ joint_round ∷ []) (angles ∷ angles ∷ [])
      refl (talker-Talks (joint_tokens 56 64 joint_places) 104 number_token 4 sevens sevens-IsRam)
      refl
      (
        refl,
        refl,
        check-AreBytes angles refl,
        record {
          size = 8;
          size' = 8;
          first = refl;
          second = refl;
          room = omega arith;
          room' = omega arith;
        },
        (
          refl,
          refl,
          check-AreBytes angles refl,
          record {
            size = 8;
            size' = 8;
            first = refl;
            second = refl;
            room = omega arith;
            room' = omega arith;
          },
          tt,
        ),
      )
