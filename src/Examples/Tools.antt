-- ===== src/Examples/Tools.antt =====
-- The programs under tools/, with integers in place of doubles where they compute.
use lib_urx.Base.{
  ℕ, zero, suc, ◌+◌, ◌-◌, ◌*◌, ◌/◌, ◌≡◌, ◌<◌, refl, true, if◌then◌else◌, [], ◌∷◌, length, take,
  replicate, some, pos, negsuc, ret, arith, inr, ◌^◌, is_positive,
}
use lib_urx.Bytes.{check-AreBytes}
use lib_urx.Con.{Incoming, arrived, failed, is_short}
use lib_urx.Magic.Types.{codes}
use lib_urx.Handler.{Client, send_emerg_msg}
use lib_urx.Handler.Laws.{incoming, whole}
use lib_urx.Handler.Session.{Arrival, fresh, broken, strange}
use lib_urx.Handler.Emergency.{emergency_frame, send_emerg_msg-sends}
use lib_urx.Tools.{Doubles}
use lib_urx.Tools.GetRemote
use lib_urx.Tools.GetRemote.{session, rounds}
use lib_urx.Tools.GetRemote.Log.{timestamp_field, logged}
use lib_urx.Tools.GetRemote.Session.{session-logs}
use lib_urx.Handler.Register.{setup_frame}
use lib_urx.Header.Responses.Laws.{types_text}
use lib_urx.Magic.Types.{double}
use lib_urx.Examples.Wire.{block, sevens, sevens-IsRam, small}
use lib_urx.Examples.Recipes.{outputs}

abbrev pub integers : Doubles
integers = record {
  plus = λ a b. a + b;
  minus = λ a b. a - b;
  times = λ a b. a * b;
  over = λ a b. a / b;
  of_int = λ a. a;
}

-- The recipe of get_remote.cpp.
abbrev listener : Client
listener = record {
  con = record { sock = pos 4; connected = true; outgoing = [] };
  buffer = block;
  out = some 0;
  recipes_in = [];
  recipes = λ p. record outputs { fields = timestamp_field 100 ∷ []; bytes = 8 };
  ram = sevens;
}

-- A package, an error, and a text message from then on.
abbrev frames : ℕ → Incoming × ℕ
frames zero = (arrived (incoming 12 b'U' 1 (take 8 small)), 77)
frames (suc zero) = (failed 11, 78)
frames (suc (suc n)) = (arrived (incoming 12 b'M' 1 (take 8 small)), 79)

frames-Arrival : (i : ℕ) → Arrival 1 8 (frames i).0
frames-Arrival zero = fresh (take 8 small) refl (check-AreBytes (take 8 small) refl)
frames-Arrival (suc zero) = broken 11
frames-Arrival (suc (suc n)) =
    strange 12 b'M' 1 (take 8 small) (omega arith) refl
      (check-AreBytes (incoming 12 b'M' 1 (take 8 small)) refl) refl

frames-time : (i : ℕ) → (frames i).1 < 2 ^ 64
frames-time zero = omega arith
frames-time (suc zero) = omega arith
frames-time (suc (suc n)) = omega arith

abbrev remote : GetRemote.World
remote = record {
  ts_ns = 300;
  ur_ts = 100;
  out = 0;
  prot = replicate 5 9;
  begin_cp = replicate 3 9;
  end_cp = replicate 3 9;
  has = λ i. true;
  version = whole 5 (0 ∷ 4 ∷ b'V' ∷ 1 ∷ []);
  setup = whole 20 (setup_frame 1 (types_text double []));
  begins = whole 4 (0 ∷ 4 ∷ b'S' ∷ 1 ∷ []);
  ends = whole 4 (0 ∷ 4 ∷ b'P' ∷ 1 ∷ []);
  frames = frames;
}

session-logs_example :
    session remote (pos 3) listener
    ≡ ret (pos 0, some (logged frames frames-Arrival (rounds (pos 3)) 0))
session-logs_example =
    session-logs remote listener 5 20 4 4 1 1 b'S' 1 b'P' 1 (pos 3) frames-Arrival frames-time refl
      (inr (omega arith)) refl refl (check-AreBytes block refl) sevens-IsRam refl refl refl refl
      refl refl refl (omega arith) (omega arith) (omega arith) (omega arith) (omega arith) refl
      (omega arith) (omega arith) (omega arith)

send_emerg_msg-sends_example :
    send_emerg_msg true listener (codes "stop") (pos 20)
    ≡ ret (
      record listener {
        con = record listener.con { outgoing = emergency_frame (codes "stop") ∷ [] };
      },
      is_positive (
          if is_short (pos 20) (length (emergency_frame (codes "stop"))) then negsuc 0 else pos 20),
    )
send_emerg_msg-sends_example =
    send_emerg_msg-sends listener (codes "stop") (pos 20)
      (omega arith, (omega arith, (omega arith, (omega arith, tt)))) (omega arith) refl
