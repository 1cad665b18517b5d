-- ===== src/Examples/Trips.antt =====
-- The loop of measure_roundtrip.cpp.
use lib_urx.Base.{
  ℕ, ◌≡◌, ◌++◌, refl, true, false, [], ◌∷◌, length, replicate, none, pos, ret, arith, inl, inr,
}
use lib_urx.Bytes.{le_value, be_value, Bytes, check-AreBytes}
use lib_urx.Con.{arrived}
use lib_urx.Magic.Types.{rtde_datasize}
use lib_urx.Memory.{Ram, peek}
use lib_urx.Handler.Laws.{incoming}
use lib_urx.Handler.Session.{IsOutput, fresh}
use lib_urx.Tools.Roundtrip
use lib_urx.Tools.Roundtrip.{trips, next, word_at}
use lib_urx.Tools.Roundtrip.Attempts.{trip_tokens}
use lib_urx.Tools.Roundtrip.Trips.{trips-record, IsAnswered}
use lib_urx.Examples.Joints.{talker, talker-Talks, number_token, number-Layout}

-- The places of measure_roundtrip.cpp, in a memory of zeros.
abbrev trip_places : Roundtrip.Places
trip_places = record { in_seqnr = 0; out_seqnr = 4; ts = 8 }

abbrev zeros : Ram
zeros a = 0

trip-IsOutput : IsOutput 1 12 none (trip_tokens trip_places)
unfolding rtde_datasize
trip-IsOutput = record {
  is_id = refl;
  is_byte = omega arith;
  layout = (
    record { kind_fits = refl; type_fits = refl; size_fits = refl },
    refl,
    (record { kind_fits = refl; type_fits = refl; size_fits = refl }, refl, refl),
  );
  fits = omega arith;
  apart = ((inr (omega arith), tt), (tt, tt));
  clear = tt;
}

abbrev measurement : Roundtrip.Measurement
measurement = record {
  client = talker (trip_tokens trip_places) 12 number_token 4 zeros;
  id = pos 2;
  tracefd = none;
  ts_set = [];
  horiz_found = false;
  horiz = [];
  sleeps = 0;
}

-- The controller brings a number v in every attempt.
abbrev answer : ℕ → Bytes
answer v = replicate 11 0 ++ (v ∷ [])

abbrev attempt : ℕ → Roundtrip.Attempt
attempt v = record {
  written = pos 8;
  input = arrived (incoming 16 b'U' 1 (answer v));
  rx_ts = 77;
  end_us = 1500;
}

abbrev answered : ℕ → Roundtrip.Trip
answered v = record { start_us = 1000; attempts = λ i. attempt v; can_open = true }

first-IsAnswered : IsAnswered 1 1 (answered 1)
unfolding be_value
first-IsAnswered = record {
  fair = λ i. record {
    arrival = fresh (answer 1) refl (check-AreBytes (answer 1) refl);
    size = 8;
    written = refl;
    room = omega arith;
  };
  attempt = 0;
  in_time = omega arith;
  answers = refl;
}

second-IsAnswered : IsAnswered 1 2 (answered 2)
unfolding be_value
second-IsAnswered = record {
  fair = λ i. record {
    arrival = fresh (answer 2) refl (check-AreBytes (answer 2) refl);
    size = 8;
    written = refl;
    room = omega arith;
  };
  attempt = 0;
  in_time = omega arith;
  answers = refl;
}

trips-record_example :
    (s' : Roundtrip.Measurement) × (trips trip_places
        (pos 3000)
        measurement
        (answered 1 ∷ answered 2 ∷ [])
      ≡ ret (s', next))
    × (word_at s'.client.ram 0 ≡ 2)
    × (length s'.ts_set ≡ 2)
unfolding le_value peek
trips-record_example =
    trips-record trip_places 0 1 1 (pos 2) number_token trip-IsOutput number-Layout
      (inl (omega arith), (inl (omega arith), tt)) (pos 3000) (answered 1 ∷ answered 2 ∷ []) 0 []
      measurement (omega arith) (first-IsAnswered, (second-IsAnswered, tt))
      (record {
        talks = talker-Talks (trip_tokens trip_places) 12 number_token 4 zeros (λ a. omega arith);
        same_id = refl;
        number = refl;
        untraced = refl;
        recorded = refl;
      })
