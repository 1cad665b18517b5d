-- ===== src/Tools/Roundtrip/Trips.antt =====
-- The trips that measure_roundtrip.cpp records.
use lib_urx.Base.{
  length-append, Bool, some, true, false, ℕ, ◌+◌, ◌-◌, ◌<◌, ◌≡◌, ◌==◌, ◌^◌, ap, ◌∙◌, ltb, List, [],
  ◌∷◌, ◌++◌, length, none, ℤ, ret, arith, Bool-cases, inl, inr, refl,
}
use lib_urx.Bytes.{le_value, le_bytes, le_bytes-AreBytes, le_value-le_bytes}
use lib_urx.Memory.{poke, peek}
use lib_urx.Token.{Token}
use lib_urx.Token.Store.{poke-IsRam}
use lib_urx.Recipe.Layout.{Layout}
use lib_urx.Recipe.Layout.Parse.{Clear}
use lib_urx.Handler.Session.{IsOutput}
use lib_urx.Handler.Talking.{Talks-ram}
use lib_urx.Robot.Command.Payload.{word_written}
use lib_urx.Tools.Roundtrip.{
  is_late, stop_trace, trip, trips, Places, Measurement, Trip, word_at, look_ahead, next_seqnr,
  record_trip, next,
}
use lib_urx.Tools.Roundtrip.Attempts.{again-finds, trip_tokens, Answers, IsFair, Waits}

-- The controller brings the number v within 100 attempts of a trip.
pub record IsAnswered (id v : ℕ) (net : Trip) : Type 0 where
  pub fair : (i : ℕ) → IsFair id (net.attempts i)
  pub attempt : ℕ
  pub in_time : attempt < 100
  pub answers : Answers v (fair attempt).arrival

stop_trace-none : (can_open : Bool) → stop_trace can_open none ≡ some none
unfolding stop_trace
stop_trace-none true = refl
stop_trace-none false = refl

-- Every trip is answered, from the number v on.
abbrev pub AllAnswered : ℕ → ℕ → List Trip → Type 0
AllAnswered id v [] = Unit {0}
AllAnswered id v (net ∷ nets) = IsAnswered id v net × AllAnswered id (v + 1) nets

module _ (at_ : Places) (p id q : ℕ) (id' : ℤ) (ks : List Token)
    (o : IsOutput id 12 none (trip_tokens at_)) (l : Layout false 0 ks 4)
    (apart : Clear at_.in_seqnr 4 (trip_tokens at_)) where
  abbrev pub Waiting : ℕ → List (ℕ × ℕ) → Measurement → Type 0
  Waiting = Waits at_ p id q id' ks o l apart

  -- `in_seqnr++`.
  asks :
      (v : ℕ) (ts_set : List (ℕ × ℕ)) (s : Measurement)
      → v + 1 < 2 ^ 31
      → Waiting v ts_set s
      → (s' : Measurement) × (next_seqnr at_ s ≡ ret s') × Waiting (v + 1) ts_set s'
  unfolding next_seqnr
  asks v ts_set s lt w =
      let m = s.client.ram in
      let m' = poke m at_.in_seqnr (le_bytes 4 (v + 1)) in
      let more : (v == 2 ^ 31 - 1) ≡ false = ground (arith, lt) in
      let number : word_at m' at_.in_seqnr ≡ v + 1 =
        ap le_value (word_written m at_.in_seqnr (v + 1))
        ∙ le_value-le_bytes 4 (v + 1) (omega (arith, lt)) in
      let memory =
        poke-IsRam m at_.in_seqnr (le_bytes 4 (v + 1)) w.talks.sends_it.memory
          (le_bytes-AreBytes 4 (v + 1)) in
      (
        record s { client = record s.client { ram = m' } },
        rw (w.number, more),
        record {
          talks = Talks-ram p id 12 none (trip_tokens at_) q 4 id' ks s.client m' memory w.talks;
          same_id = w.same_id;
          number = number;
          untraced = w.untraced;
          recorded = w.recorded;
        },
      )

  looks :
      (diff v : ℕ) (ts_set : List (ℕ × ℕ)) (s : Measurement)
      → Waiting v ts_set s
      → Waiting v ts_set (look_ahead diff s)
  unfolding look_ahead
  looks diff v ts_set s w = elim (Bool-cases s.horiz_found) [
    | inl e ↦ simp e w
    | inr e ↦ elim (Bool-cases (ltb 1000 (length (s.horiz ++ (diff ∷ []))))) [
      | inl f ↦
          rw (e, f)
            (record {
              talks = w.talks;
              same_id = w.same_id;
              number = w.number;
              untraced = w.untraced;
              recorded = w.recorded;
            })
      | inr f ↦
          rw (e, f)
            (record {
              talks = w.talks;
              same_id = w.same_id;
              number = w.number;
              untraced = w.untraced;
              recorded = w.recorded;
            })
    ]
  ]

  -- A trip that found its number is recorded, and the next one may begin.
  records :
      (trace_timeout : ℤ) (net : Trip) (i v : ℕ) (ts_set : List (ℕ × ℕ)) (s : Measurement)
      → Waiting v ts_set s
      → (s' : Measurement) × (y : ℕ) × (record_trip at_ trace_timeout net i s ≡ (s', next))
        × Waiting v (ts_set ++ (((net.attempts i).end_us, y) ∷ [])) s'
  unfolding record_trip
  records trace_timeout net i v ts_set s w =
      let y = le_value (peek s.client.ram at_.ts 8) in
      let end_us = (net.attempts i).end_us in
      let diff = end_us - net.start_us in
      let kept : Measurement = record s { ts_set = s.ts_set ++ ((end_us, y) ∷ []) } in
      let untraced : Measurement = record kept { tracefd = none } in
      let closed = ap (stop_trace net.can_open) w.untraced ∙ stop_trace-none net.can_open in
      elim (Bool-cases (is_late diff trace_timeout)) [
        | inl e ↦ (
          look_ahead diff untraced,
          y,
          simp (e, closed),
          looks diff v _ untraced (record {
            talks = w.talks;
            same_id = w.same_id;
            number = w.number;
            untraced = refl;
            recorded = rw w.recorded;
          }),
        )
        | inr e ↦ (
          look_ahead diff kept,
          y,
          simp e,
          looks diff v _ kept (record {
            talks = w.talks;
            same_id = w.same_id;
            number = w.number;
            untraced = w.untraced;
            recorded = rw w.recorded;
          }),
        )
      ]

  -- One trip that is answered.
  trip_lem :
      (trace_timeout : ℤ) (net : Trip) (v : ℕ) (ts_set : List (ℕ × ℕ)) (s : Measurement)
      → v + 1 < 2 ^ 31
      → IsAnswered id (v + 1) net
      → Waiting v ts_set s
      → (s' : Measurement) × (i : ℕ) × (y : ℕ) × (trip at_ trace_timeout s net ≡ ret (s', next))
        × Waiting (v + 1) (ts_set ++ (((net.attempts i).end_us, y) ∷ [])) s'
  unfolding trip
  trip_lem trace_timeout net v ts_set s lt a w =
      let (s1, asked, w1) = asks v ts_set s lt w in
      let (s2, found, run, w2, finds) =
        again-finds at_ p id q id' ks o l apart 100 0 net.start_us (v + 1) ts_set net.attempts s1
          a.fair w1 in
      let (i, soon, there) = finds a.attempt (omega arith) (omega (arith, a.in_time)) a.answers in
      let (s3, y, recorded, w3) = records trace_timeout net i (v + 1) ts_set s2 w2 in
      (s3, i, y, simp (asked, run, there, recorded), w3)

  -- For a client that has the program's two recipes registered, and a measurement without a trace
  -- that waits with the number v, where v and the number of trips stay below 2^31: if `send` takes
  -- every package and each call of `recv` finds a package of the recipe, an error or another frame,
  -- and the controller brings the number of each trip within 100 attempts of it, then the loop runs
  -- to its end without a fault and without giving up, the number has grown by the number of trips,
  -- and every trip has added one entry to `ts_set`.
  pub trips-record :
      (trace_timeout : ℤ) (nets : List Trip) (v : ℕ) (ts_set : List (ℕ × ℕ)) (s : Measurement)
      → v + length nets < 2 ^ 31
      → AllAnswered id (v + 1) nets
      → Waiting v ts_set s
      → (s' : Measurement) × (trips at_ trace_timeout s nets ≡ ret (s', next))
        × (word_at s'.client.ram at_.in_seqnr ≡ v + length nets)
        × (length s'.ts_set ≡ length ts_set + length nets)
  unfolding trips
  trips-record trace_timeout [] v ts_set s lt a w =
      (s, refl, omega (arith, w.number), omega (arith, ap length w.recorded))
  trips-record trace_timeout (net ∷ nets) v ts_set s lt a w =
      let (s1, i, y, run, w1) = trip_lem trace_timeout net v ts_set s (omega (arith, lt)) a.0 w in
      let (s2, runs, number, len) =
        trips-record trace_timeout nets (v + 1) (ts_set ++ (((net.attempts i).end_us, y) ∷ [])) s1
          (omega (arith, lt)) a.1 w1 in
      (
        s2,
        rw (run, trips) runs,
        omega (arith, number),
        omega (arith, len, length-append ts_set (((net.attempts i).end_us, y) ∷ [])),
      )
