-- ===== src/Tools/Roundtrip/Attempts.antt =====
-- The attempts of one trip in measure_roundtrip.cpp.
use mathlib.Core.Path.{subst}
use lib_urx.Base.{
  ◌>>=◌, inr, inl, suc, zero, sym, Bool-cases, ◌+◌, ◌<◌, ℕ, ◌≤◌, ◌≡◌, ◌==◌, refl, ap, ◌∙◌, Bool,
  true, false, List, [], ◌∷◌, take, drop, none, ℤ, pos, ret, arith, Option, ◌<◌, ◌+◌, some, suc,
  Bool-cases, inl, inr,
}
use lib_urx.Bytes.{be_value, le_value}
use lib_urx.Magic.Types.{double, int32}
use lib_urx.Memory.{Ram}
use lib_urx.Con.{Incoming}
use lib_urx.Token.{Token}
use lib_urx.Recipe.Layout.{Layout}
use lib_urx.Recipe.Layout.Parse.{Clear}
use lib_urx.Handler.Session.{IsOutput, Arrival, fresh, broken, strange, Effect, heard_client}
use lib_urx.Handler.Updates.{updated}
use lib_urx.Handler.Talking.{Talks, Talks-recv, Talks-send}
use lib_urx.Robot.Fields.{token}
use lib_urx.Robot.Receive.Publish.{word_be}
use lib_urx.Tools.Roundtrip.{
  Places, Measurement, Attempt, word_at, tag_tracebuffer, send_seqnr, compare_seqnr, again,
}

-- The fields of the output recipe.
abbrev pub trip_tokens : Places → List Token
trip_tokens at_ =
    token true "timestamp" double 0 8 0 at_.ts
    ∷ token true "output_int_register_0" int32 57 4 8 at_.out_seqnr
    ∷ []

-- An arrival that brings a number.
abbrev pub Answers : {id : ℕ} {input : Incoming} → ℕ → Arrival id 12 input → Type 0
Answers v (fresh payload len bytes) = be_value (take 4 (drop 8 payload)) ≡ v
Answers v (broken e) = ⊥
Answers v (strange size type id' payload fits whole bytes e) = ⊥

-- What an attempt finds is an arrival, and `send` takes the whole package.
pub record IsFair (id : ℕ) (a : Attempt) : Type 0 where
  pub arrival : Arrival id 12 a.input
  pub size : ℕ
  pub written : a.written ≡ pos size
  pub room : 8 ≤ size

module _ (at_ : Places) (p id q : ℕ) (id' : ℤ) (ks : List Token)
    (o : IsOutput id 12 none (trip_tokens at_)) (l : Layout false 0 ks 4)
    (apart : Clear at_.in_seqnr 4 (trip_tokens at_)) where
  -- The measurement waits for the number v, without a trace, and has recorded some trips.
  pub record Waits (v : ℕ) (ts_set : List (ℕ × ℕ)) (s : Measurement) : Type 0 where
    pub talks : Talks p id 12 none (trip_tokens at_) q 4 id' ks s.client
    pub same_id : s.id ≡ id'
    pub number : word_at s.client.ram at_.in_seqnr ≡ v
    pub untraced : s.tracefd ≡ none
    pub recorded : s.ts_set ≡ ts_set

  -- A number that an arrival brings is in the memory.
  answered :
      (m m' : Ram) (heard : Bool) (ts v : ℕ) (input : Incoming) (a : Arrival id 12 input)
      → Effect none (trip_tokens at_) ts a m m' heard
      → Answers v a
      → word_at m' at_.out_seqnr ≡ v
  answered m m' heard ts v input (fresh payload len bytes) (e, fields, time, outside) h =
      word_be 4 m' at_.out_seqnr (drop 8 payload) fields.1.0 ∙ h
  answered m m' heard ts v input (broken n) effect h = absurd h
  answered m m' heard ts v input (strange size type id'' payload fits whole bytes e) effect h =
      absurd h

  -- The number that was sent stays in the memory.
  kept_number :
      (m m' : Ram) (heard : Bool) (ts : ℕ) (input : Incoming) (a : Arrival id 12 input)
      → Effect none (trip_tokens at_) ts a m m' heard
      → word_at m' at_.in_seqnr ≡ word_at m at_.in_seqnr
  kept_number m m' heard ts input (fresh payload len bytes) (e, fields, time, outside) =
      ap le_value (outside at_.in_seqnr 4 apart tt)
  kept_number m m' heard ts input (broken n) (e, same) = rw same
  kept_number m m' heard ts input (strange size type id'' payload fits whole bytes x) (e, same) =
      rw same

  -- One attempt: whether the numbers agree, and they do where the attempt brings the number.
  attempt_lem :
      (start_us v : ℕ) (ts_set : List (ℕ × ℕ)) (a : Attempt) (s : Measurement)
      → (f : IsFair id a) → Waits v ts_set s
      → (s1 : Measurement) × (s2 : Measurement) × (agree : Bool) × (send_seqnr s a.written ≡ ret s1)
        × (compare_seqnr at_ start_us s1 a ≡ ret (s2, agree))
        × Waits v ts_set s1
        × Waits v ts_set s2
        × (Answers v f.arrival → agree ≡ true)
  unfolding send_seqnr compare_seqnr tag_tracebuffer
  attempt_lem start_us v ts_set a s f i =
      let (b, sent, size, payload, t1) =
        Talks-send p id 12 none (trip_tokens at_) q 4 id' ks s.client f.size l (omega arith) f.room
          i.talks in
      let s1 : Measurement = record s { client = updated s.client q b 8 } in
      let i1 : Waits v ts_set s1 = record {
        talks = t1;
        same_id = i.same_id;
        number = i.number;
        untraced = i.untraced;
        recorded = i.recorded;
      } in
      let (m, b', heard, run, t2, effect) =
        Talks-recv p id 12 none (trip_tokens at_) q 4 id' ks s1.client a.input a.rx_ts o t1
          f.arrival in
      let s2 : Measurement = record s1 { client = heard_client s1.client m b'; tracefd = none } in
      let number = kept_number s1.client.ram m heard a.rx_ts a.input f.arrival effect ∙ i.number in
      (
        s1,
        s2,
        word_at m at_.in_seqnr == word_at m at_.out_seqnr,
        rw (i.same_id, f.written, sent),
        rw (run, i.untraced),
        i1,
        record {
          talks = t2;
          same_id = i.same_id;
          number = number;
          untraced = refl;
          recorded = i.recorded;
        },
        λ h.
            let came = answered s1.client.ram m heard a.rx_ts v a.input f.arrival effect h in
            ground (arith, number, came),
      )

  -- With err_ctr attempts left, an attempt that brings the number ends the trip, or an earlier one.
  pub again-finds :
      (err_ctr i start_us v : ℕ) (ts_set : List (ℕ × ℕ)) (net : ℕ → Attempt) (s : Measurement)
      (fair : (j : ℕ) → IsFair id (net j))
      → Waits v ts_set s
      → (s' : Measurement) × (found : Option ℕ) × (again at_ start_us net err_ctr i s
          ≡ ret (s', found))
        × Waits v ts_set s'
        × ((k : ℕ)
            → i ≤ k
            → k < i + err_ctr
            → Answers v (fair k).arrival
            → (j : ℕ) × (j ≤ k) × (found ≡ some j))
  unfolding again
  again-finds zero i start_us v ts_set net s fair w =
      let (s1, s2, agree, sent, compared, w1, w2, brings) =
        attempt_lem start_us v ts_set (net i) s (fair i) w in
      (s1, none, rw sent, w1, λ k low high h. absurd (omega (arith, low, high)))
  again-finds (suc err_ctr) i start_us v ts_set net s fair w =
      let (s1, s2, agree, sent, compared, w1, w2, brings) =
        attempt_lem start_us v ts_set (net i) s (fair i) w in
      let (s', found, run, w', finds) =
        again-finds err_ctr (i + 1) start_us v ts_set net s2 fair w2 in
      elim (Bool-cases agree) [
        | inl e ↦
            (s2, some i, rw (sent, ◌>>=◌, compared, again, e), w2, λ k low high h. (i, low, refl))
        | inr e ↦ (
          s',
          found,
          rw (sent, ◌>>=◌, compared, again, e) run,
          w',
          λ k low high h. elim (Bool-cases (i == k)) [
            | inl here ↦
                let same : i ≡ k = ground (arith, here) in
                let agrees = brings (subst (λ j. Answers v (fair j).arrival) (sym same) h) in
                cc (agrees, e)
            | inr there ↦ finds k (ground (arith, there, low)) (omega (arith, high)) h
          ],
        )
      ]
