-- ===== src/Tools/Roundtrip.antt =====
-- tools/measure_roundtrip.cpp: it measures how long a number takes to the controller and back.
pub mod Main
pub mod Attempts
pub mod Trips
use lib_urx.Base.{
  ℕ, zero, suc, ◌+◌, ◌-◌, ◌/◌, ◌^◌, ◌==◌, ltb, Bool, true, false, if◌then◌else◌, List, [], ◌∷◌,
  ◌++◌, length, ℤ, pos, negsuc, Option, none, some, Run, fault, ret, ◌>>=◌,
}
use lib_urx.Bytes.{le_value, le_bytes}
use lib_urx.Memory.{Ram, peek, poke}
use lib_urx.Con.{Incoming}
use lib_urx.Handler
use lib_urx.Handler.{Client}

-- The addresses of `in_seqnr`, `out_seqnr` and `ts`.
pub record Places : Type 0 where
  pub in_seqnr : ℕ
  pub out_seqnr : ℕ
  pub ts : ℕ

-- A line of the trace: the number that was expected, the one that came, and the time between.
pub record Mark : Type 0 where
  pub expseqnr : ℕ
  pub actseqnr : ℕ
  pub diff_us : ℕ

-- `tracefd` is what was written to an open trace. Times are microseconds.
pub record Measurement : Type 0 where
  pub client : Client
  pub id : ℤ
  pub tracefd : Option (List Mark)
  pub ts_set : List (ℕ × ℕ)
  pub horiz_found : Bool
  pub horiz : List ℕ
  pub sleeps : ℕ

unfoldable pub tag_tracebuffer : Option (List Mark) → Mark → Option (List Mark)
tag_tracebuffer none mark = none
tag_tracebuffer (some marks) mark = some (marks ++ (mark ∷ []))

-- `stop_trace`: the program exits where the file that stops the tracing cannot be opened.
unfoldable pub stop_trace : Bool → Option (List Mark) → Option (Option (List Mark))
stop_trace can_open none = some none
stop_trace true (some marks) = some none
stop_trace false (some marks) = none

-- What one attempt meets: the result of `send`, what `recv` finds, and when, and the clock, which is
-- taken not to run backwards within a trip.
pub record Attempt : Type 0 where
  pub written : ℤ
  pub input : Incoming
  pub rx_ts : ℕ
  pub end_us : ℕ

abbrev pub word_at : Ram → ℕ → ℕ
word_at m a = le_value (peek m a 4)

unfoldable pub send_seqnr : Measurement → ℤ → Run Measurement
send_seqnr s written =
    Handler.send s.client s.id written >>= λ res. ret (record s { client = res.0 })

-- From `h.recv()` to the comparison of the numbers: whether they agree.
unfoldable pub compare_seqnr : Places → ℕ → Measurement → Attempt → Run (Measurement × Bool)
compare_seqnr at_ start_us s a = Handler.recv s.client a.input a.rx_ts >>= λ got.
    let m = got.0.ram in
    let mark : Mark = record {
      expseqnr = word_at m at_.in_seqnr;
      actseqnr = word_at m at_.out_seqnr;
      diff_us = a.end_us - start_us;
    } in
    ret (
      record s { client = got.0; tracefd = tag_tracebuffer s.tracefd mark },
      word_at m at_.in_seqnr == word_at m at_.out_seqnr,
    )

-- The part behind the label `again`, with `err_ctr` attempts left; number i is the next one. The
-- result is the number of the attempt that brought the right number, or none where the counter fell
-- below 0.
unfoldable pub again :
    Places → ℕ → (ℕ → Attempt) → ℕ → ℕ → Measurement → Run (Measurement × Option ℕ)
again at_ start_us net zero i s = send_seqnr s (net i).written >>= λ sent. ret (sent, none)
again at_ start_us net (suc err_ctr) i s = send_seqnr s (net i).written >>= λ sent.
    elim (compare_seqnr at_ start_us sent (net i)) [
      | fault ↦ fault
      | ret (s', true) ↦ ret (s', some i)
      | ret (s', false) ↦ again at_ start_us net err_ctr (i + 1) s'
    ]

unfoldable pub sum : List ℕ → ℕ
sum [] = 0
sum (x ∷ xs) = x + sum xs

-- `horiz`: at 1001 values the mean decides on a sleep, once.
unfoldable pub look_ahead : ℕ → Measurement → Measurement
unfolding sum
look_ahead diff s =
    let horiz = s.horiz ++ (diff ∷ []) in
    let more = record s { horiz = horiz } in
    let avg = sum horiz / length horiz in
    let found = record more {
      horiz_found = true;
      sleeps = if ltb 5000 avg then s.sleeps + 1 else s.sleeps;
    } in
    if s.horiz_found then s else if ltb 1000 (length horiz) then found else more

-- `in_seqnr++`; behind the largest int it is undefined.
unfoldable pub next_seqnr : Places → Measurement → Run Measurement
next_seqnr at_ s =
    let v = word_at s.client.ram at_.in_seqnr in
    let more = record s {
      client = record s.client { ram = poke s.client.ram at_.in_seqnr (le_bytes 4 (v + 1)) };
    } in
    if v == 2 ^ 31 - 1 then fault else ret more

-- What one trip meets. `can_open` says whether the file that stops the tracing can be opened.
pub record Trip : Type 0 where
  pub start_us : ℕ
  pub attempts : ℕ → Attempt
  pub can_open : Bool

-- How the measurement goes on: with the next trip, without another one, or not at all.
pub data Verdict : Type 0 where
  next given_up exited : Verdict

-- `diff > trace_timeout`, where the numbers fit a long.
abbrev is_late : ℕ → ℤ → Bool
is_late diff (pos n) = ltb n diff
is_late diff (negsuc n) = true

-- Behind an attempt that brought the right number.
unfoldable pub record_trip : Places → ℤ → Trip → ℕ → Measurement → Measurement × Verdict
record_trip at_ trace_timeout net i s =
    let end_us = (net.attempts i).end_us in
    let diff = end_us - net.start_us in
    let kept = record s {
      ts_set = s.ts_set ++ ((end_us, le_value (peek s.client.ram at_.ts 8)) ∷ []);
    } in
    if is_late diff trace_timeout
    then elim (stop_trace net.can_open s.tracefd) [
      | none ↦ (kept, exited)
      | some fd ↦ (look_ahead diff (record kept { tracefd = fd }), next)
    ]
    else (look_ahead diff kept, next)

-- One trip; `err_ctr` is 100 again at its start.
unfoldable pub trip : Places → ℤ → Measurement → Trip → Run (Measurement × Verdict)
trip at_ trace_timeout s net = do
  asked ← next_seqnr at_ s
  out ← again at_ net.start_us net.attempts 100 0 asked
  elim out.1 [
    | none ↦ ret (out.0, given_up)
    | some i ↦ ret (record_trip at_ trace_timeout net i out.0)
  ]

-- `loopctr` trips, as the list of what they meet.
unfoldable pub trips : Places → ℤ → Measurement → List Trip → Run (Measurement × Verdict)
trips at_ trace_timeout s [] = ret (s, next)
trips at_ trace_timeout s (net ∷ nets) = elim (trip at_ trace_timeout s net) [
  | fault ↦ fault
  | ret (s', next) ↦ trips at_ trace_timeout s' nets
  | ret (s', given_up) ↦ ret (s', given_up)
  | ret (s', exited) ↦ ret (s', exited)
]

-- From the loop to the end of `main`: the number 200000 makes the script close. `none` is an exit
-- because of the trace.
unfoldable pub measure :
    Places → ℤ → Measurement → List Trip → Bool → ℤ → Run (Option (List (ℕ × ℕ)))
measure at_ trace_timeout s nets can_open written = trips at_ trace_timeout s nets >>= λ res.
    let s' = res.0 in
    let closing = record s' {
      client = record s'.client { ram = poke s'.client.ram at_.in_seqnr (le_bytes 4 200000) };
    } in
    let closed = send_seqnr closing written >>= λ done. ret (some done.ts_set) in
    elim res.1 [
      | exited ↦ ret none
      | _ ↦ elim (stop_trace can_open s'.tracefd) [ none ↦ ret none | some fd ↦ closed ]
    ]
