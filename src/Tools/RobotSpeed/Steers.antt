-- ===== src/Tools/RobotSpeed/Steers.antt =====
-- What one round of the loop in robot_speed.cpp makes of a package.
use lib_urx.Robot.Command.Payload.{be_array, update_w-sends}
use lib_urx.Header.Package.{hdr_size}
use lib_urx.Robot.Command.Sends.{IsLinked}
use lib_urx.Robot.Fields.{InOrder, control_tokens}
use lib_urx.Handler.Laws.{incoming}
use lib_urx.Con.{arrived}
use lib_urx.Bytes.{Bytes, AreBytes}
use lib_urx.Robot.Receive.{state, receive_all}
use lib_urx.Helper.{close_vec}
use lib_urx.Robot.Command.{next_seqnr}
use mathlib.Core.Path.{subst}
use lib_urx.Base.{
  ◌%◌, ◌^◌, ◌+◌, ◌++◌, not, sym, take, [], ◌∷◌, pos, ℕ, zero, suc, ◌≡◌, refl, ap, sym, ◌∙◌, Bool,
  if◌then◌else◌, List, [], ◌∷◌, ◌++◌, length, drop, ℤ, ret, arith, Bool-cases, inl, inr, true, ◌≤◌,
}
use lib_urx.Bytes.{Bytes}
use lib_urx.Helper.{close_vec}
use lib_urx.Robot.{Robot, RobotState}
use lib_urx.Robot.Doubles.{be_bytes}
use lib_urx.Tools.{Doubles}
use lib_urx.Tools.RobotSpeed.{Steering, steer, still, epsilon, round, Round, update_w}
use lib_urx.Tools.RobotSpeed.Told.{angles, IsSetUp, told_lem}

-- The speeds of a round, and whether the position is reached.
abbrev pub is_reached : Doubles → List ℕ → Bytes → Bool
is_reached d aq payload = close_vec d.minus (angles payload) aq epsilon

abbrev pub next_w : Doubles → List ℕ → Steering → Bytes → List ℕ
next_w d aq s payload =
    if is_reached d aq payload then still else (steer d aq (angles payload) s.w s.prev_err).0

length-steer :
    (d : Doubles) (n : ℕ) (aq jq ws prev_err : List ℕ)
    → length aq ≡ n
    → length jq ≡ n
    → length ws ≡ n
    → length prev_err ≡ n
    → length (steer d aq jq ws prev_err).0 ≡ n
unfolding steer
length-steer d zero [] jq ws prev_err a b c e = refl
length-steer d zero (x ∷ aq) jq ws prev_err a b c e = absurd (omega arith)
length-steer d (suc n) (a ∷ aq) (q ∷ jq) (w ∷ ws) (x ∷ prev_err) la lb lc le =
    ap suc
      (length-steer d n aq jq ws prev_err (omega arith) (omega arith) (omega arith) (omega arith))
length-steer d (suc n) [] jq ws prev_err a b c e = absurd (omega arith)
length-steer d (suc n) (a ∷ aq) [] ws prev_err la b c e = absurd (omega arith)
length-steer d (suc n) (a ∷ aq) (q ∷ jq) [] prev_err la b c e = absurd (omega arith)
length-steer d (suc n) (a ∷ aq) (q ∷ jq) (w ∷ ws) [] la b c e = absurd (omega arith)

next_round :
    (d : Doubles) (aq : List ℕ) (s : Steering) (net : Round) (payload : Bytes) (rb1 rb2 rb3 : Robot)
    (told : RobotState)
    → receive_all s.robot net.before_state ≡ ret rb1
    → state rb1 ≡ ret (rb2, told)
    → told.jq ≡ angles payload
    → net.before_update ≡ []
    → update_w rb2 (next_w d aq s payload) net.written ≡ ret (rb3, true)
    → let w = next_w d aq s payload in
      round d aq s net
      ≡ ret (
        record { robot = rb3; w = w; prev_err = (steer d aq (angles payload) s.w s.prev_err).1 },
        not (is_reached d aq payload),
      )
unfolding round receive_all
next_round d aq s net payload rb1 rb2 rb3 told got shown jq none_left sent =
    rw (got, shown, jq, none_left) (rw sent)

length-next_w :
    (d : Doubles) (aq : List ℕ) (s : Steering) (payload : Bytes)
    → length aq ≡ 6
    → length s.w ≡ 6
    → length s.prev_err ≡ 6
    → length (next_w d aq s payload) ≡ 6
length-next_w d aq s payload a b c = elim (Bool-cases (is_reached d aq payload)) [
  | inl e ↦ rw e
  | inr e ↦ rw e (length-steer d 6 aq (angles payload) s.w s.prev_err a refl b c)
]

-- One round of a robot that is set up and moves, with vectors of six doubles, in which one package
-- of the output recipe comes in and `send` takes the package: if all joints are near the target
-- (`close_vec` within 0.0001) the loop ends and the speeds are zero, otherwise it goes on with the
-- speeds of the regulator. These speeds go out under the next sequence number with the command 2, in
-- network order and nothing else, and the errors of this round are kept for the next one.
pub round-steers :
    (d : Doubles) (aq : List ℕ) (s : Steering) (p id q n : ℕ) (id' : ℤ) (payload : Bytes)
    (ts now : ℕ)
    → IsSetUp s.robot p id q id'
    → length payload ≡ 204
    → AreBytes payload
    → length aq ≡ 6
    → length s.w ≡ 6
    → length s.prev_err ≡ 6
    → 60 ≤ n
    → let net : Round = record {
      before_state = (arrived (incoming 208 b'U' id payload), ts, now) ∷ [];
      before_update = [];
      written = pos n;
    } in
      let steered = steer d aq (angles payload) s.w s.prev_err in
      let w = if close_vec d.minus (angles payload) aq epsilon then still else steered.0 in
      (s' : Steering) × (b : Bytes) × (round d aq s net
        ≡ ret (s', not (close_vec d.minus (angles payload) aq epsilon)))
      × (s'.w ≡ w)
      × (s'.prev_err ≡ steered.1)
      × (s'.robot.client.con.outgoing ≡ take 60 b ∷ s.robot.client.con.outgoing)
      × (hdr_size b ≡ ret 60)
      × (take 56 (drop 4 b) ≡ be_bytes 4 (next_seqnr s.robot) ++ (be_bytes 4 2 ++ be_array w []))
unfolding receive_all
round-steers d aq s p id q n id' payload ts now i len bytes la lw le fits =
    let (rb1, rb2, told, dp, got, shown, jq, linked, memory, members, seqnr, con) =
      told_lem s.robot p id q id' payload ts now i len bytes in
    let w = next_w d aq s payload in
    let order : InOrder rb2.members = subst InOrder (sym members) i.in_order in
    let linked' : IsLinked rb2 q (control_tokens rb2.members) 56 dp =
      subst (λ m. IsLinked rb2 q (control_tokens m) 56 dp) (sym members) linked in
    let (rb3, b, sent, out, size, valid, fields, last, cmd) =
      update_w-sends rb2 w q n dp order linked' memory (length-next_w d aq s payload la lw le)
        fits in
    let net : Round = record {
      before_state = (arrived (incoming 208 b'U' id payload), ts, now) ∷ [];
      before_update = [];
      written = pos n;
    } in
    let heard : receive_all s.robot net.before_state ≡ ret rb1 = rw (got, receive_all) in
    let number : next_seqnr rb2 ≡ next_seqnr s.robot = ap (λ k. (k + 1) % 2 ^ 32) seqnr in
    (
      record { robot = rb3; w = w; prev_err = (steer d aq (angles payload) s.w s.prev_err).1 },
      b,
      next_round d aq s net payload rb1 rb2 rb3 told heard shown jq refl sent,
      refl,
      refl,
      out ∙ ap (λ c. take 60 b ∷ c.outgoing) con,
      size,
      fields ∙ ap (λ k. be_bytes 4 k ++ (be_bytes 4 2 ++ be_array w [])) number,
    )
