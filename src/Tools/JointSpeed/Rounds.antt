-- ===== src/Tools/JointSpeed/Rounds.antt =====
-- What one round of the loop in joint_speed.cpp does.
use lib_urx.Handler.Laws.{incoming}
use lib_urx.Base.{
  ◌||◌, ℕ, ◌+◌, ◌-◌, ◌≤◌, ◌≡◌, ◌==◌, refl, ap, Bool, true, false, not, List, [], ◌∷◌, length,
  length-drop, take, drop, none, ℤ, pos, ret, arith, Bool-cases, inl, inr, ◌∙◌, ltb, ◌%◌, ◌^◌, ◌||◌,
  leb,
}
use lib_urx.Bytes.{Bytes, be_value, le_value, le_bytes, le_bytes-AreBytes, AreBytes}
use lib_urx.Magic.Types.{double, vector6d, codes}
use lib_urx.Memory.{Ram, peek, poke}
use lib_urx.Token.{Token}
use lib_urx.Token.Store.{IsRam, poke-IsRam}
use lib_urx.Token.Laws.{swap_words}
use lib_urx.Recipe.Layout.{Layout}
use lib_urx.Con.{arrived}
use lib_urx.Handler
use lib_urx.Handler.{Client, send_emerg_msg}
use lib_urx.Handler.Session.{IsOutput, fresh, heard_client}
use lib_urx.Handler.Talking.{Talks-emergency, Talks, Talks-ram, Talks-send, Talks-recv}
use lib_urx.Robot.{read_doubles}
use lib_urx.Robot.Doubles.{read_doubles-be}
use lib_urx.Robot.Fields.{token}
use lib_urx.Double.{double_lt}
use lib_urx.Helper.{deg_to_rad}
use lib_urx.Tools.{Doubles}
use lib_urx.Tools.JointSpeed.{
  Places, Regulator, Round, move, is_off, elbow_target, finish, settle, round, error_of, new_speed,
  deg_to_rad, double_lt,
}

-- The fields of the output recipe, with the storage of `ts` and of `target_q`.
abbrev pub joint_tokens : ℕ → ℕ → Places → List Token
joint_tokens ts target_q at_ =
    token true "timestamp" double 0 8 0 ts
    ∷ token true "target_q" vector6d 1 48 8 target_q
    ∷ token true "actual_q" vector6d 6 48 56 at_.actual_q
    ∷ []

-- The angle of the elbow in a package.
abbrev pub reading : Bytes → ℕ
reading payload = be_value (take 8 (drop 8 (drop 8 (drop 56 payload))))

abbrev third : List ℕ → ℕ
third (a ∷ b ∷ c ∷ _) = c
third _ = 0

reading_lem :
    (m : Ram) (a : ℕ) (payload : Bytes)
    → length payload ≡ 104
    → peek m a 48 ≡ swap_words 6 8 (drop 56 payload)
    → le_value (peek m (a + 8 + 8) 8) ≡ reading payload
unfolding read_doubles
reading_lem m a payload len e =
    ap third
      (read_doubles-be 6 m a (drop 56 payload) (omega (arith, length-drop 56 payload, len)) e)

-- The double of 90 degrees in radians: 90 times PI by 180.
abbrev pub right_angle : Doubles → ℕ
right_angle d = d.over (d.times 0x4056_8000_0000_0000 0x4009_21fb_5444_2d18) 0x4066_8000_0000_0000

elbow_target_lem : (d : Doubles) → elbow_target d ≡ right_angle d
unfolding elbow_target deg_to_rad
elbow_target_lem d = refl

-- A double is not a number, or its magnitude is at most 0.00005.
abbrev pub is_small_or_nan : ℕ → Bool
is_small_or_nan err =
    ltb 0x7ff0_0000_0000_0000 (err % 2 ^ 63) || leb (err % 2 ^ 63) 0x3f0a_36e2_eb1c_432d

is_off_lem : (err : ℕ) → is_off err ≡ not (is_small_or_nan err)
unfolding is_off double_lt
is_off_lem err = ground arith

-- The elbow's error in a package.
abbrev pub error_in : Doubles → Bytes → ℕ
error_in d payload = d.minus (right_angle d) (reading payload)

-- The elbow is off in a package.
abbrev pub off_in : Doubles → Bytes → Bool
off_in d payload = not (is_small_or_nan (error_in d payload))

-- What the counter makes of a round: whether the loop goes on, and where it stands then.
abbrev pub after_round : ℕ → Bool → Bool × ℕ
after_round s true = (true, 25)
after_round s false = (not (s - 1 == 0), s - 1)

-- `send` takes whole packages with n bytes of fields.
pub record Takes (n : ℕ) (net : Round) : Type 0 where
  pub size : ℕ
  pub size' : ℕ
  pub first : net.first ≡ pos size
  pub second : net.second ≡ pos size'
  pub room : 4 + n ≤ size
  pub room' : 4 + n ≤ size'

module _ (d : Doubles) (at_ : Places) (ts target_q p id q n : ℕ) (id' : ℤ) (ks : List Token)
    (o : IsOutput id 104 none (joint_tokens ts target_q at_)) (l : Layout false 0 ks n)
    (small : n ≤ 2044) where
  abbrev pub IsTalking : Regulator → Type 0
  IsTalking r =
      Talks p id 104 none (joint_tokens ts target_q at_) q n id' ks r.client × (r.id ≡ id')

  says :
      (h : Client) (m : Ram) (w : ℕ) (written : ℤ)
      → written ≡ pos w
      → 4 + n ≤ w
      → IsRam m
      → Talks p id 104 none (joint_tokens ts target_q at_) q n id' ks h
      → (h' : Client) × (Handler.send (record h { ram = m }) id' written ≡ ret (h', true))
        × Talks p id 104 none (joint_tokens ts target_q at_) q n id' ks h'
  says h m w written e room i t =
      let (b, run, size, payload, t') =
        Talks-send p id 104 none (joint_tokens ts target_q at_) q n id' ks (record h { ram = m }) w
          l small room
          (Talks-ram p id 104 none (joint_tokens ts target_q at_) q n id' ks h m i t) in
      (_, rw e run, t')

  word_IsRam : (m : Ram) (a w v : ℕ) → IsRam m → IsRam (poke m a (le_bytes w v))
  word_IsRam m a w v i = poke-IsRam m a (le_bytes w v) i (le_bytes-AreBytes w v)

  moves :
      (r : Regulator) (net : Round)
      → Takes n net
      → IsTalking r
      → (r' : Regulator) × (move at_ r net ≡ ret r') × (r'.stabilizer ≡ 25) × IsTalking r'
  unfolding move
  moves r net g (t, same) =
      let memory = t.sends_it.memory in
      let (h1, sent, t1) =
        says r.client _ g.size net.first g.first g.room
          (word_IsRam _ at_.cmd 4 2 (word_IsRam _ at_.in_tqd 8 r.speed memory)) t in
      let (h2, cleared, t2) =
        says h1 _ g.size' net.second g.second g.room' (word_IsRam _ at_.cmd 4 0 t1.sends_it.memory)
          t1 in
      (record r { client = h2; stabilizer = 25 }, rw (same, sent, cleared), refl, (t2, same))

  finishes :
      (r : Regulator) (net : Round)
      → Takes n net
      → IsTalking r
      → (r' : Regulator) × (finish at_ r net ≡ ret r')
        × (r'.stabilizer ≡ r.stabilizer)
        × IsTalking r'
  unfolding finish
  finishes r net g (t, same) =
      let msg = codes "Target Reached, stopping robot" in
      let (c, ok, told, t1) =
        Talks-emergency p id 104 none (joint_tokens ts target_q at_) q n id' ks r.client net.has_msg
          msg net.message (omega arith) (omega arith) t in
      let (h2, sent, t2) =
        says (record r.client { con = c }) _ g.size net.first g.first g.room
          (word_IsRam _ at_.in_tqd 8 0 (word_IsRam _ at_.cmd 4 3 t1.sends_it.memory)) t1 in
      (record r { client = h2 }, rw (told, same, sent), refl, (t2, same))

  settles :
      (r : Regulator) (net : Round)
      → Takes n net
      → IsTalking r
      → let left = r.stabilizer - 1 in
        (r' : Regulator) × (settle at_ r net ≡ ret (r', not (left == 0)))
        × (r'.stabilizer ≡ left)
        × IsTalking r'
  unfolding settle
  settles r net g t = elim (Bool-cases (r.stabilizer - 1 == 0)) [
    | inl e ↦
        let (r', run, left, t') = finishes (record r { stabilizer = r.stabilizer - 1 }) net g t in
        (r', rw (e, run), left, t')
    | inr e ↦ (record r { stabilizer = r.stabilizer - 1 }, rw e, refl, t)
  ]

  -- A round with a package.
  pub round-heard :
      (r : Regulator) (net : Round) (payload : Bytes)
      → net.input ≡ arrived (incoming 108 b'U' id payload)
      → length payload ≡ 104
      → AreBytes payload
      → Takes n net
      → IsTalking r
      → let out = after_round r.stabilizer (off_in d payload) in
        (r' : Regulator) × (round d at_ r net ≡ ret (r', out.0))
        × (r'.stabilizer ≡ out.1)
        × IsTalking r'
  unfolding round
  round-heard r net payload input len bytes g (t, same) =
      let (m, b, heard, run, t1, (yes_, fields, _, _)) =
        Talks-recv p id 104 none (joint_tokens ts target_q at_) q n id' ks r.client
          (arrived (incoming 108 b'U' id payload)) net.ts o t (fresh payload len bytes) in
      let got = ap (λ x. Handler.recv r.client x net.ts) input ∙ run in
      let found : error_of d at_ m ≡ error_in d payload =
        ap (λ a. d.minus a (le_value (peek m (at_.actual_q + 8 + 8) 8))) (elbow_target_lem d)
        ∙ ap (d.minus (right_angle d)) (reading_lem m at_.actual_q payload len fields.1.1.0) in
      let err = error_in d payload in
      let tested = is_off_lem err in
      let r2 : Regulator = record r {
        client = heard_client r.client m b;
        speed = new_speed d err r.prev_err r.speed;
        prev_err = err;
      } in
      elim (Bool-cases (off_in d payload)) [
        | inl e ↦
            let (r', moved, stands, t') = moves r2 net g (t1, same) in
            (r', rw (got, found, tested, e, moved), rw (e, stands), t')
        | inr e ↦
            let (r', settled, stands, t') = settles r2 net g (t1, same) in
            (r', rw (got, found, tested, e, settled), rw (e, stands), t')
      ]
