-- ===== src/Tools/RobotSpeed/Told.antt =====
-- What the robot of robot_speed.cpp has received when a round of the loop asks for its state.
use lib_urx.Handler.Talking.{Talks-recv, Talks}
use lib_urx.Handler.Session.{IsOutput, fresh, heard_client}
use lib_urx.Robot.Command.Sends.{IsLinked}
use lib_urx.Robot.Fields.{InOrder, control_tokens, state_tokens}
use lib_urx.Handler.Laws.{incoming}
use lib_urx.Con.{arrived}
use lib_urx.Token.Store.{IsRam}
use lib_urx.Bytes.{Bytes, AreBytes, le_value}
use lib_urx.Memory.{Ram, peek}
use lib_urx.Robot.Receive.{recv, state, publish, loc_state}
use lib_urx.Robot.Receive.Publish.{published}
use lib_urx.Base.{
  ◌++◌, sym, [], ◌∷◌, ℕ, ◌≡◌, refl, ap, sym, ◌∙◌, List, [], ◌∷◌, ◌++◌, length, drop, Option, some,
  ℤ, ret, arith, ltb, eq_ℤ, eq_ℤ_iff, Bool-cases, inl, inr, true, none, false, length-drop,
  if◌then◌else◌,
}
use lib_urx.Bytes.{Bytes}
use lib_urx.Memory.{Ram}
use lib_urx.Recipe.{Recipe}
use lib_urx.Handler.{find_recipe}
use lib_urx.Robot.{Robot, Members, new_state, copy_state, assign_state, read_doubles, RobotState}
use lib_urx.Robot.Doubles.{be_doubles, read_doubles-be}
use lib_urx.Robot.Receive.{snapshot, rotate_log}

-- The angles of the joints in a package.
abbrev pub angles : Bytes → List ℕ
angles payload = be_doubles 6 (drop 12 payload)

-- The recipe that is found has the id.
find_recipe-id :
    (recipes : ℕ → Recipe) (es : List (ℤ × ℕ)) (id : ℤ) (p : ℕ)
    → find_recipe recipes es id ≡ some p
    → (recipes p).recipe_id ≡ id
unfolding find_recipe
find_recipe-id recipes [] id p h = cc
find_recipe-id recipes (e ∷ es) id p h = elim (Bool-cases (eq_ℤ (recipes e.1).recipe_id id)) [
  | inl f ↦
      let same : some e.1 ≡ some p = rw f at h in
      let here : e.1 ≡ p = cc same in
      ap (λ q. (recipes q).recipe_id) (sym here) ∙ (eq_ℤ_iff (recipes e.1).recipe_id id).0 f
  | inr f ↦ find_recipe-id recipes es id p (rw f at h)
]

assign_snapshot :
    (mem : Members) (m : Ram) (now : ℕ)
    → assign_state new_state (copy_state (snapshot mem m now))
      ≡ ret (copy_state (snapshot mem m now))
unfolding assign_state copy_state snapshot read_doubles
assign_snapshot mem m now = refl

angles_shown :
    (mem : Members) (m : Ram) (now : ℕ) (payload : Bytes)
    → read_doubles 6 m mem.target_q ≡ angles payload
    → (copy_state (snapshot mem m now)).jq ≡ angles payload
unfolding copy_state snapshot
angles_shown mem m now payload e = e

rotated :
    (rb : Robot)
    → (log logged : List (Option ℕ × ℕ)) × (rotate_log rb
        ≡ record rb { ts_log = log; logged = logged })
unfolding rotate_log
rotated rb = elim (Bool-cases (ltb 500 (length rb.ts_log))) [
  | inl e ↦ ([], if rb.has_log then rb.logged ++ rb.ts_log else rb.logged, rw e)
  | inr e ↦ (rb.ts_log, rb.logged, rw e)
]

-- The robot has both recipes, those of `init_output` and of `init_input`, registered.
pub record IsSetUp (rb : Robot) (p id q : ℕ) (id' : ℤ) : Type 0 where
  pub out_initialized : rb.out_initialized ≡ true
  pub in_initialized : rb.in_initialized ≡ true
  pub input : rb.input ≡ some q
  pub in_order : InOrder rb.members
  pub is_output : IsOutput id 204 none (state_tokens rb.members)
  pub talks :
      Talks p id 204 none (state_tokens rb.members) q 56 id' (control_tokens rb.members) rb.client

-- A package is received and asked for.
pub told_lem :
    (rb : Robot) (p id q : ℕ) (id' : ℤ) (payload : Bytes) (ts now : ℕ)
    → IsSetUp rb p id q id'
    → length payload ≡ 204
    → AreBytes payload
    → (rb1 : Robot) × (rb2 : Robot) × (told : RobotState) × (dp : Bytes) × (recv rb
          (arrived (incoming 208 b'U' id payload))
          ts
          now
        ≡ ret (rb1, true))
      × (state rb1 ≡ ret (rb2, told))
      × (told.jq ≡ angles payload)
      × IsLinked rb2 q (control_tokens rb.members) 56 dp
      × IsRam rb2.client.ram
      × (rb2.members ≡ rb.members)
      × (rb2.last_seqnr ≡ rb.last_seqnr)
      × (rb2.client.con ≡ rb.client.con)
unfolding recv publish state loc_state
told_lem rb p id q id' payload ts now i len bytes =
    let mem = rb.members in
    let frame = incoming 208 b'U' id payload in
    let (m, b, heard, run, t, (yes_, fields, _, _)) =
      Talks-recv p id 204 none (state_tokens mem) q 56 id' (control_tokens mem) rb.client
        (arrived frame) ts i.is_output i.talks (fresh payload len bytes) in
    let values = snapshot mem m now in
    let rb1 =
      published rb (heard_client rb.client m b) values
        (le_value (peek m mem.q_ref_out_seqnr_buf 4)) in
    let (log, logged, same) = rotated (record rb1 { updated_state = false }) in
    let rb2 : Robot = record rb1 { updated_state = false; ts_log = log; logged = logged } in
    let (dp, block, room) = t.sends_it.block in
    let the_id =
      find_recipe-id rb.client.recipes rb.client.recipes_in id' q t.sends_it.registered in
    (
      rb1,
      rb2,
      copy_state values,
      dp,
      rw (run, yes_, i.out_initialized),
      rw (assign_snapshot mem m now, same),
      angles_shown mem m now payload (
          read_doubles-be 6 m mem.target_q (drop 12 payload)
            (omega (arith, length-drop 12 payload, len)) fields.1.1.0),
      record {
        initialized = i.in_initialized;
        input = i.input;
        registered =
            ap (find_recipe rb.client.recipes rb.client.recipes_in) the_id ∙ t.sends_it.registered;
        fields = t.sends_it.fields;
        bytes = t.sends_it.bytes;
        dir_in = t.sends_it.dir_in;
        block = block;
        room = room;
        connected = t.sends_it.connected;
      },
      t.sends_it.memory,
      refl,
      refl,
      refl,
    )
