-- ===== src/Robot/Setup/Outputs.antt =====
-- The registration of the robot's output recipe.
use Prim.Native.String.{String}
use lib_urx.Base.{
  ℕ, ◌≡◌, ◌≤◌, ◌<◌, ◌+◌, ◌==◌, refl, ap, Bool, true, false, ◌&&◌, if◌then◌else◌, List, [], ◌∷◌,
  ◌++◌, length, some, ℤ, ret, arith,
}
use lib_urx.Bytes.{Bytes, AreBytes}
use lib_urx.Magic.Types.{DataType, codes}
use lib_urx.Header.Responses.Items.{all_usable}
use lib_urx.Header.Responses.Laws.{types_text}
use lib_urx.Token.{Token}
use lib_urx.Recipe.{Recipe, get_fields, clear_fields}
use lib_urx.Recipe.Response.{agrees, accepted}
use lib_urx.Handler.{Client, Exchange, put_recipe, register_recipe}
use lib_urx.Handler.Laws.{whole}
use lib_urx.Handler.Register.{setup_frame, register_recipe-output}
use lib_urx.Robot.{Robot, Members}
use lib_urx.Robot.Setup.{
  add_fields, init_outputs, init_output, init_output_tcp_pose, state_fields, pose_fields,
}
use lib_urx.Robot.Fields.{unused, state_tokens, pose_tokens, add_fields_state, add_fields_pose}
use lib_urx.Handler.Register.Request.{asked}

-- The robot behind the registration.
abbrev after_setup : Robot → ℕ → Client → Bool → Robot
after_setup rb p h ok =
    if ok
    then record rb { client = h; out_initialized = true }
    else record rb { client = put_recipe h p (clear_fields (h.recipes p)) }

after_setup_lem :
    (rb : Robot) (p id : ℕ) (r : Recipe) (h : Client) (ok : Bool)
    → rb.out_initialized ≡ false
    → h.recipes p ≡ (if ok then accepted r id else r)
    → h.out ≡ (if ok then some p else rb.client.out)
    → ((after_setup rb p h ok).out_initialized ≡ ok)
      × (((after_setup rb p h ok).client.recipes p).fields ≡ (if ok then r.fields else []))
      × (((after_setup rb p h ok).client.recipes p).bytes ≡ r.bytes)
      × ((after_setup rb p h ok).client.out ≡ (if ok then some p else rb.client.out))
unfolding clear_fields
after_setup_lem rb p id r h true i e out = (refl, ap (λ s. s.fields) e, ap (λ s. s.bytes) e, out)
after_setup_lem rb p id r h false i e out =
    let itself : (p == p) ≡ true = ground arith in (i, rw itself, rw (itself, e), out)

pub init_outputs_part :
    (rb : Robot) (p : ℕ) (fs : List (String × ℕ)) (net : Exchange) (written : ℤ) (r1 : Recipe)
    (h : Client) (ok : Bool)
    → rb.output ≡ some p
    → rb.out_initialized ≡ false
    → rb.client.con.connected ≡ true
    → (rb.client.recipes p).fields ≡ []
    → add_fields (rb.client.recipes p) fs ≡ (r1, true)
    → register_recipe (put_recipe rb.client p r1) (some p) net written ≡ ret (h, ok)
    → init_outputs rb fs net written ≡ ret (after_setup rb p h ok, ok)
unfolding init_outputs
init_outputs_part rb p fs net written r1 h true o i c f a e = simp (o, i, c, f, a, e, init_outputs)
init_outputs_part rb p fs net written r1 h false o i c f a e = simp (o, i, c, f, a, e, init_outputs)

-- The registration, for fields that `add_fields` adds to an empty recipe.
module _ (rb : Robot) (p e n id : ℕ) (r : Recipe) (fs : List (String × ℕ)) (ks : List Token)
    (names c : Bytes) (t : DataType) (ts : List DataType) (written : ℤ)
    (output : rb.output ≡ some p) (first : rb.out_initialized ≡ false)
    (connected : rb.client.con.connected ≡ true) (empty : rb.client.recipes p ≡ unused true r)
    (block : r.cpo ≡ some c) (room : length c ≡ 2048) (buffer : length rb.client.buffer ≡ 2048)
    (are_bytes : AreBytes rb.client.buffer)
    (added : add_fields (unused true r) fs
      ≡ (record r { fields = ks; bytes = e; dir_out = true }, true))
    (listed : get_fields (record r { fields = ks; bytes = e; dir_out = true }) ≡ ret names)
    (short : length names < 2037) (taken : 11 + length names ≤ n)
    (small : 4 + length (types_text t ts) ≤ 2000) where
  init_outputs-registers :
      let ok = all_usable (t ∷ ts) && agrees ks (t ∷ ts) in
      (rb' : Robot) × (init_outputs rb fs (whole n (setup_frame id (types_text t ts))) written
        ≡ ret (rb', ok))
      × (rb'.out_initialized ≡ ok)
      × ((rb'.client.recipes p).fields ≡ (if ok then ks else []))
      × ((rb'.client.recipes p).bytes ≡ e)
      × (rb'.client.out ≡ (if ok then some p else rb.client.out))
  init_outputs-registers =
      let r1 = record r { fields = ks; bytes = e; dir_out = true } in
      let (b, msg, size, len) = asked r1 names c refl block room listed short in
      let h1 = put_recipe rb.client p r1 in
      let itself : (p == p) ≡ true = ground arith in
      let there : h1.recipes p ≡ r1 = rw itself in
      let (h', run, recipe, out, sent) =
        register_recipe-output h1 p (record r1 { cpo = some b }) b (11 + length names) n id t ts
          written (rw there msg) refl size (omega (arith, len, short)) connected taken buffer
          are_bytes small in
      let ok = all_usable (t ∷ ts) && agrees ks (t ∷ ts) in
      let done =
        init_outputs_part rb p fs (whole n (setup_frame id (types_text t ts))) written r1 h' ok
          output first connected (rw empty) (rw empty added) run in
      let (initialized, fields, bytes, kept) =
        after_setup_lem rb p id (record r1 { cpo = some b }) h' ok first recipe out in
      (after_setup rb p h' ok, done, initialized, fields, bytes, kept)

abbrev state_names : Bytes
state_names = codes "output_int_register_0,timestamp,target_q,target_qd,target_qdd,target_moment"

state_listed :
    (r : Recipe) (m : Members)
    → get_fields (record r { fields = state_tokens m; bytes = 204; dir_out = true })
      ≡ ret state_names
unfolding get_fields
state_listed r m = refl

-- `init_output` of a robot over a connected client and an empty output recipe, where the connection
-- takes the request and the controller lists types: it returns true and marks the outputs as
-- initialized exactly if no listed type is NOT_FOUND or IN_USE and they are INT32, DOUBLE and four
-- times VECTOR6D. The recipe then has the six fields of the robot's state and is the one that the
-- client receives; otherwise it has no fields, the client keeps its output recipe, and the recipe
-- counts the 204 bytes of the fields all the same.
pub init_output-registers :
    (rb : Robot) (p n id : ℕ) (r : Recipe) (c : Bytes) (t : DataType) (ts : List DataType)
    (written : ℤ)
    → rb.output ≡ some p
    → rb.out_initialized ≡ false
    → rb.client.con.connected ≡ true
    → rb.client.recipes p ≡ unused true r
    → r.cpo ≡ some c
    → length c ≡ 2048
    → length rb.client.buffer ≡ 2048
    → AreBytes rb.client.buffer
    → 86 ≤ n
    → 4 + length (types_text t ts) ≤ 2000
    → let ok = all_usable (t ∷ ts) && agrees (state_tokens rb.members) (t ∷ ts) in
      (rb' : Robot) × (init_output rb (whole n (setup_frame id (types_text t ts))) written
        ≡ ret (rb', ok))
      × (rb'.out_initialized ≡ ok)
      × ((rb'.client.recipes p).fields ≡ (if ok then state_tokens rb.members else []))
      × ((rb'.client.recipes p).bytes ≡ 204)
      × (rb'.client.out ≡ (if ok then some p else rb.client.out))
unfolding init_output
init_output-registers rb p n id r c t ts written o i k e b room len bytes taken small =
    let m = rb.members in
    init_outputs-registers rb p 204 n id r (state_fields m) (state_tokens m) state_names c t ts
      written o i k e b room len bytes (add_fields_state r m) (state_listed r m) (omega arith)
      (omega (arith, taken)) small

abbrev pub pose_names : Bytes
pose_names =
    codes
      "output_int_register_0,timestamp,target_q,target_qd,target_qdd,target_moment,target_TCP_pose,output_int_register_1,output_double_register_0,output_double_register_1,output_double_register_2,output_double_register_3,output_double_register_4,output_double_register_5"

pub pose_listed :
    (r : Recipe) (m : Members)
    → get_fields (record r { fields = pose_tokens m; bytes = 304; dir_out = true }) ≡ ret pose_names
unfolding get_fields
pose_listed r m = refl

-- The same for `init_output_TCP_pose`, whose recipe has eight more fields: a VECTOR6D, an INT32 and
-- six times DOUBLE, and 304 bytes.
pub init_output_tcp_pose-registers :
    (rb : Robot) (p n id : ℕ) (r : Recipe) (c : Bytes) (t : DataType) (ts : List DataType)
    (written : ℤ)
    → rb.output ≡ some p
    → rb.out_initialized ≡ false
    → rb.client.con.connected ≡ true
    → rb.client.recipes p ≡ unused true r
    → r.cpo ≡ some c
    → length c ≡ 2048
    → length rb.client.buffer ≡ 2048
    → AreBytes rb.client.buffer
    → 274 ≤ n
    → 4 + length (types_text t ts) ≤ 2000
    → let ok = all_usable (t ∷ ts) && agrees (pose_tokens rb.members) (t ∷ ts) in
      (rb' : Robot) × (init_output_tcp_pose rb (whole n (setup_frame id (types_text t ts))) written
        ≡ ret (rb', ok))
      × (rb'.out_initialized ≡ ok)
      × ((rb'.client.recipes p).fields ≡ (if ok then pose_tokens rb.members else []))
      × ((rb'.client.recipes p).bytes ≡ 304)
      × (rb'.client.out ≡ (if ok then some p else rb.client.out))
unfolding init_output_tcp_pose
init_output_tcp_pose-registers rb p n id r c t ts written o i k e b room len bytes taken small =
    let m = rb.members in
    init_outputs-registers rb p 304 n id r (state_fields m ++ pose_fields m) (pose_tokens m)
      pose_names c t ts written o i k e b room len bytes (add_fields_pose r m) (pose_listed r m)
      (omega arith) (omega (arith, taken)) small
