-- ===== src/Robot/Setup/Session.antt =====
-- From the registration of the outputs to the first state.
use lib_urx.Base.{
  ℕ, ◌≡◌, ◌≤◌, ◌<◌, ◌+◌, ◌==◌, ◌&&◌, refl, ap, ◌∙◌, true, false, List, ◌∷◌, length, some, none, ℤ,
  ret, arith, ◌++◌,
}
use lib_urx.Bytes.{Bytes, AreBytes}
use lib_urx.Con.{arrived}
use lib_urx.Magic.Types.{DataType}
use lib_urx.Header.Responses.Items.{all_usable}
use lib_urx.Header.Responses.Laws.{types_text}
use lib_urx.Recipe.{Recipe}
use lib_urx.Recipe.Response.{agrees}
use lib_urx.Handler.{put_recipe}
use lib_urx.Handler.Laws.{whole, incoming}
use lib_urx.Handler.Register.{setup_frame, itself}
use lib_urx.Handler.Register.Output.{register_recipe-accepts}
use lib_urx.Robot.{Robot}
use lib_urx.Robot.Fields.{InOrder, unused, pose_tokens, add_fields_pose}
use lib_urx.Robot.Setup.{init_output_tcp_pose, state_fields, pose_fields}
use lib_urx.Handler.Register.Request.{asked}
use lib_urx.Robot.Setup.Outputs.{init_outputs_part, pose_names, pose_listed}
use lib_urx.Robot.Receive.{recv, state}
use lib_urx.Robot.Receive.Publish.{IsReady, carried}
use lib_urx.Robot.Receive.Latest.{recv-state-latest}

-- A robot over a connected client and an empty output recipe, a connection that takes the request,
-- and a controller that lists the types of the fields of `init_output_TCP_pose`, none of them in use:
-- `init_output_TCP_pose` returns true, and when a data package of the recipe arrives next, `recv`
-- returns true and `state` returns the package's values, except the local time.
pub init_output_tcp_pose-recv :
    (rb : Robot) (p n id : ℕ) (r : Recipe) (c : Bytes) (t : DataType) (ts : List DataType)
    (written : ℤ) (payload : Bytes) (when now : ℕ)
    → InOrder rb.members
    → rb.output ≡ some p
    → rb.out_initialized ≡ false
    → rb.client.con.connected ≡ true
    → rb.client.recipes p ≡ unused true r
    → r.cpo ≡ some c
    → length c ≡ 2048
    → r.ts_ns ≡ none
    → length rb.client.buffer ≡ 2048
    → AreBytes rb.client.buffer
    → 274 ≤ n
    → 4 + length (types_text t ts) ≤ 2000
    → (all_usable (t ∷ ts) && agrees (pose_tokens rb.members) (t ∷ ts)) ≡ true
    → (id == 0) ≡ false
    → id < 256
    → length payload ≡ 304
    → AreBytes payload
    → (rb1 : Robot) × (rb2 : Robot) × (rb3 : Robot) × (init_output_tcp_pose rb
          (whole n (setup_frame id (types_text t ts)))
          written
        ≡ ret (rb1, true))
      × (recv rb1 (arrived (incoming 308 b'U' id payload)) when now ≡ ret (rb2, true))
      × (state rb2 ≡ ret (rb3, record (carried now payload) { local_ts_us = none }))
unfolding init_output_tcp_pose
init_output_tcp_pose-recv rb p n id r c t ts written payload when now order o i k e block room
      untracked len bytes taken small ok is_id byte whole_ are_bytes =
    let m = rb.members in
    let r1 = record r { fields = pose_tokens m; bytes = 304; dir_out = true } in
    let (b, msg, size, length_b) =
      asked r1 pose_names c refl block room (pose_listed r m) (omega arith) in
    let h1 = put_recipe rb.client p r1 in
    let there : h1.recipes p ≡ r1 = rw (itself p) in
    let (h', run, recipe, out, room', kept, con, ram) =
      register_recipe-accepts h1 p (record r1 { cpo = some b }) b 274 n id t ts written
        (rw there msg) refl size (omega (arith, length_b)) k taken len bytes small ok byte in
    let rb1 : Robot = record rb { client = h'; out_initialized = true } in
    let done =
      init_outputs_part rb p (state_fields m ++ pose_fields m)
        (whole n (setup_frame id (types_text t ts))) written r1 h' true o i k (rw e)
        (rw e (add_fields_pose r m)) run in
    let ready : IsReady rb1 p id (pose_tokens m) 304 = record {
      initialized = refl;
      registered = out;
      fields = ap (λ q. q.fields) recipe;
      bytes = ap (λ q. q.bytes) recipe;
      dir_out = ap (λ q. q.dir_out) recipe;
      recipe_id = ap (λ q. q.recipe_id) recipe;
      is_id = is_id;
      is_byte = byte;
      untracked = ap (λ q. q.ts_ns) recipe ∙ untracked;
      room = room';
      are_bytes = kept;
    } in
    let (rb2, rb3, got, shown, short, logged, stale) =
      recv-state-latest rb1 p id payload when now order ready whole_ are_bytes in
    (rb1, rb2, rb3, done, got, shown)
