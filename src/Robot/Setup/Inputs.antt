-- ===== src/Robot/Setup/Inputs.antt =====
-- The registration of the robot's input recipe.
use Prim.Native.String.{String}
use lib_urx.Base.{
  ℕ, ◌≡◌, ◌≤◌, ◌<◌, ◌+◌, ◌&&◌, refl, ap, ◌∙◌, true, false, List, [], ◌∷◌, ◌++◌, length, take, drop,
  some, pos, ℤ, ret, arith,
}
use lib_urx.Bytes.{Bytes, AreBytes, le_bytes}
use lib_urx.Memory.{peek}
use lib_urx.Magic.Types.{DataType, codes, control_package_setup_inputs}
use lib_urx.Header.Package.{hdr_size}
use lib_urx.Header.Control.Laws.{control_msg_in_frame}
use lib_urx.Header.Responses.Items.{all_usable}
use lib_urx.Header.Responses.Laws.{types_text}
use lib_urx.Token.Store.{IsRam}
use lib_urx.Recipe.{Recipe, get_msg, get_fields}
use lib_urx.Recipe.Response.{agrees}
use lib_urx.Recipe.Layout.Build.{add_all}
use lib_urx.Handler.{Client, Exchange, put_recipe, register_recipe}
use lib_urx.Handler.Laws.{whole}
use lib_urx.Handler.Register.{setup_frame_of, itself}
use lib_urx.Handler.Register.Input.{register_recipe-input}
use lib_urx.Robot.{Robot, Members}
use lib_urx.Robot.Doubles.{be_bytes, Holds}
use lib_urx.Robot.Setup.{init_inputs, init_input, control_fields}
use lib_urx.Handler.Register.Request.{size_of}
use lib_urx.Robot.Fields.{unused, control_tokens, add_all_control}
use lib_urx.Robot.Fields.Layouts.{control-IsLaidOut}
use lib_urx.Robot.Command.Sends.{IsLinked}
use lib_urx.Recipe.Layout.Packed.{Layout-packed}
use lib_urx.Robot.Command.Payload.{be_array, word_sent, array_sent}

asked :
    (r : Recipe) (names c : Bytes)
    → r.dir_out ≡ false
    → r.cpi ≡ some c
    → length c ≡ 2048
    → get_fields r ≡ ret names
    → length names < 2045
    → (b : Bytes) × (get_msg r ≡ ret (record r { cpi = some b }, some b))
      × (hdr_size b ≡ ret (3 + length names))
      × (length b ≡ 2048)
unfolding get_msg
asked r names c d e len f short =
    let (b, run, h) = control_msg_in_frame c names len short in
    (b, simp (f, d, e, run), size_of b _ (3 + length names) 2048 h (omega (arith, short)), h.size)

init_inputs_part :
    (rb : Robot) (p : ℕ) (fs : List (String × ℕ)) (net : Exchange) (written : ℤ) (h : Client)
    → rb.input ≡ some p
    → register_recipe
        (put_recipe rb.client p (add_all (rb.client.recipes p) fs))
        (some p)
        net
        written
      ≡ ret (h, true)
    → init_inputs rb fs net written ≡ ret (record rb { client = h; in_initialized = true }, true)
unfolding init_inputs
init_inputs_part rb p fs net written h i e = simp (i, e, init_inputs)

abbrev control_names : Bytes
control_names =
    codes
      "input_int_register_0,input_int_register_1,input_double_register_0,input_double_register_1,input_double_register_2,input_double_register_3,input_double_register_4,input_double_register_5"

control_listed :
    (r : Recipe) (m : Members)
    → get_fields (record r { fields = control_tokens m; bytes = 56; dir_out = false })
      ≡ ret control_names
unfolding get_fields
control_listed r m = refl

-- `init_input` of a robot over a connected client without input recipes and an empty input recipe,
-- where the connection takes the request and an update, and the controller lists the types INT32
-- twice and DOUBLE six times: it returns true, and the recipe is registered, ready for `update_w`. An
-- update has gone out already, and carries what the members have: the sequence number, the command
-- and the velocities, in network order.
pub init_input-registers :
    (rb : Robot) (p n id k seq cmd : ℕ) (w : List ℕ) (r : Recipe) (c dp : Bytes) (t : DataType)
    (ts : List DataType)
    → rb.input ≡ some p
    → rb.client.con.connected ≡ true
    → rb.client.recipes p ≡ unused false r
    → rb.client.recipes_in ≡ []
    → r.cpi ≡ some c
    → length c ≡ 2048
    → r.dp ≡ some dp
    → length dp ≡ 2048
    → length rb.client.buffer ≡ 2048
    → AreBytes rb.client.buffer
    → IsRam rb.client.ram
    → peek rb.client.ram rb.members.in_seqnr 4 ≡ le_bytes 4 seq
    → peek rb.client.ram rb.members.cmd 4 ≡ le_bytes 4 cmd
    → Holds rb.client.ram rb.members.set_qd 0 w
    → length w ≡ 6
    → 188 ≤ n
    → 60 ≤ k
    → 4 + length (types_text t ts) ≤ 2000
    → (all_usable (t ∷ ts) && agrees (control_tokens rb.members) (t ∷ ts)) ≡ true
    → (rb' : Robot) × (b : Bytes) × (u : Bytes) × (init_input rb
          (whole n (setup_frame_of control_package_setup_inputs id (types_text t ts)))
          (pos k)
        ≡ ret (rb', true))
      × IsLinked rb' p (control_tokens rb.members) 56 u
      × (rb'.client.con.outgoing ≡ take 60 u ∷ take 188 b ∷ rb.client.con.outgoing)
      × (hdr_size u ≡ ret 60)
      × (take 56 (drop 4 u) ≡ be_bytes 4 seq ++ (be_bytes 4 cmd ++ be_array w []))
unfolding init_input
init_input-registers rb p n id k seq cmd w r c dp t ts i con empty none_in block room package_ room2
      len bytes ram hs hc held six fits fits2 small ok =
    let m = rb.members in
    let r1 = record r { fields = control_tokens m; bytes = 56; dir_out = false } in
    let (b, msg, size, length_b) =
      asked r1 control_names c refl block room (control_listed r m) (omega arith) in
    let added : add_all (rb.client.recipes p) (control_fields m) ≡ r1 =
      ap (λ q. add_all q (control_fields m)) empty ∙ add_all_control r m in
    let h1 = put_recipe rb.client p r1 in
    let there : h1.recipes p ≡ r1 = rw (itself p) in
    let (h, u, run, recipe, found, conn, mem, length_u, size_u, fields) =
      register_recipe-input h1 p (record r1 { cpi = some b }) b dp 188 n id k t ts (rw there msg)
        refl size (omega (arith, length_b)) con fits len bytes small ok none_in
        (control-IsLaidOut r m) ram package_ room2 (omega arith) fits2 in
    let part =
      init_inputs_part rb p (control_fields m)
        (whole n (setup_frame_of control_package_setup_inputs id (types_text t ts))) (pos k) h i
        (rw added run) in
    let wire =
      Layout-packed false 0 (control_tokens m) 56 56 rb.client.ram (drop 4 u) (omega arith)
        (control-IsLaidOut r m) fields in
    (
      record rb { client = h; in_initialized = true },
      b,
      u,
      part,
      record {
        initialized = refl;
        input = i;
        registered = rw (ap (λ q. q.recipe_id) recipe) found;
        fields = ap (λ q. q.fields) recipe;
        bytes = ap (λ q. q.bytes) recipe;
        dir_in = ap (λ q. q.dir_out) recipe;
        block = ap (λ q. q.dp) recipe;
        room = length_u;
        connected = ap (λ q. q.connected) conn ∙ con;
      },
      ap (λ q. q.outgoing) conn,
      size_u,
      wire
          ∙ rw (
            word_sent 4 seq _ hs,
            word_sent 4 cmd _ hc,
            array_sent rb.client.ram m.set_qd w [] six held,
          ),
    )
