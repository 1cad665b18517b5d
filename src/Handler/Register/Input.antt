-- ===== src/Handler/Register/Input.antt =====
-- The registration of an input recipe, and the first update that it sends.
use mathlib.Core.Path.{subst}
use lib_urx.Base.{
  ℕ, ◌≡◌, ◌≤◌, ◌+◌, ◌&&◌, refl, ap, ◌∙◌, true, false, List, [], ◌∷◌, length, take, drop, All, some,
  pos, ret, arith, inr, ℤ,
}
use lib_urx.Bytes.{Bytes, AreBytes}
use lib_urx.Magic.Types.{DataType, control_package_setup_inputs}
use lib_urx.Header.Package.{hdr_size}
use lib_urx.Header.Responses.Items.{all_usable}
use lib_urx.Header.Responses.Laws.{types_text, setup_response}
use lib_urx.Token.Store.{IsRam}
use lib_urx.Recipe.{Recipe, get_msg}
use lib_urx.Recipe.Response.{agrees, accepted, register_response_types}
use lib_urx.Recipe.Layout.{IsLaidOut}
use lib_urx.Recipe.Layout.Store.{sent}
use lib_urx.Handler.{Client, register_recipe, put_recipe, registered, insert, find_recipe, send}
use lib_urx.Handler.Laws.{whole}
use lib_urx.Handler.Updates.{send-updates, updated}
use lib_urx.Handler.Register.{
  setup_frame_of, after_exchange, exchange_part, response_buffer, itself,
}

-- The client with the registered recipe.
abbrev pub enrolled : Client → ℕ → ℕ → Client
enrolled h p id = record h { recipes_in = (pos id, p) ∷ [] }

registered_part :
    (h : Client) (p id : ℕ) (r : Recipe) (written : ℤ)
    → h.recipes p ≡ accepted r id
    → r.dir_out ≡ false
    → h.recipes_in ≡ []
    → registered h p true written ≡ send (enrolled h p id) (pos id) written
unfolding registered insert
registered_part h p id r written there d none_in = rw (there, d, none_in)

find_only :
    (recipes : ℕ → Recipe) (p id : ℕ)
    → (recipes p).recipe_id ≡ pos id
    → find_recipe recipes ((pos id, p) ∷ []) (pos id) ≡ some p
unfolding find_recipe
find_only recipes p id e = rw e (ground arith)

registered_input :
    (h : Client) (p id k : ℕ) (r : Recipe) (dp : Bytes)
    → h.recipes p ≡ accepted r id
    → r.dir_out ≡ false
    → h.recipes_in ≡ []
    → IsLaidOut r
    → IsRam h.ram
    → r.dp ≡ some dp
    → length dp ≡ 2048
    → r.bytes ≤ 2044
    → h.con.connected ≡ true
    → 4 + r.bytes ≤ k
    → (b : Bytes) × (registered h p true (pos k)
        ≡ ret (updated (enrolled h p id) p b (4 + r.bytes), true))
      × (length b ≡ 2048)
      × (hdr_size b ≡ ret (4 + r.bytes))
      × All (λ j. take j.datasize (drop j.offset (drop 4 b)) ≡ sent h.ram j) r.fields
registered_input h p id k r dp there d none_in l ram block len fits c w =
    let h' = enrolled h p id in
    let bytes : (h.recipes p).bytes ≡ r.bytes = ap (λ q. q.bytes) there in
    let (b, run, room, size, valid, fields) =
      send-updates h' (pos id) p k dp (find_only h.recipes p id (ap (λ q. q.recipe_id) there))
        (rw there l) (rw there d) ram (rw there block) len (omega (arith, bytes, fits)) c
        (omega (arith, bytes, w)) in
    (
      b,
      registered_part h p id r (pos k) there d none_in
          ∙ run
          ∙ ap (λ n. ret (updated h' p b (4 + n), true)) bytes,
      room,
      size ∙ ap (λ n. ret (4 + n)) bytes,
      subst (λ q. All (λ j. take j.datasize (drop j.offset (drop 4 b)) ≡ sent h.ram j) q.fields)
          there fields,
    )

-- A client without input recipes registers one, over a connection that takes the request and the
-- update, where the controller lists the types of the fields: `register_recipe` sends the request
-- and then the first update, which has the recipe's size and holds at each field's place the bytes of
-- its storage in network order, and returns true. The recipe is found under the id of the response.
pub register_recipe-input :
    (h : Client) (p : ℕ) (r : Recipe) (b dp : Bytes) (size n id k : ℕ) (t : DataType)
    (ts : List DataType)
    → get_msg (h.recipes p) ≡ ret (r, some b)
    → r.dir_out ≡ false
    → hdr_size b ≡ ret size
    → size ≤ length b
    → h.con.connected ≡ true
    → size ≤ n
    → length h.buffer ≡ 2048
    → AreBytes h.buffer
    → 4 + length (types_text t ts) ≤ 2000
    → (all_usable (t ∷ ts) && agrees r.fields (t ∷ ts)) ≡ true
    → h.recipes_in ≡ []
    → IsLaidOut r
    → IsRam h.ram
    → r.dp ≡ some dp
    → length dp ≡ 2048
    → r.bytes ≤ 2044
    → 4 + r.bytes ≤ k
    → (h' : Client) × (u : Bytes) × (register_recipe h
          (some p)
          (whole n (setup_frame_of control_package_setup_inputs id (types_text t ts)))
          (pos k)
        ≡ ret (h', true))
      × (h'.recipes p ≡ record (accepted r id) { dp = some u })
      × (find_recipe h'.recipes h'.recipes_in (pos id) ≡ some p)
      × (h'.con ≡ record h.con { outgoing = take (4 + r.bytes) u ∷ take size b ∷ h.con.outgoing })
      × (h'.ram ≡ h.ram)
      × (length u ≡ 2048)
      × (hdr_size u ≡ ret (4 + r.bytes))
      × All (λ j. take j.datasize (drop j.offset (drop 4 u)) ≡ sent h.ram j) r.fields
unfolding register_recipe
register_recipe-input h p r b dp size n id k t ts asked d e fits c w len bytes small ok none_in l
      ram block room short w2 =
    let text = types_text t ts in
    let frame = setup_frame_of control_package_setup_inputs id text in
    let h1 = put_recipe h p r in
    let h2 = after_exchange h1 b size frame in
    let (rest, wrote) =
      response_buffer control_package_setup_inputs h.buffer text id len bytes small in
    let resp = setup_response control_package_setup_inputs id text rest in
    let run = exchange_part h1 b frame size n e fits c w (omega (arith, small)) len in
    let answer =
      register_response_types r control_package_setup_inputs id t ts rest (inr refl) small in
    let same = itself p in
    let h3 = put_recipe (record h2 { buffer = resp }) p (accepted r id) in
    let there : h3.recipes p ≡ accepted r id = rw same in
    let (u, sent_, length_u, size_u, fields) =
      registered_input h3 p id k r dp there d none_in l ram block room short c w2 in
    let h' = updated (enrolled h3 p id) p u (4 + r.bytes) in
    let recipe : h'.recipes p ≡ record (accepted r id) { dp = some u } = rw same in
    (
      h',
      u,
      simp (asked, run, wrote, answer, ok, sent_),
      recipe,
      find_only h'.recipes p id (ap (λ q. q.recipe_id) recipe),
      refl,
      refl,
      length_u,
      size_u,
      fields,
    )
