-- ===== src/Handler/Register.antt =====
-- The registration of an output recipe.
pub mod Input
pub mod Output
pub mod Request
use lib_urx.Magic.Types.{PackageType}
use lib_urx.Base.{
  ℕ, refl, [], ◌∷◌, true, false, inl, inr, some, take, ◌≡◌, length, ◌+◌, ret, ◌≤◌, ◌++◌, pos, arith,
  Bool-cases, length-append, ◌∙◌, ap, List, ◌==◌, Bool, ℤ, if◌then◌else◌, ◌&&◌,
}
use lib_urx.Bytes.{Bytes, AreBytes}
use lib_urx.Memory.{patch, write}
use lib_urx.Memory.Laws.{write_lem}
use lib_urx.Magic.Types.{DataType, control_package_setup_outputs, package_code}
use lib_urx.Header.Package.{hdr_size}
use lib_urx.Header.Package.Laws.{be16}
use lib_urx.Header.Responses.Items.{all_usable}
use lib_urx.Header.Responses.Laws.{types_text, setup_response}
use lib_urx.Recipe.{Recipe, get_msg}
use lib_urx.Recipe.Response.{agrees, accepted, register_response_types}
use lib_urx.Con.{do_send_recv}
use lib_urx.Con.Laws.{filled, do_send_lem, do_recv_lem}
use lib_urx.Handler.{Client, exchange, register_recipe, put_recipe, end_index, registered}
use lib_urx.Handler.Laws.{whole}
use lib_urx.Handler.Receive.{length-filled, filled_lem, patch_back}

-- The answer of the controller, without what stands behind it in the buffer.
abbrev pub setup_frame_of : PackageType → ℕ → Bytes → Bytes
setup_frame_of kind id text = be16 (4 + length text) ++ (package_code kind ∷ id ∷ text)

abbrev pub setup_frame : ℕ → Bytes → Bytes
setup_frame = setup_frame_of control_package_setup_outputs

abbrev pub after_exchange : Client → Bytes → ℕ → Bytes → Client
after_exchange h hdr size bs = record h {
  con = record h.con { outgoing = take size hdr ∷ h.con.outgoing };
  buffer = filled h.buffer 2048 bs;
}

pub exchange_part :
    (h : Client) (hdr bs : Bytes) (size n : ℕ)
    → hdr_size hdr ≡ ret size
    → size ≤ length hdr
    → h.con.connected ≡ true
    → size ≤ n
    → length bs ≤ 2048
    → length h.buffer ≡ 2048
    → exchange h hdr 2048 (whole n bs) ≡ ret (after_exchange h hdr size bs, pos (length bs))
unfolding exchange do_send_recv
exchange_part h hdr bs size n e fits c w small room = rw (
  e,
  do_send_lem h.con hdr size n c fits w,
  do_recv_lem h.buffer bs 2048 small (omega (arith, room)),
)

patched : (bs : Bytes) (x : ℕ) (rest : Bytes) → bs ++ patch (x ∷ rest) 0 (0 ∷ []) ≡ bs ++ (0 ∷ rest)
unfolding patch
patched bs x [] = refl
patched bs x (y ∷ rest) = refl

-- A 0 behind the bytes at the front.
terminated :
    (bs tail : Bytes)
    → 1 ≤ length tail
    → (rest : Bytes) × (write (bs ++ tail) (length bs) (0 ∷ []) ≡ ret (bs ++ (0 ∷ rest)))
terminated bs [] h = absurd (omega arith)
terminated bs (x ∷ rest) h = (
  rest,
  write_lem (bs ++ (x ∷ rest)) (length bs) (0 ∷ []) (omega (arith, length-append bs (x ∷ rest)))
      ∙ ap ret (patch_back bs (x ∷ rest) (0 ∷ []) ∙ patched bs x rest),
)

-- The buffer that `register_response` reads, after the 0 was written behind the answer.
pub response_buffer :
    (kind : PackageType) (buf text : Bytes) (id : ℕ)
    → length buf ≡ 2048
    → AreBytes buf
    → 4 + length text ≤ 2000
    → (rest : Bytes) × (write
          (filled buf 2048 (setup_frame_of kind id text))
          (end_index (pos (length (setup_frame_of kind id text))))
          (0 ∷ [])
        ≡ ret (setup_response kind id text rest))
response_buffer kind buf text id len b fits =
    let frame = setup_frame_of kind id text in
    let (tail, form, bytes) = filled_lem buf frame (omega (arith, len, fits)) b in
    let total : length frame + length tail ≡ 2048 =
      omega (arith, length-append frame tail, ap length form, length-filled buf 2048 frame, len) in
    let index : end_index (pos (length frame)) ≡ length frame = ground (arith, fits) in
    let (rest, run) = terminated frame tail (omega (arith, total, fits)) in
    (
      rest,
      ap (λ x. write x (end_index (pos (length frame))) (0 ∷ [])) form
          ∙ ap (λ k. write (frame ++ tail) k (0 ∷ [])) index
          ∙ run,
    )

pub registered_lem :
    (h : Client) (p : ℕ) (done : Bool) (written : ℤ)
    → (h.recipes p).dir_out ≡ true
    → registered h p done written
      ≡ ret (if done then (record h { out = some p }, true) else (h, false))
unfolding registered
registered_lem h p true written d = simp d
registered_lem h p false written d = refl

pub itself : (p : ℕ) → (p == p) ≡ true
itself p = ground arith

-- Over a connection that takes the request of an output recipe and brings a response that lists
-- types, `register_recipe` sends the request, and returns true exactly if no listed type is NOT_FOUND
-- or IN_USE and they are the types of the recipe's fields, one for one. The recipe then has the id of
-- the response and is the client's output recipe; otherwise the recipe is as it was asked for and
-- the client keeps its output recipe.
pub register_recipe-output :
    (h : Client) (p : ℕ) (r : Recipe) (b : Bytes) (size n id : ℕ) (t : DataType)
    (ts : List DataType) (written : ℤ)
    → get_msg (h.recipes p) ≡ ret (r, some b)
    → r.dir_out ≡ true
    → hdr_size b ≡ ret size
    → size ≤ length b
    → h.con.connected ≡ true
    → size ≤ n
    → length h.buffer ≡ 2048
    → AreBytes h.buffer
    → 4 + length (types_text t ts) ≤ 2000
    → let ok = all_usable (t ∷ ts) && agrees r.fields (t ∷ ts) in
      (h' : Client) × (register_recipe h
          (some p)
          (whole n (setup_frame id (types_text t ts)))
          written
        ≡ ret (h', ok))
      × (h'.recipes p ≡ (if ok then accepted r id else r))
      × (h'.out ≡ (if ok then some p else h.out))
      × (h'.con.outgoing ≡ take size b ∷ h.con.outgoing)
unfolding register_recipe
register_recipe-output h p r b size n id t ts written asked d e fits c w len bytes small =
    let text = types_text t ts in
    let frame = setup_frame id text in
    let h1 = put_recipe h p r in
    let h2 = after_exchange h1 b size frame in
    let (rest, wrote) =
      response_buffer control_package_setup_outputs h.buffer text id len bytes small in
    let resp = setup_response control_package_setup_outputs id text rest in
    let run = exchange_part h1 b frame size n e fits c w (omega (arith, small)) len in
    let answer =
      register_response_types r control_package_setup_outputs id t ts rest (inl refl) small in
    let same = itself p in
    elim (Bool-cases (all_usable (t ∷ ts) && agrees r.fields (t ∷ ts))) [
      | inl f ↦
          let h3 = put_recipe (record h2 { buffer = resp }) p (accepted r id) in
          let out = registered_lem h3 p true written (simp same d) in
          (
            record h3 { out = some p },
            simp (asked, run, wrote, answer, f, out),
            simp (f, same),
            simp f,
            refl,
          )
      | inr f ↦
          let h3 = put_recipe (record h2 { buffer = resp }) p r in
          let out = registered_lem h3 p false written (simp same d) in
          (h3, simp (asked, run, wrote, answer, f, out), simp (f, same), simp f, refl)
    ]
