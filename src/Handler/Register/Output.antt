-- ===== src/Handler/Register/Output.antt =====
-- The client behind the registration of an output recipe.
use lib_urx.Base.{
  ℕ, ◌≡◌, ◌≤◌, ◌<◌, ◌+◌, ◌&&◌, refl, ◌∙◌, true, List, [], ◌∷◌, length, some, ℤ, ret, arith, inl,
  >>=-eq-ret, All-append,
}
use lib_urx.Bytes.{Bytes, AreBytes, check, check-AreBytes}
use lib_urx.Memory.{write, slice, patch}
use lib_urx.Memory.Laws.{length-patch, patch-AreBytes}
use lib_urx.Magic.Types.{bool, DataType, control_package_setup_outputs}
use lib_urx.Header.Package.{hdr_size}
use lib_urx.Header.Responses.Items.{all_usable, name_head, name_tail}
use lib_urx.Header.Responses.Laws.{types_text, setup_response}
use lib_urx.Recipe.{Recipe, get_msg}
use lib_urx.Recipe.Response.{agrees, accepted, register_response_types}
use lib_urx.Handler.{Client, register_recipe, put_recipe}
use lib_urx.Handler.Laws.{whole}
use lib_urx.Handler.Receive.{length-filled, filled-AreBytes}
use lib_urx.Handler.Register.{
  setup_frame, after_exchange, exchange_part, response_buffer, registered_lem, itself,
}

-- A write that returns keeps the size, and bytes.
write-kept :
    (buf : Bytes) (off : ℕ) (bs b : Bytes)
    → write buf off bs ≡ ret b
    → AreBytes buf
    → AreBytes bs
    → (length b ≡ length buf) × AreBytes b
unfolding write
write-kept buf off bs b e h k =
    let (a, read, made) = >>=-eq-ret (slice buf off (length bs)) (λ x. ret (patch buf off bs)) e in
    let same : patch buf off bs ≡ b = cc made in
    rw (← same) (length-patch buf off bs, patch-AreBytes buf off bs h k)

name_check : (t : DataType) → check (name_head t ∷ name_tail t) ≡ true
name_check bool = refl
name_check _ = refl

name-AreBytes : (t : DataType) → AreBytes (name_head t ∷ name_tail t)
name-AreBytes t = check-AreBytes (name_head t ∷ name_tail t) (name_check t)

types-AreBytes : (t : DataType) (ts : List DataType) → AreBytes (types_text t ts)
types-AreBytes t [] = name-AreBytes t
types-AreBytes t (u ∷ us) =
    All-append (λ b. b < 256) (name_head t ∷ name_tail t) (b',' ∷ types_text u us) (name-AreBytes t)
      (omega arith, types-AreBytes u us)

setup_frame-AreBytes :
    (id : ℕ) (t : DataType) (ts : List DataType)
    → id < 256
    → AreBytes (setup_frame id (types_text t ts))
setup_frame-AreBytes id t ts h =
    (omega arith, (omega arith, (omega arith, (h, types-AreBytes t ts))))

-- Where the types agree, the client after the registration differs in the request that went out, the
-- receive buffer, the recipe and its pointer to it.
pub register_recipe-accepts :
    (h : Client) (p : ℕ) (r : Recipe) (b : Bytes) (size n id : ℕ) (t : DataType)
    (ts : List DataType) (written : ℤ)
    → get_msg (h.recipes p) ≡ ret (r, some b)
    → r.dir_out ≡ true
    → hdr_size b ≡ ret size
    → size ≤ length b
    → h.con.connected ≡ true
    → size ≤ n
    → length h.buffer ≡ 2048
    → AreBytes h.buffer
    → 4 + length (types_text t ts) ≤ 2000
    → (all_usable (t ∷ ts) && agrees r.fields (t ∷ ts)) ≡ true
    → id < 256
    → (h' : Client) × (register_recipe h
          (some p)
          (whole n (setup_frame id (types_text t ts)))
          written
        ≡ ret (h', true))
      × (h'.recipes p ≡ accepted r id)
      × (h'.out ≡ some p)
      × (length h'.buffer ≡ 2048)
      × AreBytes h'.buffer
      × (h'.con.connected ≡ true)
      × (h'.ram ≡ h.ram)
unfolding register_recipe
register_recipe-accepts h p r b size n id t ts written asked d e fits c w len bytes small ok byte =
    let text = types_text t ts in
    let frame = setup_frame id text in
    let h1 = put_recipe h p r in
    let h2 = after_exchange h1 b size frame in
    let (rest, wrote) =
      response_buffer control_package_setup_outputs h.buffer text id len bytes small in
    let resp = setup_response control_package_setup_outputs id text rest in
    let run = exchange_part h1 b frame size n e fits c w (omega (arith, small)) len in
    let answer =
      register_response_types r control_package_setup_outputs id t ts rest (inl refl) small in
    let same = itself p in
    let h3 = put_recipe (record h2 { buffer = resp }) p (accepted r id) in
    let out = registered_lem h3 p true written (simp same d) in
    let (room, kept) =
      write-kept h2.buffer _ (0 ∷ []) resp wrote
        (filled-AreBytes h.buffer 2048 frame bytes (setup_frame-AreBytes id t ts byte))
        (omega arith, tt) in
    (
      record h3 { out = some p },
      simp (asked, run, wrote, answer, ok, out),
      rw same,
      refl,
      room ∙ length-filled h.buffer 2048 frame ∙ len,
      kept,
      c,
      refl,
    )
