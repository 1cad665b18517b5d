-- ===== src/Handler/Laws.antt =====
-- Exchanges, data packages and updates of the protocol client.
use lib_urx.Token.{Token}
use lib_urx.Base.{
  ℕ, refl, [], pos, ◌≡◌, length, ◌∷◌, ret, true, ◌≤◌, arith, take_all, ◌==◌, ◌&&◌, not, false, ◌<◌,
  Bool, some, ◌++◌, ap, leb, ◌∙◌, ◌/◌, eq_ℤ, ◌%◌, ◌-◌, if◌then◌else◌, ◌+◌, All, drop, take, sym,
  List, ◌⊎◌, ◌≢◌, eq_ℤ_iff, inl, inr, Bool-cases,
}
use lib_urx.Bytes.{Bytes, AreBytes}
use lib_urx.Memory.{load, peek, patch}
use lib_urx.Header.Package.{hdr_size, hdr_type}
use lib_urx.Header.Package.Laws.{be16, hdr_size-be16, hdr_type_lem}
use lib_urx.Header.Requests.Laws.{start_stop_frame}
use lib_urx.Header.Responses.{rtde_parse_data_package, rtde_control_package_sp_resp_validate}
use lib_urx.Recipe.{Recipe}
use lib_urx.Recipe.Layout.{IsLaidOut, Layout}
use lib_urx.Recipe.Layout.Parse.{Apart, TsClear, TsIs, field_value, parse-delivers}
use lib_urx.Con.{arrived, do_send_recv}
use lib_urx.Con.Laws.{filled, do_send_lem, do_recv_lem}
use lib_urx.Handler.{
  Client, Exchange, exchange, start, stop, parse_incoming_data, sp_answer, ask, parse_payload, Ram,
}

-- The client after a frame went out whole and an answer came in.
abbrev pub answered : Client → Bytes → ℕ → Bytes → Client
answered h frame rsz bs = record h {
  con = record h.con { outgoing = frame ∷ h.con.outgoing };
  buffer = filled h.buffer rsz bs;
}

abbrev pub whole : ℕ → Bytes → Exchange
whole n bs = record { written = pos n; input = arrived bs }

pub exchange_lem :
    (h : Client) (frame bs : Bytes) (rsz n : ℕ)
    → hdr_size frame ≡ ret (length frame)
    → h.con.connected ≡ true
    → length frame ≤ n
    → length bs ≤ rsz
    → rsz ≤ length h.buffer
    → exchange h frame rsz (whole n bs) ≡ ret (answered h frame rsz bs, pos (length bs))
unfolding exchange do_send_recv
exchange_lem h frame bs rsz n size c w fits room = rw (
  size,
  do_send_lem h.con frame (length frame) n c (omega arith) w,
  do_recv_lem h.buffer bs rsz fits room,
  take_all frame,
)

sp_frame_size : (x : ℕ) → hdr_size (0 ∷ 3 ∷ x ∷ []) ≡ ret 3
sp_frame_size x = hdr_size-be16 3 (x ∷ []) (omega arith)

filled_answer :
    (buf : Bytes) (kind accepted : ℕ)
    → length buf ≡ 2048
    → (r : Bytes) × (filled buf 4 (0 ∷ 4 ∷ kind ∷ accepted ∷ []) ≡ 0 ∷ 4 ∷ kind ∷ accepted ∷ r)
unfolding patch
filled_answer (a ∷ b ∷ c ∷ d ∷ r) kind accepted h = (r, refl)
filled_answer _ kind accepted h = absurd (omega arith)

sp_answer_lem :
    (kind accepted : ℕ) (r : Bytes)
    → sp_answer (0 ∷ 4 ∷ kind ∷ accepted ∷ r) ≡ ret ((kind == b'S') && not (accepted == 0))
unfolding rtde_control_package_sp_resp_validate hdr_size hdr_type load
sp_answer_lem kind accepted r = ground arith

-- What the client is after it sent a request of three bytes and received a whole answer.
abbrev pub sp_asked : Client → ℕ → ℕ → ℕ → Client
sp_asked h type kind accepted = answered h (0 ∷ 3 ∷ type ∷ []) 4 (0 ∷ 4 ∷ kind ∷ accepted ∷ [])

ask_sp :
    (h : Client) (type n kind accepted : ℕ)
    → h.con.connected ≡ true
    → length h.buffer ≡ 2048
    → 3 ≤ n
    → ask h (0 ∷ 3 ∷ type ∷ []) 4 (whole n (0 ∷ 4 ∷ kind ∷ accepted ∷ [])) false sp_answer
      ≡ ret (sp_asked h type kind accepted, (kind == b'S') && not (accepted == 0))
ask_sp h type n kind accepted c b w =
    let (r, form) = filled_answer h.buffer kind accepted b in
    let read = ap sp_answer form ∙ sp_answer_lem kind accepted r in
    rw (
      exchange_lem h (0 ∷ 3 ∷ type ∷ []) (0 ∷ 4 ∷ kind ∷ accepted ∷ []) 4 n (sp_frame_size type) c w
          (omega arith) (omega (arith, b)),
      read,
    )

-- Over a connection that takes the request and brings the whole answer, `start` sends "S" and `stop`
-- sends "P", and both return true exactly if the answer is one to a start and accepts: `stop`
-- returns false on every answer to a stop.
pub start_stop-answers :
    (stack : Bytes) (h : Client) (n kind accepted : ℕ)
    → length stack ≡ 3
    → h.con.connected ≡ true
    → length h.buffer ≡ 2048
    → 3 ≤ n
    → (start stack h (whole n (0 ∷ 4 ∷ kind ∷ accepted ∷ []))
        ≡ ret (sp_asked h b'S' kind accepted, (kind == b'S') && not (accepted == 0)))
      × (stop stack h (whole n (0 ∷ 4 ∷ kind ∷ accepted ∷ []))
          ≡ ret (sp_asked h b'P' kind accepted, (kind == b'S') && not (accepted == 0)))
unfolding start stop
start_stop-answers stack h n kind accepted s c b w = (
  rw (start_stop_frame stack true s) (ask_sp h b'S' n kind accepted c b w),
  rw (start_stop_frame stack false s) (ask_sp h b'P' n kind accepted c b w),
)

-- A package at the start of the receive buffer.
abbrev pub incoming : ℕ → ℕ → ℕ → Bytes → Bytes
incoming size type id payload = be16 size ++ (type ∷ id ∷ payload)

id_lem : (size type id : ℕ) (payload : Bytes) → load 1 (incoming size type id payload) 3 ≡ ret id
unfolding load
id_lem size type id payload = ground arith

parse_data_package_lem :
    (size type id : ℕ) (payload : Bytes)
    → size < 65536
    → rtde_parse_data_package (some (incoming size type id payload))
      ≡ ret (not (id == 0) && ((type == b'U') && leb 4 size))
unfolding rtde_parse_data_package
parse_data_package_lem size type id payload h =
    rw
      (
        id_lem size type id payload,
        rtde_parse_data_package,
        hdr_size-be16 size (type ∷ id ∷ payload) h,
        hdr_type_lem (size / 256 % 256) (size % 256) type (id ∷ payload),
      )
      (ground arith)

-- The package that a recipe takes: a data package of its id and of its size.
abbrev pub is_expected : Recipe → ℕ → ℕ → ℕ → Bool
is_expected r size type id =
    not (id == 0)
    && (type == b'U')
    && leb 4 size
    && eq_ℤ r.recipe_id (pos id)
    && (r.bytes == size - 4)

-- The branches of `parse_incoming_data`.
pub incoming_lem :
    (h : Client) (p size type id : ℕ) (payload : Bytes) (ts : ℕ)
    → h.out ≡ some p
    → h.buffer ≡ incoming size type id payload
    → size < 65536
    → parse_incoming_data h ts
      ≡ (if is_expected (h.recipes p) size type id then parse_payload h p ts else ret (h, false))
unfolding parse_incoming_data
incoming_lem h p size type id payload ts o b lt =
    let v =
      ap (λ x. rtde_parse_data_package (some x)) b
      ∙ parse_data_package_lem size type id payload lt in
    let i = ap (λ x. load 1 x 3) b ∙ id_lem size type id payload in
    let s = ap hdr_size b ∙ hdr_size-be16 size (type ∷ id ∷ payload) lt in
    simp (v, i, s, o) (ground arith)

-- A package that the recipe does not take leaves the client as it was.
pub unexpected-rejected :
    (h : Client) (p size type id : ℕ) (payload : Bytes) (ts : ℕ)
    → h.out ≡ some p
    → h.buffer ≡ incoming size type id payload
    → size < 65536
    → is_expected (h.recipes p) size type id ≡ false
    → parse_incoming_data h ts ≡ ret (h, false)
unexpected-rejected h p size type id payload ts o b lt e =
    incoming_lem h p size type id payload ts o b lt ∙ rw e

-- The bytes that fields take.
abbrev pub total_size : List Token → ℕ
total_size [] = 0
total_size (k ∷ ks) = k.datasize + total_size ks

Layout-total_size :
    (dir : Bool) (o n : ℕ) (ks : List Token) → Layout dir o ks n → o + total_size ks ≡ n
Layout-total_size dir o n [] l = omega (arith, l)
Layout-total_size dir o n (k ∷ ks) l =
    omega (arith, Layout-total_size dir (o + k.datasize) n ks l.2)

-- For an output recipe whose fields follow one another: a package whose id is 0 or not that of the
-- recipe, whose type is not that of data ("U"), or whose size is not that of the fields and the four
-- bytes in front of them, leaves the client as it was, the memory of the using program included,
-- and gives false.
pub parse_incoming_data-rejects :
    (h : Client) (p size type id : ℕ) (payload : Bytes) (ts : ℕ)
    → h.out ≡ some p
    → h.buffer ≡ incoming size type id payload
    → size < 65536
    → IsLaidOut (h.recipes p)
    → (id ≡ 0)
      ⊎ (((h.recipes p).recipe_id ≢ pos id)
          ⊎ ((type ≢ 85) ⊎ (size ≢ 4 + total_size (h.recipes p).fields)))
    → parse_incoming_data h ts ≡ ret (h, false)
parse_incoming_data-rejects h p size type id payload ts o b lt l bad =
    let r = h.recipes p in
    let bytes = Layout-total_size r.dir_out 0 r.bytes r.fields l in
    let other : (eq_ℤ r.recipe_id (pos id) ≡ true) → r.recipe_id ≡ pos id =
      (eq_ℤ_iff r.recipe_id (pos id)).0 in
    unexpected-rejected h p size type id payload ts o b lt (elim bad [
      | inl e ↦ ground (arith, e)
      | inr (inl e) ↦ elim (Bool-cases (eq_ℤ r.recipe_id (pos id))) [
        | inl f ↦ absurd (e (other f))
        | inr f ↦ rw f (ground arith)
      ]
      | inr (inr (inl e)) ↦ ground (arith, e)
      | inr (inr (inr e)) ↦ ground (arith, e, bytes)
    ])

-- A data package of the output recipe's id and size is taken: true, each field's storage holds its
-- value from its place in the payload in host order, the tracked time stamp holds the time of
-- arrival, and nothing but the memory of the using program changes.
pub parse_incoming_data-delivers :
    (h : Client) (p size type id : ℕ) (payload : Bytes) (ts : ℕ)
    → h.out ≡ some p
    → h.buffer ≡ incoming size type id payload
    → size < 65536
    → is_expected (h.recipes p) size type id ≡ true
    → size ≤ 4 + length payload
    → AreBytes payload
    → IsLaidOut (h.recipes p)
    → (h.recipes p).dir_out ≡ true
    → Apart (h.recipes p).fields
    → TsClear (h.recipes p).ts_ns (h.recipes p).fields
    → (m : Ram) × (parse_incoming_data h ts ≡ ret (record h { ram = m }, true))
      × All (λ k. peek m k.storage k.datasize ≡ field_value k payload) (h.recipes p).fields
      × TsIs (h.recipes p).ts_ns m ts
parse_incoming_data-delivers h p size type id payload ts o b lt e fits bytes l d a c =
    let r = h.recipes p in
    let enough : r.bytes ≤ length payload = ground (arith, e, fits) in
    let (m, run, fields, stamp) = parse-delivers r h.ram payload ts l d bytes enough a c in
    let tail : drop 4 h.buffer ≡ payload = ap (drop 4) b in
    let back : take 4 h.buffer ++ payload ≡ h.buffer = ap (λ x. take 4 x ++ payload) b ∙ sym b in
    (m, incoming_lem h p size type id payload ts o b lt ∙ simp (e, tail, run, back), fields, stamp)
