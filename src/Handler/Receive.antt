-- ===== src/Handler/Receive.antt =====
-- A data package from the wire to the memory of the using program.
pub mod Keeps
use mathlib.Core.Path.{subst}
use lib_urx.Base.{
  ℕ, zero, suc, refl, [], ◌∷◌, true, false, inl, inr, ◌≤◌, ◌*◌, ◌≡◌, List, length, ◌++◌, take, drop,
  All, ap, some, arith, Bool-cases, ◌+◌, length-drop, ltb, ret, reverse, ◌∙◌, length-append,
  All-append, ◌<◌,
}
use lib_urx.Bytes.{Bytes, AreBytes}
use lib_urx.Memory.{Ram, peek, patch}
use lib_urx.Memory.Laws.{patch-AreBytes, drop-AreBytes, length-patch}
use lib_urx.Magic.Types.{
  DataType, bool, uint8, uint32, uint64, int32, double, vector3d, vector6d, vector6int32,
  rtde_datasize,
}
use lib_urx.Magic.Lookup.Laws.{is_output_type}
use lib_urx.Token.{Token}
use lib_urx.Token.Laws.{swap_words}
use lib_urx.Recipe.Layout.{Layout, Layout-le, IsLaidOut}
use lib_urx.Recipe.Layout.Parse.{Apart, TsClear, TsIs, field_bytes, field_value}
use lib_urx.Con.{arrived, failed, do_recv}
use lib_urx.Con.Laws.{filled, do_recv_lem}
use lib_urx.Handler.{Client, recv}
use lib_urx.Handler.Laws.{incoming, is_expected, parse_incoming_data-delivers, unexpected-rejected}

take-append : (n : ℕ) (xs ys : Bytes) → n ≤ length xs → take n (xs ++ ys) ≡ take n xs
take-append zero xs ys h = refl
take-append (suc n) [] ys h = absurd (omega arith)
take-append (suc n) (x ∷ xs) ys h = ap (◌∷◌ x) (take-append n xs ys (omega arith))

drop-append : (n : ℕ) (xs ys : Bytes) → n ≤ length xs → drop n (xs ++ ys) ≡ drop n xs ++ ys
drop-append zero xs ys h = refl
drop-append (suc n) [] ys h = absurd (omega arith)
drop-append (suc n) (x ∷ xs) ys h = drop-append n xs ys (omega arith)

swap_words-append :
    (n w : ℕ) (xs ys : Bytes) → n * w ≤ length xs → swap_words n w (xs ++ ys) ≡ swap_words n w xs
unfolding swap_words
swap_words-append zero w xs ys h = refl
swap_words-append (suc n) w xs ys h =
    let more : n * w ≤ length (drop w xs) = omega (arith, length-drop w xs, h) in
    rw (take-append w xs ys (omega (arith, h)), drop-append w xs ys (omega (arith, h)))
      (ap (λ r. reverse (take w xs) ++ r) (swap_words-append n w (drop w xs) ys more))

field_bytes-append :
    (t : DataType) (xs ys : Bytes)
    → is_output_type t ≡ true
    → rtde_datasize t ≤ length xs
    → field_bytes t (xs ++ ys) ≡ field_bytes t xs
unfolding rtde_datasize
field_bytes-append bool xs ys o h = rw (take-append 1 xs ys h)
field_bytes-append uint8 xs ys o h = swap_words-append 1 1 xs ys h
field_bytes-append uint32 xs ys o h = swap_words-append 1 4 xs ys h
field_bytes-append uint64 xs ys o h = swap_words-append 1 8 xs ys h
field_bytes-append int32 xs ys o h = swap_words-append 1 4 xs ys h
field_bytes-append double xs ys o h = swap_words-append 1 8 xs ys h
field_bytes-append vector3d xs ys o h = swap_words-append 3 8 xs ys h
field_bytes-append vector6d xs ys o h = swap_words-append 6 8 xs ys h
field_bytes-append vector6int32 xs ys o h = swap_words-append 6 4 xs ys h
field_bytes-append _ xs ys o h = cc

-- What stands behind the fields in the buffer does not matter to them.
fields-append :
    (o : ℕ) (ks : List Token) (e : ℕ) (m : Ram) (xs ys : Bytes)
    → Layout true o ks e
    → e ≤ length xs
    → All (λ k. peek m k.storage k.datasize ≡ field_value k (xs ++ ys)) ks
    → All (λ k. peek m k.storage k.datasize ≡ field_value k xs) ks
fields-append o [] e m xs ys l h a = tt
fields-append o (k ∷ ks) e m xs ys l h a =
    let fits : k.offset + k.datasize ≤ length xs =
      omega (arith, Layout-le true (o + k.datasize) ks e l.2, l.1, h) in
    let f = l.0 in
    let room : rtde_datasize k.type ≤ length (drop k.offset xs) =
      omega (arith, f.size_fits, length-drop k.offset xs, fits) in
    (
      a.0
          ∙ (ap (field_bytes k.type) (drop-append k.offset xs ys (omega (arith, fits)))
              ∙ field_bytes-append k.type (drop k.offset xs) ys f.type_fits room),
      fields-append (o + k.datasize) ks e m xs ys l.2 h a.1,
    )

patch_front :
    (buf bs : Bytes) → length bs ≤ length buf → patch buf 0 bs ≡ bs ++ drop (length bs) buf
unfolding patch
patch_front buf [] h = refl
patch_front [] (b ∷ bs) h = absurd (omega arith)
patch_front (x ∷ buf) (b ∷ bs) h = ap (◌∷◌ b) (patch_front buf bs (omega arith))

pub patch_back : (xs ys bs : Bytes) → patch (xs ++ ys) (length xs) bs ≡ xs ++ patch ys 0 bs
unfolding patch
patch_back [] ys bs = refl
patch_back (x ∷ xs) ys bs = ap (◌∷◌ x) (patch_back xs ys bs)

-- The buffer after a package arrived begins with the package.
pub filled_lem :
    (buf bs : Bytes)
    → length bs ≤ length buf
    → AreBytes buf
    → (tail : Bytes) × (filled buf 2048 bs ≡ bs ++ tail) × AreBytes tail
filled_lem buf bs h b =
    let old = drop (length bs) buf in
    let bytes = drop-AreBytes (length bs) buf b in
    elim (Bool-cases (ltb (length bs) 2048)) [
      | inl e ↦ (
        patch old 0 (0 ∷ []),
        rw (patch_front buf bs h, e) (patch_back bs old (0 ∷ [])),
        patch-AreBytes old 0 (0 ∷ []) bytes (omega arith, tt),
      )
      | inr e ↦ (old, rw (patch_front buf bs h, e), bytes)
    ]

pub length-filled : (buf : Bytes) (rsz : ℕ) (bs : Bytes) → length (filled buf rsz bs) ≡ length buf
length-filled buf rsz bs = elim (Bool-cases (ltb (length bs) rsz)) [
  | inl e ↦ rw e (length-patch (patch buf 0 bs) (length bs) (0 ∷ []) ∙ length-patch buf 0 bs)
  | inr e ↦ rw e (length-patch buf 0 bs)
]

pub filled-AreBytes :
    (buf : Bytes) (rsz : ℕ) (bs : Bytes) → AreBytes buf → AreBytes bs → AreBytes (filled buf rsz bs)
filled-AreBytes buf rsz bs h k = elim (Bool-cases (ltb (length bs) rsz)) [
  | inl e ↦ rw e (
      patch-AreBytes (patch buf 0 bs) (length bs) (0 ∷ []) (patch-AreBytes buf 0 bs h k)
        (omega arith, tt))
  | inr e ↦ rw e (patch-AreBytes buf 0 bs h k)
]

pub incoming-AreBytes :
    (size type id : ℕ) (payload : Bytes)
    → type < 256
    → id < 256
    → AreBytes payload
    → AreBytes (incoming size type id payload)
incoming-AreBytes size type id payload t i h = (omega arith, (omega arith, (t, (i, h))))

-- The receive buffer after a frame that is not expected, which leaves everything else.
pub recv-rejects :
    (h : Client) (p size type id : ℕ) (payload : Bytes) (ts : ℕ)
    → h.out ≡ some p
    → length h.buffer ≡ 2048
    → AreBytes h.buffer
    → size ≤ 2048
    → size ≡ 4 + length payload
    → is_expected (h.recipes p) size type id ≡ false
    → recv h (arrived (incoming size type id payload)) ts
      ≡ ret (record h { buffer = filled h.buffer 2048 (incoming size type id payload) }, false)
unfolding recv
recv-rejects h p size type id payload ts o len b fits whole e =
    let frame = incoming size type id payload in
    let total : length frame ≡ size = omega (arith, whole) in
    let (tail, form, rest) = filled_lem h.buffer frame (omega (arith, total, fits, len)) b in
    let h' : Client = record h { buffer = frame ++ tail } in
    let run =
      unexpected-rejected h' p size type id (payload ++ tail) ts o refl (omega (arith, fits)) e in
    let got = do_recv_lem h.buffer frame 2048 (omega (arith, total, fits)) (omega (arith, len)) in
    simp (got, form, run)

-- An error of the connection.
pub recv-fails : (h : Client) (n ts : ℕ) → recv h (failed n) ts ≡ ret (h, false)
unfolding recv do_recv
recv-fails h n ts = refl

pub recv-filled :
    (h : Client) (p size id : ℕ) (payload : Bytes) (ts : ℕ)
    → h.out ≡ some p
    → length h.buffer ≡ 2048
    → AreBytes h.buffer
    → size ≤ 2048
    → size ≡ 4 + length payload
    → is_expected (h.recipes p) size b'U' id ≡ true
    → AreBytes payload
    → IsLaidOut (h.recipes p)
    → (h.recipes p).dir_out ≡ true
    → Apart (h.recipes p).fields
    → TsClear (h.recipes p).ts_ns (h.recipes p).fields
    → (m : Ram) × (recv h (arrived (incoming size b'U' id payload)) ts
        ≡ ret (
          record h { ram = m; buffer = filled h.buffer 2048 (incoming size b'U' id payload) },
          true,
        ))
      × All (λ k. peek m k.storage k.datasize ≡ field_value k payload) (h.recipes p).fields
      × TsIs (h.recipes p).ts_ns m ts
unfolding recv
recv-filled h p size id payload ts o len b fits whole e bytes l d a c =
    let frame = incoming size b'U' id payload in
    let total : length frame ≡ size = omega (arith, whole) in
    let (tail, form, rest) = filled_lem h.buffer frame (omega (arith, total, fits, len)) b in
    let h' : Client = record h { buffer = frame ++ tail } in
    let r = h.recipes p in
    let (m, run, fields, stamp) =
      parse_incoming_data-delivers h' p size b'U' id (payload ++ tail) ts o refl
        (omega (arith, fits)) e (omega (arith, whole, length-append payload tail))
        (All-append (λ x. x < 256) payload tail bytes rest) l d a c in
    let enough : r.bytes ≤ length payload = ground (arith, e, whole) in
    let got = do_recv_lem h.buffer frame 2048 (omega (arith, total, fits)) (omega (arith, len)) in
    let layout : Layout true 0 r.fields r.bytes =
      subst (λ dir. Layout dir 0 r.fields r.bytes) d l in
    (
      m,
      simp (got, form, run),
      fields-append 0 r.fields r.bytes m payload tail layout enough fields,
      stamp,
    )

-- `recv` delivers a whole data package of the output recipe's id and size that arrives: it returns
-- true, each field's storage holds its value from its place in the payload in host order, if no two
-- storages overlap, and the tracked time stamp holds the time of arrival. Besides the memory of the
-- using program only the receive buffer changes.
pub recv-delivers :
    (h : Client) (p size id : ℕ) (payload : Bytes) (ts : ℕ)
    → h.out ≡ some p
    → length h.buffer ≡ 2048
    → AreBytes h.buffer
    → size ≤ 2048
    → size ≡ 4 + length payload
    → is_expected (h.recipes p) size b'U' id ≡ true
    → AreBytes payload
    → IsLaidOut (h.recipes p)
    → (h.recipes p).dir_out ≡ true
    → Apart (h.recipes p).fields
    → TsClear (h.recipes p).ts_ns (h.recipes p).fields
    → (m : Ram) × (b : Bytes) × (recv h (arrived (incoming size b'U' id payload)) ts
        ≡ ret (record h { ram = m; buffer = b }, true))
      × All (λ k. peek m k.storage k.datasize ≡ field_value k payload) (h.recipes p).fields
      × TsIs (h.recipes p).ts_ns m ts
recv-delivers h p size id payload ts o len b fits whole e bytes l d a c =
    let (m, run, fields, stamp) =
      recv-filled h p size id payload ts o len b fits whole e bytes l d a c in
    (m, filled h.buffer 2048 (incoming size b'U' id payload), run, fields, stamp)
