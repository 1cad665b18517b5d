-- ===== src/Handler/Emergency.antt =====
-- The text message that the protocol client sends.
use lib_urx.Base.{
  zero, suc, ℕ, ◌≡◌, ◌≤◌, ◌<◌, ◌+◌, refl, ap, ◌∙◌, sym, All, [], ◌∷◌, ◌++◌, length, take, drop,
  length-append, some, ℤ, is_positive, negsuc, replicate, length-replicate, if◌then◌else◌, true,
  ret, arith,
}
use lib_urx.Bytes.{Bytes}
use lib_urx.Memory.Laws.{c_string_lem, slice_lem}
use lib_urx.Memory.Laws.{length-patch}
use lib_urx.Header.Package.Laws.{be16}
use lib_urx.Con.{Con}
use lib_urx.Memory.Frames.{Begins}
use lib_urx.Magic.Types.{codes, text_message, package_code}
use lib_urx.Header.Package.{hdr_size, rtde_hdr_get}
use lib_urx.Header.Package.Laws.{hdr_size-be16}
use lib_urx.Header.Requests.Laws.{text_frame, mkreq_msg_out_frame}
use lib_urx.Con.{do_send, is_short}
use lib_urx.Handler.{Client, send_emerg_msg}

take-drop : (n : ℕ) (bs : Bytes) → take n bs ++ drop n bs ≡ bs
take-drop zero bs = refl
take-drop (suc n) [] = refl
take-drop (suc n) (b ∷ bs) = ap (◌∷◌ b) (take-drop n bs)

Begins-append : (n : ℕ) (pre b : Bytes) → Begins n pre b → b ≡ pre ++ drop (length pre) b
Begins-append n pre b h =
    sym (take-drop (length pre) b) ∙ ap (λ xs. xs ++ drop (length pre) b) h.start

-- The message of `send_emerg_msg`, with its terminating zeros.
abbrev pub emergency_frame : Bytes → Bytes
emergency_frame msg = text_frame (msg ++ (0 ∷ [])) (codes "the World" ++ (0 ∷ []))

message_block : (b : Bytes) × (rtde_hdr_get true text_message ≡ some b) × (length b ≡ 2048)
unfolding rtde_hdr_get
message_block = (
  _,
  refl,
  length-patch (replicate 2048 0) 2 (package_code text_message ∷ [])
      ∙ length-replicate {A = ℕ} 2048 0,
)

length-text_frame : (msg src : Bytes) → length (text_frame msg src) ≡ 6 + length msg + length src
length-text_frame msg src =
    let front = be16 (6 + length msg + length src) ++ (b'M' ∷ length msg ∷ []) in
    omega (
      arith,
      length-append (((front ++ msg) ++ (length src ∷ [])) ++ src) (0 ∷ []),
      length-append ((front ++ msg) ++ (length src ∷ [])) src,
      length-append (front ++ msg) (length src ∷ []),
      length-append front msg,
    )

hdr_size-text_frame :
    (msg src tail : Bytes)
    → 6 + length msg + length src < 65536
    → hdr_size (text_frame msg src ++ tail) ≡ ret (6 + length msg + length src)
hdr_size-text_frame msg src tail h = hdr_size-be16 (6 + length msg + length src) _ h

-- `do_send` of a frame at the start of a block.
do_send-Begins :
    (c : Con) (frame b : Bytes) (written : ℤ)
    → c.connected ≡ true
    → length frame ≤ 2048
    → Begins 2048 frame b
    → do_send c b (length frame) written
      ≡ ret (
        record c { outgoing = frame ∷ c.outgoing },
        if is_short written (length frame) then negsuc 0 else written,
      )
unfolding do_send
do_send-Begins c frame b written e fits h =
    rw (e, slice_lem b 0 (length frame) (omega (arith, h.size)), h.start)

-- `send_emerg_msg` with a text of at most 254 characters, over a connection, hands it one frame with
-- the text and the source "the World", and returns true exactly if `send` took the whole frame.
pub send_emerg_msg-sends :
    (h : Client) (msg : Bytes) (written : ℤ)
    → All (λ c. 0 < c) msg
    → length msg < 255
    → h.con.connected ≡ true
    → let frame = emergency_frame msg in
      send_emerg_msg true h msg written
      ≡ ret (
        record h { con = record h.con { outgoing = frame ∷ h.con.outgoing } },
        is_positive (if is_short written (length frame) then negsuc 0 else written),
      )
unfolding send_emerg_msg rtde_hdr_get
send_emerg_msg-sends h msg written text small c =
    let full = msg ++ (0 ∷ []) in
    let src = codes "the World" ++ (0 ∷ []) in
    let (block, got, room) = message_block in
    let len : length msg + 1 ≡ length full = omega (arith, length-append msg (0 ∷ [])) in
    let (b, made, begins) =
      mkreq_msg_out_frame block full src room (omega (arith, len, small)) (omega arith) in
    let total = length-text_frame full src in
    let size : hdr_size b ≡ ret (length (emergency_frame msg)) =
      ap hdr_size (Begins-append 2048 (emergency_frame msg) b begins)
      ∙ hdr_size-text_frame full src _ (omega (arith, len, small))
      ∙ ap ret (sym total) in
    let sent =
      do_send-Begins h.con (emergency_frame msg) b written c (omega (arith, total, len, small))
        begins in
    simp (got, c_string_lem msg [] text) (rw (len, made, size, sent))
