-- ===== src/Header/Requests/Laws.antt =====
-- The bytes of each request.
use native.Mathlib.Nat.{mod-eq_of_lt}
use lib_urx.Base.{
  ℕ, ◌+◌, ◌<◌, ◌≡◌, refl, ap, ◌∙◌, Bool, true, false, if◌then◌else◌, ◌∷◌, [], ◌++◌, some, length,
  take_all, length-append, ret, arith,
}
use lib_urx.Bytes.{Bytes}
use lib_urx.Memory.{slice}
use lib_urx.Memory.Laws.{slice_lem}
use lib_urx.Memory.Frames.{Begins, Yields, Yields-bind, write-Begins}
use lib_urx.Header.Package.Laws.{be16}
use lib_urx.Header.Requests.{
  rtde_mkreq_prot_version, rtde_mkreq_urctrl_version, rtde_control_package, rtde_mkreq_msg_out,
  msg_header, write_msg,
}

prot_version_frame :
    (header : Bytes)
    → length header ≡ 5
    → rtde_mkreq_prot_version (some header) ≡ ret (some (0 ∷ 5 ∷ 86 ∷ 0 ∷ 2 ∷ []))
unfolding rtde_mkreq_prot_version
prot_version_frame (a ∷ b ∷ c ∷ d ∷ e ∷ []) h = refl
prot_version_frame (a ∷ b ∷ c ∷ d ∷ e ∷ _ ∷ _) h = absurd (omega arith)
prot_version_frame _ h = absurd (omega arith)

urctrl_version_frame :
    (header : Bytes)
    → length header ≡ 3
    → rtde_mkreq_urctrl_version (some header) ≡ ret (some (0 ∷ 3 ∷ 118 ∷ []))
unfolding rtde_mkreq_urctrl_version
urctrl_version_frame (a ∷ b ∷ c ∷ []) h = refl
urctrl_version_frame (a ∷ b ∷ c ∷ _ ∷ _) h = absurd (omega arith)
urctrl_version_frame _ h = absurd (omega arith)

pub start_stop_frame :
    (sp : Bytes) (starting : Bool)
    → length sp ≡ 3
    → rtde_control_package sp starting ≡ ret (0 ∷ 3 ∷ (if starting then 83 else 80) ∷ [])
unfolding rtde_control_package
start_stop_frame (a ∷ b ∷ c ∷ []) true h = refl
start_stop_frame (a ∷ b ∷ c ∷ []) false h = refl
start_stop_frame (a ∷ b ∷ c ∷ _ ∷ _) starting h = absurd (omega arith)
start_stop_frame _ starting h = absurd (omega arith)

-- Whatever the structure held, each request of fixed form is written whole: its size in network
-- order, its type and, for the protocol version, the supported version 2.
pub mkreq_frames :
    (prot hdr : Bytes) (starting : Bool)
    → length prot ≡ 5
    → length hdr ≡ 3
    → (rtde_mkreq_prot_version (some prot) ≡ ret (some (0 ∷ 5 ∷ b'V' ∷ 0 ∷ 2 ∷ [])))
      × (rtde_mkreq_urctrl_version (some hdr) ≡ ret (some (0 ∷ 3 ∷ b'v' ∷ [])))
      × (rtde_control_package hdr starting ≡ ret (0 ∷ 3 ∷ (if starting then b'S' else b'P') ∷ []))
mkreq_frames prot hdr starting hp hh =
    (prot_version_frame prot hp, urctrl_version_frame hdr hh, start_stop_frame hdr starting hh)

-- A text message as the controller reads it: size, type, length and text, length and source, and
-- the message type.
abbrev pub text_frame : Bytes → Bytes → Bytes
text_frame msg src =
    ((((be16 (6 + length msg + length src) ++ (b'M' ∷ length msg ∷ [])) ++ msg)
        ++ (length src ∷ []))
      ++ src)
    ++ (0 ∷ [])

msg_header-Yields :
    (rtde : Bytes) (m n : ℕ)
    → length rtde ≡ 2048
    → m < 256
    → Yields 2048 (be16 (6 + m + n) ++ (b'M' ∷ m ∷ [])) (msg_header rtde m n)
unfolding msg_header
msg_header-Yields (a ∷ b ∷ c ∷ d ∷ r) m n h lt =
    (be16 (6 + m + n) ++ (b'M' ∷ m ∷ r), ground arith, record { size = omega arith; start = refl })
msg_header-Yields _ m n h lt = absurd (omega arith)

slice_all : (bs : Bytes) → slice bs 0 (length bs) ≡ ret bs
slice_all bs = slice_lem bs 0 (length bs) (omega arith) ∙ ap ret (take_all bs)

write_msg-Yields :
    (rtde msg src : Bytes)
    → length rtde ≡ 2048
    → length msg < 256
    → length src < 256
    → Yields 2048 (text_frame msg src) (write_msg rtde msg (length msg) src (length src))
unfolding write_msg
write_msg-Yields rtde msg src h hm hs =
    rw (slice_all msg, slice_all src, mod-eq_of_lt hs)
      (Yields-bind _ _ _ _ (msg_header-Yields rtde (length msg) (length src) h hm) λ b wb.
        Yields-bind _ _ _ _ (write-Begins _ msg 4 wb refl (omega arith)) λ c wc.
          Yields-bind _ _ _ _
            (write-Begins _ (length src ∷ []) (4 + length msg) wc (omega arith) (omega arith))
            λ d wd.
              Yields-bind _ _ _ _
                (write-Begins _ src (4 + length msg + 1) wd
                  (omega (arith, length-append msg (length src ∷ []))) (omega arith))
                λ e we.
                  write-Begins _ (0 ∷ []) (4 + length msg + 1 + length src) we
                    (omega (
                      arith,
                      length-append (msg ++ length src ∷ []) src,
                      length-append msg (length src ∷ []),
                    ))
                    (omega arith))

-- A text and a source of at most 255 bytes, terminating zeros included, are written inside the
-- block of 2048 bytes, and the frame holds its size in network order, the type, both texts behind
-- their lengths, and the message type 0.
pub mkreq_msg_out_frame :
    (rtde msg src : Bytes)
    → length rtde ≡ 2048
    → length msg < 256
    → length src < 256
    → (b : Bytes) × (rtde_mkreq_msg_out (some rtde) (some msg) (length msg) (some src) (length src)
        ≡ ret (some b))
      × Begins 2048 (text_frame msg src) b
unfolding rtde_mkreq_msg_out
mkreq_msg_out_frame rtde msg src h hm hs =
    let (b, e, w) = write_msg-Yields rtde msg src h hm hs in (b, ground (arith, e), w)
