-- ===== src/Header/Control/Laws.antt =====
-- The packages that set up a recipe, byte for byte, and the bounds of their buffer.
use lib_urx.Base.{
  ℕ, ◌+◌, ◌<◌, ◌≡◌, refl, true, false, ◌∷◌, [], ◌++◌, none, some, length, ret, fault, arith,
  length-append, ◌∙◌, replicate, ap, Run, Option, ℤ, if◌then◌else◌, not, ◌||◌, ◌==◌, leb, drop, ◌%◌,
  ◌^◌, ◌&&◌,
}
use lib_urx.Double.{is_nan, double_1, double_125}
use lib_urx.Bytes.{Bytes, le_bytes}
use lib_urx.Memory.{patch, load}
use lib_urx.Memory.Laws.{write_short, length-patch, write_lem}
use lib_urx.Memory.Frames.{Begins, Yields, Yields-bind, write-Begins}
use lib_urx.Header.Package.{hdr_size, hdr_type}
use lib_urx.Header.Responses.{rtde_parse_data_package}
use lib_urx.Header.Package.Laws.{be16, resize}
use lib_urx.Header.Control.{
  rtde_control_msg_in, rtde_control_msg_out, rtde_control_msg_clear, append_variables,
  rtde_control_msg_get, rtde_data_package_init, low_byte,
}

clear_in-Yields :
    (b : Bytes) → length b ≡ 2048 → Yields 2048 (0 ∷ 3 ∷ b'I' ∷ []) (rtde_control_msg_clear b false)
unfolding rtde_control_msg_clear
clear_in-Yields (a ∷ b ∷ c ∷ d ∷ r) h =
    (0 ∷ 3 ∷ b'I' ∷ 0 ∷ r, refl, record { size = omega arith; start = refl })
clear_in-Yields _ h = absurd (omega arith)

-- The header of an output recipe, with an update frequency of 0.0.
abbrev out_start : Bytes
out_start = 0 ∷ 11 ∷ b'O' ∷ 0 ∷ 0 ∷ 0 ∷ 0 ∷ 0 ∷ 0 ∷ 0 ∷ 0 ∷ []

clear_out-Yields :
    (b : Bytes) → length b ≡ 2048 → Yields 2048 out_start (rtde_control_msg_clear b true)
unfolding rtde_control_msg_clear
clear_out-Yields (a ∷ b ∷ c ∷ d ∷ e ∷ f ∷ g ∷ h ∷ i ∷ j ∷ k ∷ l ∷ r) len =
    (out_start ++ (0 ∷ r), refl, record { size = omega arith; start = refl })
clear_out-Yields _ len = absurd (omega arith)

-- The variables and a 0 behind a header of k bytes that gives its own size.
append-Yields :
    (k : ℕ) (body payload : Bytes) (cp : Bytes)
    → k < 256
    → length body + 2 ≡ k
    → Begins 2048 (0 ∷ k ∷ body) cp
    → k + length payload < 2048
    → Yields 2048
        (be16 (k + length payload) ++ ((body ++ payload) ++ (0 ∷ [])))
        (append_variables cp k payload)
unfolding append_variables
append-Yields k body payload cp hk e h fits =
    Yields-bind _ _ _ _ (write-Begins _ payload k h (omega arith) (omega arith)) λ c wc.
      Yields-bind _ _ _ _
        (write-Begins _ (0 ∷ []) (k + length payload) wc (omega (arith, length-append body payload))
          (omega arith))
        λ d wd.
          let (read, sized) =
            resize 0 k (k + length payload) ((body ++ payload) ++ (0 ∷ [])) d wd (omega arith) hk in
          let is_k : hdr_size d ≡ ret k = read ∙ ap ret (omega arith) in rw is_k sized

append_fault :
    (k : ℕ) (payload cp : Bytes)
    → length cp ≡ 2048
    → k + length payload ≡ 2048
    → append_variables cp k payload ≡ fault
unfolding append_variables
append_fault k payload cp h e = rw (write_lem cp k payload (omega arith)) (
    rw (
      write_short (patch cp k payload) (k + length payload) (0 ∷ [])
        (omega (arith, length-patch cp k payload)) (omega (arith, length-patch cp k payload))))

-- The request that sets up an input recipe with up to 2044 characters of variables: it is written
-- inside its block of 2048 bytes and holds its size in network order, its type, the variables and
-- a terminating 0.
pub control_msg_in_frame :
    (cpi payload : Bytes)
    → length cpi ≡ 2048
    → length payload < 2045
    → (b : Bytes) × (rtde_control_msg_in (some cpi) (some payload) ≡ ret (some b))
      × Begins 2048 (be16 (3 + length payload) ++ ((b'I' ∷ payload) ++ (0 ∷ []))) b
unfolding rtde_control_msg_in
control_msg_in_frame cpi payload h short =
    let (c, ec, wc) = clear_in-Yields cpi h in
    let (b, e, w) = append-Yields 3 (b'I' ∷ []) payload c (omega arith) refl wc (omega arith) in
    (b, ground (arith, e, ec), w)

-- The same for an output recipe with up to 2036 characters. The eight bytes of the update frequency
-- are those of 0.0, whatever frequency the package held.
pub control_msg_out_frame :
    (cpo payload : Bytes)
    → length cpo ≡ 2048
    → length payload < 2037
    → (b : Bytes) × (rtde_control_msg_out (some cpo) (some payload) ≡ ret (some b))
      × Begins 2048
          (be16 (11 + length payload) ++ (((b'O' ∷ replicate 8 0) ++ payload) ++ (0 ∷ [])))
          b
unfolding rtde_control_msg_out
control_msg_out_frame cpo payload h short =
    let (c, ec, wc) = clear_out-Yields cpo h in
    let (b, e, w) =
      append-Yields 11 (b'O' ∷ replicate 8 0) payload c (omega arith) refl wc (omega arith) in
    (b, ground (arith, e, ec), w)

-- The longest variables that the two checks let pass fill the block, and the terminating 0 is
-- written one byte behind it.
pub control_msg_overflow :
    (cpi cpo inputs outputs : Bytes)
    → length cpi ≡ 2048
    → length cpo ≡ 2048
    → length inputs ≡ 2045
    → length outputs ≡ 2037
    → (rtde_control_msg_in (some cpi) (some inputs) ≡ fault)
      × (rtde_control_msg_out (some cpo) (some outputs) ≡ fault)
unfolding rtde_control_msg_in rtde_control_msg_out
control_msg_overflow cpi cpo inputs outputs hi ho li lo =
    let (c, ec, wc) = clear_in-Yields cpi hi in
    let (d, ed, wd) = clear_out-Yields cpo ho in
    (
      ground (arith, ec, append_fault 3 inputs c wc.size (omega arith)),
      ground (arith, ed, append_fault 11 outputs d wd.size (omega arith)),
    )

abbrev pub made_block : ℕ → Run (Option Bytes)
made_block freq = ret (some (0 ∷ 11 ∷ b'O' ∷ (le_bytes 8 freq ++ replicate 2037 0)))

-- A package is made exactly for a frequency from 1 to 125, and for what is not a number: every
-- comparison with it is false. It holds its size, its type and the frequency in host order.
pub control_msg_get_range :
    (freq : ℕ)
    → rtde_control_msg_get true freq ≡ (
        if is_nan freq || (leb double_1 (freq % 2 ^ 64) && leb (freq % 2 ^ 64) double_125)
        then made_block freq
        else ret none)
unfolding rtde_control_msg_get
control_msg_get_range freq = ground arith

-- A data package that is made for a recipe passes the check on incoming data exactly if the low
-- byte of its id is not 0, gives back the size that it was made with, and keeps its payload.
pub data_package_init_parse :
    (dp : Bytes) (id : ℤ) (bytes : ℕ)
    → length dp ≡ 2048
    → bytes < 65532
    → (b : Bytes) × (rtde_data_package_init (some dp) id bytes ≡ ret (some b))
      × (length b ≡ 2048)
      × (rtde_parse_data_package (some b) ≡ ret (not (low_byte id == 0)))
      × (hdr_size b ≡ ret (4 + bytes))
      × (drop 4 b ≡ drop 4 dp)
unfolding rtde_data_package_init rtde_parse_data_package load hdr_size hdr_type
data_package_init_parse (a ∷ b ∷ c ∷ d ∷ r) id bytes h lt = (
  be16 (4 + bytes) ++ (b'U' ∷ low_byte id ∷ r),
  ground arith,
  h,
  ground arith,
  ground arith,
  refl,
)
data_package_init_parse _ id bytes h lt = absurd (omega arith)
