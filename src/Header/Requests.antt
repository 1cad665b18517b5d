-- ===== src/Header/Requests.antt =====
-- The requests of src/header.cpp that have a fixed form, and the text message. A function that
-- fills in a package returns it; `none` means that it returned false and wrote nothing.
pub mod Laws
use lib_urx.Base.{
  ℕ, ◌+◌, ◌%◌, Bool, ◌||◌, ltb, if◌then◌else◌, ◌∷◌, [], Option, none, some, Run, ret, ◌>>=◌,
}
use lib_urx.Bytes.{Bytes, htons, bswap}
use lib_urx.Memory.{store, slice, write}
use lib_urx.Magic.Types.{
  PackageType, request_protocol_version, get_urcontrol_version, text_message, control_package_start,
  control_package_pause, supported_protocol_version, message_code, exception_message,
}
use lib_urx.Header.Package.{sizeof_header, sizeof_prot, set_size, set_type}

unfoldable pub rtde_mkreq_prot_version : Option Bytes → Run (Option Bytes)
unfolding set_size set_type store bswap
rtde_mkreq_prot_version none = ret none
rtde_mkreq_prot_version (some header) = do
  sized ← set_size header sizeof_prot
  typed ← set_type sized request_protocol_version
  full ← store 2 typed 3 (htons supported_protocol_version)
  ret (some full)

unfoldable pub rtde_mkreq_urctrl_version : Option Bytes → Run (Option Bytes)
unfolding set_size set_type
rtde_mkreq_urctrl_version none = ret none
rtde_mkreq_urctrl_version (some header) = do
  sized ← set_size header sizeof_header
  typed ← set_type sized get_urcontrol_version
  ret (some typed)

-- The body of `rtde_mkreq_msg_out`, behind its checks: the header with the length of the text,
-- then the text and the source.
msg_header : Bytes → ℕ → ℕ → Run Bytes
unfolding set_size set_type write
msg_header rtde msgsz srcsz = do
  let size = sizeof_header + msgsz + srcsz + 3
  typed ← set_type rtde text_message
  sized ← set_size typed size
  write sized 3 ((msgsz % 256) ∷ [])

write_msg : Bytes → Bytes → ℕ → Bytes → ℕ → Run Bytes
unfolding msg_header slice write
write_msg rtde msg msgsz src srcsz = do
  measured ← msg_header rtde msgsz srcsz
  text ← slice msg 0 msgsz
  texted ← write measured 4 text
  counted ← write texted (4 + msgsz) ((srcsz % 256) ∷ [])
  source ← slice src 0 srcsz
  sourced ← write counted (4 + msgsz + 1) source
  write sourced (4 + msgsz + 1 + srcsz) (message_code exception_message ∷ [])

-- `rtde` is a block of `rtde_msg_get`; `msgsz` and `srcsz` count the terminating zeros.
unfoldable pub rtde_mkreq_msg_out :
    Option Bytes → Option Bytes → ℕ → Option Bytes → ℕ → Run (Option Bytes)
unfolding write_msg
rtde_mkreq_msg_out (some rtde) (some msg) msgsz (some src) srcsz =
    if ltb 0xff msgsz || ltb 0xff srcsz
    then ret none
    else write_msg rtde msg msgsz src srcsz >>= λ full. ret (some full)
rtde_mkreq_msg_out _ _ msgsz _ srcsz = ret none

-- `rtde_control_package_`, whose result is the header that it fills in.
unfoldable pub rtde_control_package : Bytes → Bool → Run Bytes
unfolding set_size set_type
rtde_control_package sp starting = do
  sized ← set_size sp sizeof_header
  set_type sized (if starting then control_package_start else control_package_pause)
