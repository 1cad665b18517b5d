-- ===== src/Header/Control.antt =====
-- The packages of src/header.cpp that set up a recipe and that carry its values.
pub mod Laws
use lib_urx.Base.{
  ℕ, ◌+◌, ◌-◌, ◌%◌, Bool, true, false, ◌||◌, ltb, ◌==◌, if◌then◌else◌, ◌∷◌, [], Option, none, some,
  length, Run, fault, ret, ◌>>=◌, ℤ, pos, negsuc,
}
use lib_urx.Bytes.{Bytes, htons, bswap}
use lib_urx.Double.{double_lt, double_1, double_125}
use lib_urx.Memory.{store, write}
use lib_urx.Magic.Types.{
  PackageType, control_package_setup_outputs, control_package_setup_inputs, data_package,
}
use lib_urx.Header.Package.{
  sizeof_header, sizeof_control_package_out, sizeof_control_package_in, sizeof_data_package,
  rtde_hdr_get, hdr_size, set_size, set_type,
}

-- A block that is fresh from `rtde_hdr_get`, filled in; NULL stays NULL.
abbrev on_block : Option Bytes → (Bytes → Run Bytes) → Run (Option Bytes)
on_block none fill = ret none
on_block (some block) fill = fill block >>= λ full. ret (some full)

-- The frequency is the 64 bits of a double. It is stored in host order.
unfoldable pub rtde_control_msg_get : Bool → ℕ → Run (Option Bytes)
unfolding double_lt rtde_hdr_get set_size store
rtde_control_msg_get allocated freq =
    if double_lt freq double_1 || double_lt double_125 freq
    then ret none
    else on_block (rtde_hdr_get allocated control_package_setup_outputs)
        λ cp. set_size cp sizeof_control_package_out >>= λ sized. store 8 sized 3 freq

unfoldable pub rtde_control_get_in : Bool → Run (Option Bytes)
unfolding rtde_hdr_get set_size
rtde_control_get_in allocated =
    on_block (rtde_hdr_get allocated control_package_setup_inputs)
      λ inp. set_size inp sizeof_control_package_in

unfoldable pub rtde_control_msg_clear : Bytes → Bool → Run Bytes
unfolding set_size set_type store write
rtde_control_msg_clear hdr true = do
  typed ← set_type hdr control_package_setup_outputs
  sized ← set_size typed sizeof_control_package_out
  freed ← store 8 sized 3 0
  write freed sizeof_control_package_out (0 ∷ [])
rtde_control_msg_clear hdr false = do
  sized ← set_size hdr sizeof_control_package_in
  typed ← set_type sized control_package_setup_inputs
  write typed sizeof_control_package_in (0 ∷ [])

-- What `rtde_control_msg_in` and `rtde_control_msg_out` share: the list of variables behind the
-- header, its terminating 0, and the new size.
append_variables : Bytes → ℕ → Bytes → Run Bytes
unfolding write hdr_size set_size
append_variables cp at payload = do
  copied ← write cp at payload
  terminated ← write copied (at + length payload) (0 ∷ [])
  sz ← hdr_size terminated
  set_size terminated (sz + length payload)

-- The payload is a C string, without its terminating 0.
unfoldable pub rtde_control_msg_in : Option Bytes → Option Bytes → Run (Option Bytes)
unfolding rtde_control_msg_clear append_variables
rtde_control_msg_in (some cpi) (some payload) =
    if ltb (2048 - sizeof_control_package_in) (length payload)
    then ret none
    else on_block (some cpi) λ b.
      rtde_control_msg_clear b false >>= λ c. append_variables c sizeof_control_package_in payload
rtde_control_msg_in _ _ = ret none

unfoldable pub rtde_control_msg_out : Option Bytes → Option Bytes → Run (Option Bytes)
unfolding rtde_control_msg_clear append_variables
rtde_control_msg_out (some cpo) (some payload) =
    if ltb (2048 - sizeof_control_package_out) (length payload)
    then ret none
    else on_block (some cpo) λ b.
      rtde_control_msg_clear b true >>= λ c. append_variables c sizeof_control_package_out payload
rtde_control_msg_out _ _ = ret none

-- The index `sz - sizeof(*cpo)` behind the fixed part is the offset `sz` of the package.
unfoldable pub rtde_control_msg_finalize : Bytes → Run Bytes
unfolding hdr_size write set_size
rtde_control_msg_finalize cpo = do
  sz ← hdr_size cpo
  let dropped = write cpo sz (0 ∷ []) >>= λ b. set_size b sz
  if sz == sizeof_header then ret cpo else dropped

-- The low byte of an int.
unfoldable pub low_byte : ℤ → ℕ
low_byte (pos n) = n % 256
low_byte (negsuc n) = 255 - n % 256

unfoldable pub rtde_data_package_init : Option Bytes → ℤ → ℕ → Run (Option Bytes)
unfolding set_type set_size write low_byte
rtde_data_package_init none recipe_id bytes = ret none
rtde_data_package_init (some dp) recipe_id bytes = do
  typed ← set_type dp data_package
  sized ← set_size typed (sizeof_data_package + bytes)
  full ← write sized 3 (low_byte recipe_id ∷ [])
  ret (some full)
