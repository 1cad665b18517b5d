-- ===== src/Header/Responses.antt =====
-- The checks of src/header.cpp on what the controller answers.
pub mod Laws
pub mod Items
pub mod Scan
use lib_urx.Base.{
  ℕ, zero, suc, ◌+◌, ◌-◌, Bool, true, false, not, ◌&&◌, ◌||◌, ltb, leb, ◌==◌, if◌then◌else◌, List,
  ◌∷◌, [], Option, none, some, drop, Run, fault, ret, ◌>>=◌,
}
use lib_urx.Bytes.{Bytes, ntohl, bswap}
use lib_urx.Memory.{load}
use lib_urx.Magic.Types.{
  PackageType, request_protocol_version, get_urcontrol_version, control_package_setup_outputs,
  control_package_setup_inputs, control_package_start, control_package_pause, data_package,
  package_code, DataType, not_found, in_use, same_type, data_name_to_type,
}
use lib_urx.Header.Package.{
  sizeof_control_package_resp, sizeof_data_package, hdr_size, hdr_type, basic_hdr_validate,
}

unfoldable pub rtde_parse_prot_version : Option Bytes → Run Bool
unfolding hdr_size hdr_type load
rtde_parse_prot_version none = ret false
rtde_parse_prot_version (some header) = do
  sz ← hdr_size header
  ty ← hdr_type header
  accepted ← load 1 header 3
  ret (
      if not (sz == 4) || not (ty == package_code request_protocol_version)
      then false
      else not (accepted == 0))

-- `struct rtde_ur_ver_payload`, in host order.
pub record UrVersion : Type 0 where
  pub major : ℕ
  pub minor : ℕ
  pub bugfix : ℕ
  pub build : ℕ

unfoldable pub ur_version : Bytes → Run UrVersion
ur_version header = do
  a ← load 4 header 3
  b ← load 4 header 7
  c ← load 4 header 11
  d ← load 4 header 15
  ret (record { major = ntohl a; minor = ntohl b; bugfix = ntohl c; build = ntohl d })

-- The second argument says whether `payload` is there; the result is what it is set to, or `none`
-- where the function returns false.
unfoldable pub rtde_parse_urctrl_resp : Option Bytes → Bool → Run (Option UrVersion)
rtde_parse_urctrl_resp (some header) true = do
  sz ← hdr_size header
  ty ← hdr_type header
  let version = ur_version header >>= λ v. ret (some v)
  if not (sz == 19) || not (ty == package_code get_urcontrol_version) then ret none else version
rtde_parse_urctrl_resp _ payload = ret none

-- `*ptr == ',' || *(ptr + 1) == 0x00`, at the byte `c` with `rest` behind it.
unfoldable pub ends_item : ℕ → Bytes → Run Bool
unfolding load
ends_item c rest =
    let next = load 1 rest 0 >>= λ n. ret (n == 0) in if c == b',' then ret true else next

unfoldable pub is_unusable : DataType → Bool
is_unusable t = same_type t not_found || same_type t in_use

-- The loop of `rtde_control_package_resp_validate`. The pointers `start` and `ptr` are the bytes
-- from there to the end of the buffer, `sz` is `ptr - start` and `left` is `end - ptr`. Each round
-- takes one off `fuel`.
unfoldable pub scan_items : ℕ → ℕ → Bytes → ℕ → Bytes → Run Bool
unfolding ends_item is_unusable data_name_to_type
scan_items zero left start sz ptr = fault
scan_items (suc fuel) zero start sz ptr = ret true
scan_items (suc fuel) (suc left) start sz [] = fault
scan_items (suc fuel) (suc left) start sz (c ∷ rest) = elim (ends_item c rest) [
  | fault ↦ fault
  | ret true ↦ elim (is_unusable (data_name_to_type (some start) sz)) [
    | true ↦ ret false
    | false ↦ scan_items fuel (left - 1) rest 1 (drop 1 rest)
  ]
  | ret false ↦ scan_items fuel left start (suc sz) rest
]

-- The response stands at the start of its buffer, which reaches past the response. The `end` of the
-- source is the offset of the size, and the scan starts behind the fixed part.
unfoldable pub rtde_control_package_resp_validate : Option Bytes → Run Bool
rtde_control_package_resp_validate none = ret false
rtde_control_package_resp_validate (some resp) = do
  is_out ← basic_hdr_validate (some resp) control_package_setup_outputs
  is_in ← basic_hdr_validate (some resp) control_package_setup_inputs
  sz ← hdr_size resp
  let start = drop sizeof_control_package_resp resp
  let left = sz - sizeof_control_package_resp
  let scan = scan_items (suc left) left start 0 start
  if not is_out && not is_in then ret false else scan

unfoldable pub rtde_parse_data_package : Option Bytes → Run Bool
rtde_parse_data_package none = ret false
rtde_parse_data_package (some pkg) = do
  id ← load 1 pkg 3
  ty ← hdr_type pkg
  sz ← hdr_size pkg
  ret (
      if id == 0
      then false
      else if not (ty == package_code data_package)
      then false
      else leb sizeof_data_package sz)

unfoldable pub rtde_control_package_sp_resp_validate : Option Bytes → Bool → Run Bool
unfolding hdr_size hdr_type
rtde_control_package_sp_resp_validate none starting = ret false
rtde_control_package_sp_resp_validate (some resp) starting = do
  sz ← hdr_size resp
  ty ← hdr_type resp
  ret (
      if not (sz == 4)
      then false
      else if starting && not (ty == package_code control_package_start)
      then false
      else not (not starting && not (ty == package_code control_package_pause)))
