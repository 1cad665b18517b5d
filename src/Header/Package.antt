-- ===== src/Header/Package.antt =====
-- The blocks that hold packages, and the header that every package begins with: its size in
-- network order at offset 0 and its type at offset 2. The offsets below are those of the packed
-- structures of include/urx/header.hpp.
pub mod Laws
use lib_urx.Base.{
  ℕ, Bool, false, ◌||◌, ltb, ◌==◌, if◌then◌else◌, ◌∷◌, [], Option, none, some, replicate, Run, ret,
  ◌>>=◌,
}
use lib_urx.Bytes.{Bytes, htons, ntohs, bswap}
use lib_urx.Memory.{load, store, write, patch}
use lib_urx.Magic.Types.{PackageType, package_code}

-- sizeof(struct rtde_header), sizeof(struct rtde_prot), and so on.
abbrev pub sizeof_header : ℕ
sizeof_header = 3

abbrev pub sizeof_prot : ℕ
sizeof_prot = 5

abbrev pub sizeof_msg : ℕ
sizeof_msg = 4

abbrev pub sizeof_control_package_out : ℕ
sizeof_control_package_out = 11

abbrev pub sizeof_control_package_in : ℕ
sizeof_control_package_in = 3

abbrev pub sizeof_control_package_resp : ℕ
sizeof_control_package_resp = 4

abbrev pub sizeof_data_package : ℕ
sizeof_data_package = 4

-- `rtde_hdr_get`: a zeroed block of 2048 bytes with its type set, or NULL where calloc fails.
unfoldable pub rtde_hdr_get : Bool → PackageType → Option Bytes
unfolding patch
rtde_hdr_get allocated t =
    if allocated then some (patch (replicate 2048 0) 2 (package_code t ∷ [])) else none

-- ntohs(hdr->size) and hdr->type, and the assignments to them.
unfoldable pub hdr_size : Bytes → Run ℕ
unfolding load bswap
hdr_size buf = do v ← load 2 buf 0; ret (ntohs v)

unfoldable pub hdr_type : Bytes → Run ℕ
unfolding load
hdr_type buf = load 1 buf 2

unfoldable pub set_size : Bytes → ℕ → Run Bytes
unfolding store bswap
set_size buf v = store 2 buf 0 (htons v)

unfoldable pub set_type : Bytes → PackageType → Run Bytes
unfolding write
set_type buf t = write buf 2 (package_code t ∷ [])

unfoldable pub basic_hdr_validate : Option Bytes → PackageType → Run Bool
basic_hdr_validate none t = ret false
basic_hdr_validate (some hdr) t = do
  sz ← hdr_size hdr
  ty ← hdr_type hdr
  ret (if ltb sz sizeof_header || ltb 2000 sz then false else ty == package_code t)
