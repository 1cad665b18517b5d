-- ===== src/Header/Responses/Laws.antt =====
-- The answers that are accepted, and what is read from them.
use lib_urx.Base.{
  ℕ, ◌+◌, ◌≡◌, ◌<◌, ◌≤◌, ◌⊎◌, true, List, ◌∷◌, ◌++◌, some, none, length, reverse, ret, arith, ◌^◌,
  if◌then◌else◌, ◌==◌, ◌&&◌, ◌-◌, ◌/◌, ◌%◌,
}
use lib_urx.Bytes.{Bytes, le_bytes, le_value, bswap, bswap-bswap, ntohl}
use lib_urx.Memory.{load}
use lib_urx.Magic.Types.{
  DataType, PackageType, control_package_setup_outputs, control_package_setup_inputs, package_code,
}
use lib_urx.Header.Package.Laws.{be16, basic_hdr_validate_lem, hdr_size-be16, hdr_type_lem}
use lib_urx.Header.Responses.{
  rtde_control_package_resp_validate, UrVersion, rtde_parse_urctrl_resp, ur_version, load,
}
use lib_urx.Header.Responses.Items.{name_head, types_tail, all_usable}
use lib_urx.Header.Responses.Scan.{scan_text}

-- "T1,T2,...,Tn".
abbrev pub types_text : DataType → List DataType → Bytes
types_text t ts = name_head t ∷ types_tail t ts

-- A response of the controller to the setup of a recipe.
abbrev pub setup_response : PackageType → ℕ → Bytes → Bytes → Bytes
setup_response kind id text rest =
    be16 (4 + length text) ++ (package_code kind ∷ id ∷ (text ++ (0 ∷ rest)))

-- A response that lists the types of the variables, in a buffer with anything behind it, is valid
-- exactly if no listed type is NOT_FOUND or IN_USE, for an output recipe and for an input recipe.
pub resp_validate_types :
    (kind : PackageType) (id : ℕ) (t : DataType) (ts : List DataType) (rest : Bytes)
    → (kind ≡ control_package_setup_outputs) ⊎ (kind ≡ control_package_setup_inputs)
    → 4 + length (types_text t ts) ≤ 2000
    → rtde_control_package_resp_validate (some (setup_response kind id (types_text t ts) rest))
      ≡ ret (all_usable (t ∷ ts))
unfolding rtde_control_package_resp_validate
resp_validate_types kind id t ts rest k fits =
    let text = types_text t ts in
    let body = id ∷ (text ++ (0 ∷ rest)) in
    let n = 4 + length text in
    let left : n - 4 ≡ length text = omega arith in
    let known : (package_code kind ≡ 79) ⊎ (package_code kind ≡ 73) = ground (arith, k) in
    rw
      (
        basic_hdr_validate_lem n (package_code kind) body control_package_setup_outputs
            (omega arith),
        basic_hdr_validate_lem n (package_code kind) body control_package_setup_inputs
            (omega arith),
        hdr_size-be16 n (package_code kind ∷ body) (omega arith),
        left,
        scan_text t ts rest,
      )
      (ground arith)

abbrev be32 : ℕ → Bytes
be32 v = reverse (le_bytes 4 v)

ntohl_lem : (v : ℕ) → v < 2 ^ 32 → ntohl (le_value (be32 v)) ≡ v
unfolding bswap
ntohl_lem v h = bswap-bswap 4 v h

abbrev pub version_bytes : UrVersion → Bytes → Bytes
version_bytes v rest = be32 v.major ++ (be32 v.minor ++ (be32 v.bugfix ++ (be32 v.build ++ rest)))

ur_version_lem :
    (v : UrVersion) (a b c : ℕ) (rest : Bytes)
    → v.major < 2 ^ 32
    → v.minor < 2 ^ 32
    → v.bugfix < 2 ^ 32
    → v.build < 2 ^ 32
    → ur_version (a ∷ b ∷ c ∷ version_bytes v rest) ≡ ret v
unfolding ur_version load le_bytes
ur_version_lem v a b c rest h1 h2 h3 h4 =
    cc (ntohl_lem v.major h1, ntohl_lem v.minor h2, ntohl_lem v.bugfix h3, ntohl_lem v.build h4)

-- The version that the controller sends in network order is read back in host order, if the size and
-- the type of the package are those of a version; otherwise nothing is read.
pub parse_urctrl_resp_version :
    (v : UrVersion) (size type : ℕ) (rest : Bytes)
    → size < 65536
    → v.major < 2 ^ 32
    → v.minor < 2 ^ 32
    → v.bugfix < 2 ^ 32
    → v.build < 2 ^ 32
    → rtde_parse_urctrl_resp (some (be16 size ++ (type ∷ version_bytes v rest))) true
      ≡ ret (if size == 19 && type == b'v' then some v else none)
unfolding rtde_parse_urctrl_resp
parse_urctrl_resp_version v size type rest hs h1 h2 h3 h4 =
    rw
      (
        hdr_size-be16 size (type ∷ version_bytes v rest) hs,
        hdr_type_lem (size / 256 % 256) (size % 256) type (version_bytes v rest),
        ur_version_lem v (size / 256 % 256) (size % 256) type rest h1 h2 h3 h4,
      )
      (ground arith)
