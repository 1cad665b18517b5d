-- ===== src/Header/Package/Laws.antt =====
-- The header fields of a buffer whose first bytes are known.
use lib_urx.Base.{
  ℕ, ◌+◌, ◌*◌, ◌/◌, ◌%◌, ◌≡◌, ◌<◌, refl, ap, ◌∷◌, [], ◌++◌, ret, arith, ◌∙◌, some, if◌then◌else◌,
  ltb, ◌||◌, false, ◌==◌,
}
use lib_urx.Bytes.{Bytes}
use lib_urx.Memory.Frames.{Begins, Yields}
use lib_urx.Magic.Types.{PackageType, package_code}
use lib_urx.Header.Package.{hdr_size, hdr_type, set_size, set_type, basic_hdr_validate}

-- A 16-bit number in network order.
abbrev pub be16 : ℕ → Bytes
be16 v = (v / 256 % 256) ∷ (v % 256) ∷ []

pub set_size_lem : (a b v : ℕ) (r : Bytes) → set_size (a ∷ b ∷ r) v ≡ ret (be16 v ++ r)
unfolding set_size
set_size_lem a b v r = ground arith

pub set_type_lem :
    (a b c : ℕ) (t : PackageType) (r : Bytes)
    → set_type (a ∷ b ∷ c ∷ r) t ≡ ret (a ∷ b ∷ package_code t ∷ r)
unfolding set_type
set_type_lem a b c t r = refl

pub hdr_size_lem :
    (a b : ℕ) (r : Bytes) → a < 256 → b < 256 → hdr_size (a ∷ b ∷ r) ≡ ret (256 * a + b)
unfolding hdr_size
hdr_size_lem a b r ha hb = ap ret (omega arith)

pub hdr_type_lem : (a b c : ℕ) (r : Bytes) → hdr_type (a ∷ b ∷ c ∷ r) ≡ ret c
unfolding hdr_type
hdr_type_lem a b c r = ap ret (omega arith)

-- A buffer that begins with a header: its size as it is read, and after it is set.
pub resize :
    {n : ℕ} (a b v : ℕ) (rest buf : Bytes)
    → Begins n (a ∷ b ∷ rest) buf
    → a < 256
    → b < 256
    → (hdr_size buf ≡ ret (256 * a + b)) × Yields n (be16 v ++ rest) (set_size buf v)
resize a b v rest (x ∷ y ∷ r) h ha hb =
    let ex : x ≡ a = cc h.start in
    let ey : y ≡ b = cc h.start in
    (
      hdr_size_lem x y r (omega arith) (omega arith) ∙ ap ret (omega arith),
      (be16 v ++ r, set_size_lem x y v r, record { size = h.size; start = cc h.start }),
    )
resize a b v rest [] h ha hb = cc h.start
resize a b v rest (x ∷ []) h ha hb = cc h.start

pub hdr_size-be16 : (n : ℕ) (r : Bytes) → n < 65536 → hdr_size (be16 n ++ r) ≡ ret n
hdr_size-be16 n r h =
    hdr_size_lem (n / 256 % 256) (n % 256) r (omega arith) (omega arith) ∙ ap ret (omega arith)

pub basic_hdr_validate_lem :
    (n c : ℕ) (r : Bytes) (t : PackageType)
    → n < 65536
    → basic_hdr_validate (some (be16 n ++ (c ∷ r))) t
      ≡ ret (if ltb n 3 || ltb 2000 n then false else c == package_code t)
unfolding basic_hdr_validate
basic_hdr_validate_lem n c r t h =
    rw (hdr_size-be16 n (c ∷ r) h, hdr_type_lem (n / 256 % 256) (n % 256) c r)
