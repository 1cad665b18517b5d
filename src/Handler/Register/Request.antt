-- ===== src/Handler/Register/Request.antt =====
-- What the registration of an output recipe asks for.
use lib_urx.Base.{ℕ, ◌≡◌, ◌<◌, ◌+◌, true, [], ◌∷◌, ◌++◌, length, some, ret, arith, ◌/◌, ◌%◌}
use lib_urx.Bytes.{Bytes}
use lib_urx.Memory.Frames.{Begins}
use lib_urx.Header.Package.{hdr_size}
use lib_urx.Header.Package.Laws.{be16, hdr_size-be16}
use lib_urx.Header.Control.Laws.{control_msg_out_frame}
use lib_urx.Recipe.{Recipe, get_msg, get_fields}

pub size_of :
    (b tail : Bytes) (n k : ℕ) → Begins k (be16 n ++ tail) b → n < 65536 → hdr_size b ≡ ret n
size_of (x ∷ y ∷ r) tail n k h small =
    let ex : x ≡ n / 256 % 256 = cc h.start in
    let ey : y ≡ n % 256 = cc h.start in rw (ex, ey) (hdr_size-be16 n r small)
size_of (x ∷ []) tail n k h small = cc h.start
size_of [] tail n k h small = cc h.start

-- What the recipe asks for.
pub asked :
    (r : Recipe) (names c : Bytes)
    → r.dir_out ≡ true
    → r.cpo ≡ some c
    → length c ≡ 2048
    → get_fields r ≡ ret names
    → length names < 2037
    → (b : Bytes) × (get_msg r ≡ ret (record r { cpo = some b }, some b))
      × (hdr_size b ≡ ret (11 + length names))
      × (length b ≡ 2048)
unfolding get_msg
asked r names c d e len f short =
    let (b, run, h) = control_msg_out_frame c names len short in
    (b, simp (f, d, e, run), size_of b _ (11 + length names) 2048 h (omega (arith, short)), h.size)
