-- ===== src/Bytes.antt =====
-- Words and their bytes. The host is little-endian (as the tests of the repository assume), so a
-- load of n bytes reads them least significant first, and htons, htonl, htobe64 and their inverses
-- all reverse the bytes of a word.
use mathlib.Core.List.{reverse-reverse, reverse-cons}
use native.Mathlib.Nat.{pow-suc}
use lib_urx.Base.{
  Bool, true, ltb, ◌&&◌, ℕ, zero, suc, ◌+◌, ◌*◌, ◌/◌, ◌%◌, ◌^◌, ◌<◌, ◌≡◌, refl, ap, ◌∙◌, List, [],
  ◌∷◌, reverse, length, length-reverse, All, All-append, arith,
}

abbrev pub Bytes : Type 0
Bytes = List ℕ

abbrev pub AreBytes : Bytes → Type 0
AreBytes = All (λ b. b < 256)

-- The word that a little-endian load of these bytes gives.
unfoldable pub le_value : Bytes → ℕ
le_value [] = 0
le_value (b ∷ bs) = b + 256 * le_value bs

-- The n bytes that a little-endian store of a word writes.
unfoldable pub le_bytes : ℕ → ℕ → Bytes
le_bytes zero v = []
le_bytes (suc n) v = (v % 256) ∷ le_bytes n (v / 256)

-- The number that bytes in network order stand for.
unfoldable pub be_value : Bytes → ℕ
unfolding le_value
be_value bs = le_value (reverse bs)

-- htobe and betoh of an n-byte word on a little-endian host.
unfoldable pub bswap : ℕ → ℕ → ℕ
unfolding le_value le_bytes
bswap n v = le_value (reverse (le_bytes n v))

abbrev pub htons : ℕ → ℕ
htons = bswap 2

abbrev pub ntohs : ℕ → ℕ
ntohs = bswap 2

abbrev pub ntohl : ℕ → ℕ
ntohl = bswap 4

pub length-le_bytes : (n v : ℕ) → length (le_bytes n v) ≡ n
unfolding le_bytes
length-le_bytes zero v = refl
length-le_bytes (suc n) v = ap suc (length-le_bytes n (v / 256))

pub le_bytes-AreBytes : (n v : ℕ) → AreBytes (le_bytes n v)
unfolding le_bytes
le_bytes-AreBytes zero v = tt
le_bytes-AreBytes (suc n) v = (omega arith, le_bytes-AreBytes n (v / 256))

pub le_bytes-le_value : (bs : Bytes) → AreBytes bs → le_bytes (length bs) (le_value bs) ≡ bs
unfolding le_bytes le_value
le_bytes-le_value [] h = refl
le_bytes-le_value (b ∷ bs) h =
    let low : (b + 256 * le_value bs) % 256 ≡ b = omega arith in
    let high : (b + 256 * le_value bs) / 256 ≡ le_value bs = omega arith in
    rw (low, high) (ap (◌∷◌ b) (le_bytes-le_value bs h.1))

pub le_value-le_bytes : (n v : ℕ) → v < 256 ^ n → le_value (le_bytes n v) ≡ v
unfolding le_bytes le_value
le_value-le_bytes zero v h = omega arith
le_value-le_bytes (suc n) v h =
    let ih = le_value-le_bytes n (v / 256) (omega (arith, pow-suc 256 n)) in omega (arith, ih)

pub reverse-AreBytes : (bs : Bytes) → AreBytes bs → AreBytes (reverse bs)
reverse-AreBytes [] h = tt
reverse-AreBytes (b ∷ bs) h =
    rw (reverse-cons b bs)
      (All-append (λ x. x < 256) (reverse bs) (b ∷ []) (reverse-AreBytes bs h.1) (h.0, tt))

-- The bytes of a swapped word are the bytes of the word, reversed.
pub le_bytes-bswap : (n v : ℕ) → le_bytes n (bswap n v) ≡ reverse (le_bytes n v)
unfolding bswap
le_bytes-bswap n v =
    let len : length (reverse (le_bytes n v)) ≡ n =
      length-reverse (le_bytes n v) ∙ length-le_bytes n v in
    rw len at
      (le_bytes-le_value (reverse (le_bytes n v)) (reverse-AreBytes _ (le_bytes-AreBytes n v)))

pub bswap-bswap : (n v : ℕ) → v < 256 ^ n → bswap n (bswap n v) ≡ v
unfolding bswap
bswap-bswap n v h =
    ap (λ bs. le_value (reverse bs)) (le_bytes-bswap n v)
    ∙ ap le_value (reverse-reverse (le_bytes n v))
    ∙ le_value-le_bytes n v h

-- A swapped load of bytes is their value in network order, and storing it leaves them reversed.
pub bswap-le_value : (bs : Bytes) → AreBytes bs → bswap (length bs) (le_value bs) ≡ be_value bs
unfolding bswap be_value
bswap-le_value bs h = ap (λ xs. le_value (reverse xs)) (le_bytes-le_value bs h)

pub le_bytes-be_value : (bs : Bytes) → AreBytes bs → le_bytes (length bs) (be_value bs) ≡ reverse bs
unfolding be_value
le_bytes-be_value bs h =
    rw (length-reverse bs) at (le_bytes-le_value (reverse bs) (reverse-AreBytes bs h))

abbrev pub check : Bytes → Bool
check [] = true
check (b ∷ bs) = ltb b 256 && check bs

pub check-AreBytes : (bs : Bytes) → check bs ≡ true → AreBytes bs
check-AreBytes [] h = tt
check-AreBytes (b ∷ bs) h = (ground (arith, h), check-AreBytes bs (ground (arith, h)))
