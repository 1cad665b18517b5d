-- ===== src/Token/Store.antt =====
-- What a field writes, and that another field of its type reads it back.
use mathlib.Core.Path.{subst}
use mathlib.Core.List.{append-nil, reverse-reverse}
use lib_urx.Base.{
  All-append, take_all, if◌then◌else◌, ◌==◌, ℕ, zero, suc, ◌+◌, ◌*◌, ◌≤◌, ◌<◌, ◌≡◌, refl, ap, ◌∙◌,
  true, ◌∷◌, [], reverse, take, drop, length, length-reverse, length-append, length-take,
  length-drop, ret, arith, take_all, if◌then◌else◌, ◌==◌,
}
use lib_urx.Bytes.{reverse-AreBytes, Bytes, AreBytes, le_value, bswap}
use lib_urx.Memory.{Ram, peek, poke, store, patch, write}
use lib_urx.Memory.Laws.{
  patch-AreBytes, take-AreBytes, drop-AreBytes, store_lem, write_lem, length-peek, length-patch,
  patch_self, peek-poke_self,
}
use lib_urx.Magic.Types.{DataType, bool, uint8, uint32, int32, double, rtde_datasize}
use lib_urx.Magic.Lookup.Laws.{is_input_type}
use lib_urx.Token.{token_store, token_parser}
use lib_urx.Token.Laws.{
  word_count, word_size, swap_words, le_bytes-bswap-le_value, is_copied, token_parser_lem,
  reverse_one,
}

-- Every cell of the memory holds a byte.
abbrev pub IsRam : Ram → Type 0
IsRam m = (a : ℕ) → m a < 256

pub peek-AreBytes : (m : Ram) (a n : ℕ) → IsRam m → AreBytes (peek m a n)
unfolding peek
peek-AreBytes m a zero h = tt
peek-AreBytes m a (suc n) h = (h a, peek-AreBytes m (suc a) n h)

pub poke-IsRam : (m : Ram) (a : ℕ) (bs : Bytes) → IsRam m → AreBytes bs → IsRam (poke m a bs)
unfolding poke
poke-IsRam m a [] h b = h
poke-IsRam m a (c ∷ bs) h b =
    poke-IsRam (λ x. if x == a then c else m x) (suc a) bs (λ x. ground (arith, h x)) b.1

pub swap_one : (w : ℕ) (bs : Bytes) → length bs ≡ w → swap_words 1 w bs ≡ reverse bs
unfolding swap_words
swap_one w bs e = rw (← e, take_all bs, append-nil)

store_word :
    (w off t : ℕ) (ram : Ram) (buf : Bytes)
    → IsRam ram
    → off + w ≤ length buf
    → store w buf off (bswap w (le_value (peek ram t w)))
      ≡ ret (patch buf off (swap_words 1 w (peek ram t w)))
store_word w off t ram buf r h = rw (
  store_lem w buf off (bswap w (le_value (peek ram t w))) h,
  le_bytes-bswap-le_value w (peek ram t w) (peek-AreBytes ram t w r) (length-peek ram t w),
  swap_one w (peek ram t w) (length-peek ram t w),
)

store_byte :
    (off t : ℕ) (ram : Ram) (buf : Bytes)
    → off + 1 ≤ length buf
    → write buf off (peek ram t 1) ≡ ret (patch buf off (swap_words 1 1 (peek ram t 1)))
store_byte off t ram buf h =
    let len = length-peek ram t 1 in
    rw (
      write_lem buf off (peek ram t 1) (omega (arith, len)),
      swap_one 1 (peek ram t 1) len,
      reverse_one (peek ram t 1) len,
    )

-- The types of inputs are single words.
pub input_word :
    (ty : DataType)
    → is_input_type ty ≡ true
    → (word_count ty ≡ 1) × (rtde_datasize ty ≡ word_size ty)
unfolding rtde_datasize
input_word bool h = (refl, refl)
input_word uint8 h = (refl, refl)
input_word uint32 h = (refl, refl)
input_word int32 h = (refl, refl)
input_word double h = (refl, refl)
input_word _ h = cc

-- A field writes its own bytes of the package, in network order, and no other.
pub token_store_lem :
    (ty : DataType) (off t : ℕ) (ram : Ram) (buf : Bytes)
    → is_input_type ty ≡ true
    → IsRam ram
    → off + rtde_datasize ty ≤ length buf
    → token_store ty off t ram buf
      ≡ ret (
          patch buf off (swap_words (word_count ty) (word_size ty) (peek ram t (rtde_datasize ty))))
unfolding token_store rtde_datasize
token_store_lem bool off t ram buf c r h = store_byte off t ram buf h
token_store_lem uint8 off t ram buf c r h = store_byte off t ram buf h
token_store_lem uint32 off t ram buf c r h = store_word 4 off t ram buf r h
token_store_lem int32 off t ram buf c r h = store_word 4 off t ram buf r h
token_store_lem double off t ram buf c r h = store_word 8 off t ram buf r h
token_store_lem _ off t ram buf c r h = cc

pub length-swap_words :
    (n w : ℕ) (bs : Bytes) → n * w ≤ length bs → length (swap_words n w bs) ≡ n * w
unfolding swap_words
length-swap_words zero w bs h = omega arith
length-swap_words (suc n) w bs h = omega (
  arith,
  length-append (reverse (take w bs)) (swap_words n w (drop w bs)),
  length-reverse (take w bs),
  length-take w bs,
  length-drop w bs,
  length-swap_words n w (drop w bs) (omega (arith, length-drop w bs, h)),
)

pub swap_words-AreBytes : (n w : ℕ) (bs : Bytes) → AreBytes bs → AreBytes (swap_words n w bs)
unfolding swap_words
swap_words-AreBytes zero w bs h = tt
swap_words-AreBytes (suc n) w bs h =
    All-append (λ b. b < 256) (reverse (take w bs)) (swap_words n w (drop w bs))
      (reverse-AreBytes (take w bs) (take-AreBytes w bs h))
      (swap_words-AreBytes n w (drop w bs) (drop-AreBytes w bs h))

-- A word that is written in network order is read back.
swap_back :
    (w off : ℕ) (bs buf : Bytes)
    → length bs ≡ w
    → off + w ≤ length buf
    → swap_words 1 w (drop off (patch buf off (swap_words 1 w bs))) ≡ bs
swap_back w off bs buf e h =
    let len : length (reverse bs) ≡ w = length-reverse bs ∙ e in
    let there : take w (drop off (patch buf off (reverse bs))) ≡ reverse bs =
      subst (λ k. take k (drop off (patch buf off (reverse bs))) ≡ reverse bs) len
        (patch_self buf off (reverse bs) (omega (arith, len, h))) in
    rw (swap_one w bs e) (unfold swap_words in rw (there, append-nil) (reverse-reverse bs))

-- For every type but BOOL that an input can have: what one field stores, a field of the same type
-- and offset that parses the package leaves at its own storage, byte for byte.
pub token_parser-token_store :
    (ty : DataType) (off t u : ℕ) (ram : Ram) (buf : Bytes)
    → is_input_type ty ≡ true
    → is_copied ty ≡ true
    → IsRam ram
    → AreBytes buf
    → off + rtde_datasize ty ≤ length buf
    → (b : Bytes) × (m : Ram) × (token_store ty off t ram buf ≡ ret b)
      × (token_parser ty off u ram b ≡ ret (m, b))
      × (peek m u (rtde_datasize ty) ≡ peek ram t (rtde_datasize ty))
token_parser-token_store ty off t u ram buf i c r b h =
    let size = rtde_datasize ty in
    let bs = peek ram t size in
    let len = length-peek ram t size in
    let (one, word) = input_word ty i in
    let sent = swap_words (word_count ty) (word_size ty) bs in
    let pkg = patch buf off sent in
    let back : swap_words (word_count ty) (word_size ty) (drop off pkg) ≡ bs =
      rw (one, ← word) (swap_back size off bs buf len h) in
    (
      pkg,
      poke ram u bs,
      token_store_lem ty off t ram buf i r h,
      token_parser_lem ty off u ram pkg c
            (patch-AreBytes buf off sent b
              (swap_words-AreBytes _ _ bs (peek-AreBytes ram t size r)))
            (omega (arith, length-patch buf off sent, h))
          ∙ ap (λ x. ret (poke ram u x, pkg)) back,
      subst (λ k. peek (poke ram u bs) u k ≡ bs) len (peek-poke_self ram u bs),
    )
