-- ===== src/Token/Laws.antt =====
-- What a field reads from a package and writes to it: its words with their bytes reversed.
use mathlib.Core.Path.{subst}
use mathlib.Core.List.{append-nil}
use lib_urx.Base.{
  length-reverse, length-take, length-drop, ℕ, zero, suc, ◌+◌, ◌*◌, ◌≤◌, ◌≡◌, refl, ap, ◌∙◌, Bool,
  true, false, ◌∷◌, [], ◌++◌, reverse, take, drop, length, ret, ◌>>=◌, arith, length-take,
  length-drop,
}
use lib_urx.Bytes.{Bytes, AreBytes, le_value, le_bytes, bswap, le_bytes-bswap, le_bytes-le_value}
use lib_urx.Memory.{Ram, poke, load}
use lib_urx.Memory.Laws.{load_lem, poke-append, take-AreBytes, drop-AreBytes, drop-drop}
use lib_urx.Magic.Types.{
  DataType, bool, uint8, uint32, uint64, int32, double, vector3d, vector6d, vector6int32,
  vector6uint32, string, in_use, not_found, rtde_datasize,
}
use lib_urx.Token.{token_parser, parse_elements}

-- How many words a type has, and how many bytes each.
abbrev pub word_count : DataType → ℕ
word_count vector3d = 3
word_count vector6d = 6
word_count vector6int32 = 6
word_count vector6uint32 = 6
word_count in_use = 0
word_count not_found = 0
word_count _ = 1

abbrev pub word_size : DataType → ℕ
word_size uint32 = 4
word_size uint64 = 8
word_size int32 = 4
word_size double = 8
word_size vector3d = 8
word_size vector6d = 8
word_size vector6int32 = 4
word_size vector6uint32 = 4
word_size _ = 1

pub datasize_words : (t : DataType) → rtde_datasize t ≡ word_count t * word_size t
unfolding rtde_datasize
datasize_words bool = refl
datasize_words _ = refl

-- n words of w bytes from the other byte order.
unfoldable pub swap_words : ℕ → ℕ → Bytes → Bytes
swap_words zero w bs = []
swap_words (suc n) w bs = reverse (take w bs) ++ swap_words n w (drop w bs)

-- A swapped load, as it is stored again.
pub le_bytes-bswap-le_value :
    (w : ℕ) (bs : Bytes)
    → AreBytes bs
    → length bs ≡ w
    → le_bytes w (bswap w (le_value bs)) ≡ reverse bs
le_bytes-bswap-le_value w bs h e =
    le_bytes-bswap w (le_value bs)
    ∙ ap reverse (subst (λ k. le_bytes k (le_value bs) ≡ bs) e (le_bytes-le_value bs h))

pub length-word :
    (buf : Bytes) (off w : ℕ) → off + w ≤ length buf → length (take w (drop off buf)) ≡ w
length-word buf off w h = omega (arith, length-take w (drop off buf), length-drop off buf)

parse_elements_lem :
    (n w off t : ℕ) (ram : Ram) (buf : Bytes)
    → AreBytes buf
    → off + n * w ≤ length buf
    → parse_elements n w off t ram buf ≡ ret (poke ram t (swap_words n w (drop off buf)))
unfolding parse_elements swap_words
parse_elements_lem zero w off t ram buf b h = refl
parse_elements_lem (suc n) w off t ram buf b h =
    let word = take w (drop off buf) in
    let word_len : length word ≡ w = length-word buf off w (omega (arith, h)) in
    let swapped : le_bytes w (bswap w (le_value word)) ≡ reverse word =
      le_bytes-bswap-le_value w word (take-AreBytes w _ (drop-AreBytes off buf b)) word_len in
    let rest = swap_words n w (drop (off + w) buf) in
    let joined : poke ram t (reverse word ++ rest) ≡ poke (poke ram t (reverse word)) (t + w) rest =
      subst (λ k. poke ram t (reverse word ++ rest) ≡ poke (poke ram t (reverse word)) (t + k) rest)
        (length-reverse word ∙ word_len) (poke-append ram t (reverse word) rest) in
    rw (load_lem w buf off (omega (arith, h)), swapped, drop-drop w off buf, joined)
      (parse_elements_lem n w (off + w) (t + w) (poke ram t (reverse word)) buf b
        (omega (arith, h)))

-- A word of w bytes.
parse_word :
    (w off t : ℕ) (ram : Ram) (buf : Bytes)
    → AreBytes buf
    → off + w ≤ length buf
    → ◌>>=◌ {B = Ram × Bytes} (load w buf off) (λ v. ret (poke ram t (le_bytes w (bswap w v)), buf))
      ≡ ret (poke ram t (swap_words 1 w (drop off buf)), buf)
unfolding swap_words
parse_word w off t ram buf b h =
    let word = take w (drop off buf) in
    let word_len : length word ≡ w = length-word buf off w h in
    let swapped : le_bytes w (bswap w (le_value word)) ≡ reverse word =
      le_bytes-bswap-le_value w word (take-AreBytes w _ (drop-AreBytes off buf b)) word_len in
    rw (load_lem w buf off h, swapped, append-nil)

pub reverse_one : (bs : Bytes) → length bs ≡ 1 → reverse bs ≡ bs
reverse_one [] h = refl
reverse_one (b ∷ []) h = refl
reverse_one (b ∷ c ∷ bs) h = absurd (omega arith)

parse_byte :
    (off t : ℕ) (ram : Ram) (buf : Bytes)
    → AreBytes buf
    → off + 1 ≤ length buf
    → ◌>>=◌ {B = Ram × Bytes} (load 1 buf off) (λ v. ret (poke ram t (le_bytes 1 v), buf))
      ≡ ret (poke ram t (swap_words 1 1 (drop off buf)), buf)
unfolding swap_words
parse_byte off t ram buf b h =
    let word = take 1 (drop off buf) in
    let word_len : length word ≡ 1 = length-word buf off 1 h in
    let kept : le_bytes 1 (le_value word) ≡ word =
      subst (λ k. le_bytes k (le_value word) ≡ word) word_len
        (le_bytes-le_value word (take-AreBytes 1 _ (drop-AreBytes off buf b))) in
    rw (load_lem 1 buf off h, kept, reverse_one word word_len, append-nil)

-- The types whose value is copied as it is: all that an output can have but BOOL.
abbrev pub is_copied : DataType → Bool
is_copied bool = false
is_copied string = false
is_copied in_use = false
is_copied not_found = false
is_copied _ = true

-- A field reads its own bytes of the package, and writes them to its storage in host order.
pub token_parser_lem :
    (ty : DataType) (off t : ℕ) (ram : Ram) (buf : Bytes)
    → is_copied ty ≡ true
    → AreBytes buf
    → off + rtde_datasize ty ≤ length buf
    → token_parser ty off t ram buf
      ≡ ret (poke ram t (swap_words (word_count ty) (word_size ty) (drop off buf)), buf)
unfolding token_parser rtde_datasize
token_parser_lem uint8 off t ram buf c b h = parse_byte off t ram buf b h
token_parser_lem uint32 off t ram buf c b h = parse_word 4 off t ram buf b h
token_parser_lem uint64 off t ram buf c b h = parse_word 8 off t ram buf b h
token_parser_lem int32 off t ram buf c b h = parse_word 4 off t ram buf b h
token_parser_lem double off t ram buf c b h = parse_word 8 off t ram buf b h
token_parser_lem vector3d off t ram buf c b h = rw (parse_elements_lem 3 8 off t ram buf b h)
token_parser_lem vector6d off t ram buf c b h = rw (parse_elements_lem 6 8 off t ram buf b h)
token_parser_lem vector6int32 off t ram buf c b h = rw (parse_elements_lem 6 4 off t ram buf b h)
token_parser_lem vector6uint32 off t ram buf c b h = rw (parse_elements_lem 6 4 off t ram buf b h)
token_parser_lem _ off t ram buf c b h = cc
