-- ===== src/Recipe/Layout/Store.antt =====
-- What `store` leaves in a data package.
use mathlib.Core.Path.{subst}
use lib_urx.Base.{
  refl, [], ℕ, List, false, ◌≤◌, ◌≡◌, ◌∷◌, length, ◌+◌, some, ret, take, All, ◌∙◌, arith, true,
  drop, ◌++◌, not, ◌==◌, length-drop, length-append, length-take,
}
use lib_urx.Bytes.{Bytes}
use lib_urx.Memory.{Ram, peek, patch, load}
use lib_urx.Memory.Laws.{length-peek, length-patch, patch_self, patch_before}
use lib_urx.Header.Package.{hdr_size, hdr_type}
use lib_urx.Header.Control.{low_byte}
use lib_urx.Header.Control.Laws.{data_package_init_parse}
use lib_urx.Header.Responses.{rtde_parse_data_package}
use lib_urx.Token.{Token, token_store_in}
use lib_urx.Token.Laws.{word_count, word_size, swap_words}
use lib_urx.Token.Store.{IsRam, token_store_lem, length-swap_words, input_word}
use lib_urx.Recipe.{Recipe, store, store_fields}
use lib_urx.Recipe.Layout.{FieldFits, Layout, Layout-le, IsLaidOut}

-- The bytes that a field sends: its value in network order.
abbrev pub sent : Ram → Token → Bytes
sent ram k = swap_words (word_count k.type) (word_size k.type) (peek ram k.storage k.datasize)

-- Every field in turn.
abbrev pub stored : List Token → Ram → Bytes → Bytes
stored [] ram buf = buf
stored (k ∷ ks) ram buf = stored ks ram (patch buf k.offset (sent ram k))

length-sent : (ram : Ram) (k : Token) → FieldFits false k → length (sent ram k) ≡ k.datasize
length-sent ram k f =
    let (one, word) = input_word k.type f.type_fits in
    let size : k.datasize ≡ word_size k.type = f.size_fits ∙ word in
    rw one (
      length-swap_words 1 (word_size k.type) (peek ram k.storage k.datasize)
        (omega (arith, length-peek ram k.storage k.datasize, size))
      ∙ omega (arith, size))

token_store_in_lem :
    (k : Token) (ram : Ram) (buf : Bytes)
    → FieldFits false k
    → IsRam ram
    → k.offset + k.datasize ≤ length buf
    → token_store_in k ram (some buf) ≡ ret (some (patch buf k.offset (sent ram k)))
unfolding token_store_in
token_store_in_lem k ram buf f r h =
    rw (f.kind_fits, token_store_in)
      (rw (
        token_store_lem k.type k.offset k.storage ram buf f.type_fits r (rw (← f.size_fits) h),
        f.size_fits,
      ))

store_fields_lem :
    (o : ℕ) (ks : List Token) (e : ℕ) (ram : Ram) (buf : Bytes)
    → Layout false o ks e
    → IsRam ram
    → e ≤ length buf
    → store_fields ks ram buf ≡ ret (stored ks ram buf, true)
unfolding store_fields
store_fields_lem o [] e ram buf l r h = refl
store_fields_lem o (k ∷ ks) e ram buf l r h =
    let fits : k.offset + k.datasize ≤ length buf =
      omega (arith, Layout-le false (o + k.datasize) ks e l.2, l.1, h) in
    rw (token_store_in_lem k ram buf l.0 r fits, store_fields)
      (store_fields_lem (o + k.datasize) ks e ram (patch buf k.offset (sent ram k)) l.2 r
        (omega (arith, length-patch buf k.offset (sent ram k), h)))

-- The fields leave what stands before them.
stored-before :
    (o : ℕ) (ks : List Token) (e : ℕ) (ram : Ram) (buf : Bytes) (i n : ℕ)
    → Layout false o ks e
    → i + n ≤ o
    → take n (drop i (stored ks ram buf)) ≡ take n (drop i buf)
stored-before o [] e ram buf i n l h = refl
stored-before o (k ∷ ks) e ram buf i n l h =
    stored-before (o + k.datasize) ks e ram _ i n l.2 (omega arith)
    ∙ patch_before buf k.offset (sent ram k) i n (omega (arith, l.1, h))

stored-fields :
    (o : ℕ) (ks : List Token) (e : ℕ) (ram : Ram) (buf : Bytes)
    → Layout false o ks e
    → e ≤ length buf
    → All (λ k. take k.datasize (drop k.offset (stored ks ram buf)) ≡ sent ram k) ks
stored-fields o [] e ram buf l h = tt
stored-fields o (k ∷ ks) e ram buf l h =
    let fits : k.offset + k.datasize ≤ length buf =
      omega (arith, Layout-le false (o + k.datasize) ks e l.2, l.1, h) in
    let len = length-sent ram k l.0 in
    let next = patch buf k.offset (sent ram k) in
    (
      stored-before (o + k.datasize) ks e ram next k.offset k.datasize l.2 (omega (arith, l.1))
          ∙ subst (λ n. take n (drop k.offset next) ≡ sent ram k) len
              (patch_self buf k.offset (sent ram k) (omega (arith, len, fits))),
      stored-fields (o + k.datasize) ks e ram next l.2
          (omega (arith, length-patch buf k.offset (sent ram k), h)),
    )

length-stored :
    (ks : List Token) (ram : Ram) (buf : Bytes) → length (stored ks ram buf) ≡ length buf
length-stored [] ram buf = refl
length-stored (k ∷ ks) ram buf =
    length-stored ks ram (patch buf k.offset (sent ram k)) ∙ length-patch buf k.offset (sent ram k)

-- Another payload behind the same fixed part.
new_payload :
    (pkg q : Bytes)
    → 4 ≤ length pkg
    → (hdr_size (take 4 pkg ++ q) ≡ hdr_size pkg)
      × (rtde_parse_data_package (some (take 4 pkg ++ q)) ≡ rtde_parse_data_package (some pkg))
      × (drop 4 (take 4 pkg ++ q) ≡ q)
unfolding hdr_size rtde_parse_data_package load hdr_type
new_payload (a ∷ b ∷ c ∷ d ∷ r) q h = (ground arith, ground arith, refl)
new_payload _ q h = absurd (omega arith)

pub store-packs :
    (r : Recipe) (ram : Ram) (dp : Bytes)
    → IsLaidOut r
    → r.dir_out ≡ false
    → IsRam ram
    → length dp ≡ 2048
    → r.bytes ≤ 2044
    → (b : Bytes) × (store r ram (some dp) ≡ ret (some b, true))
      × (length b ≡ 2048)
      × (hdr_size b ≡ ret (4 + r.bytes))
      × (rtde_parse_data_package (some b) ≡ ret (not (low_byte r.recipe_id == 0)))
      × All (λ k. take k.datasize (drop k.offset (drop 4 b)) ≡ sent ram k) r.fields
unfolding store
store-packs r ram dp l d m len fits =
    let l' : Layout false 0 r.fields r.bytes = subst (λ dir. Layout dir 0 r.fields r.bytes) d l in
    let (pkg, made, size, valid, stated, payload) =
      data_package_init_parse dp r.recipe_id r.bytes len (omega (arith, fits)) in
    let room : r.bytes ≤ length (drop 4 pkg) = omega (arith, length-drop 4 pkg, size, fits) in
    let q = stored r.fields ram (drop 4 pkg) in
    let (head, check, back) = new_payload pkg q (omega (arith, size)) in
    (
      take 4 pkg ++ q,
      rw (d, made, store) (rw (store_fields_lem 0 r.fields r.bytes ram (drop 4 pkg) l' m room)),
      omega (
        arith,
        length-append (take 4 pkg) q,
        length-take 4 pkg,
        length-stored r.fields ram (drop 4 pkg),
        length-drop 4 pkg,
        size,
      ),
      head ∙ stated,
      check ∙ valid,
      rw back (stored-fields 0 r.fields r.bytes ram (drop 4 pkg) l' room),
    )
