-- ===== src/Recipe/Layout/Parse.antt =====
-- What `parse` leaves in the memory of the using program.
pub mod Keeps
use mathlib.Core.Path.{subst}
use lib_urx.Base.{
  length-drop, ℕ, ◌+◌, ◌≤◌, ◌≡◌, refl, sym, ◌∙◌, ◌⊎◌, true, ◌∷◌, [], List, Option, none, some, ◌==◌,
  if◌then◌else◌, length, drop, take, All, ret, arith, Ends,
}
use lib_urx.Bytes.{Bytes, AreBytes, le_value, le_bytes, length-le_bytes, le_bytes-AreBytes}
use lib_urx.Memory.{Ram, peek, poke}
use lib_urx.Memory.Laws.{peek-poke_self, peek-poke_outside, load_lem, drop-AreBytes}
use lib_urx.Magic.Types.{
  DataType, bool, uint8, uint32, uint64, int32, double, vector3d, vector6d, vector6int32,
  rtde_datasize,
}
use lib_urx.Token.{Token, token_parse, token_parser}
use lib_urx.Token.Laws.{word_count, word_size, swap_words, token_parser_lem}
use lib_urx.Token.Store.{length-swap_words, IsRam, swap_words-AreBytes, poke-IsRam}
use lib_urx.Recipe.{Recipe, parse, parse_fields, set_ts}
use lib_urx.Magic.Lookup.Laws.{is_output_type}
use lib_urx.Recipe.Layout.{Layout-le, FieldFits, Layout, IsLaidOut}

-- The bytes that a field leaves at its storage, from the payload at its offset: a BOOL is 0 or 1, any
-- other type has its words in host order.
abbrev pub field_bytes : DataType → Bytes → Bytes
field_bytes bool bs = le_bytes 1 (if le_value (take 1 bs) == 0 then 0 else 1)
field_bytes t bs = swap_words (word_count t) (word_size t) bs

abbrev pub field_value : Token → Bytes → Bytes
field_value k buf = field_bytes k.type (drop k.offset buf)

-- Every field in turn.
abbrev parsed : List Token → Ram → Bytes → Ram
parsed [] m buf = m
parsed (k ∷ ks) m buf = parsed ks (poke m k.storage (field_value k buf)) buf

output_parser_lem :
    (ty : DataType) (off t : ℕ) (ram : Ram) (buf : Bytes)
    → is_output_type ty ≡ true
    → AreBytes buf
    → off + rtde_datasize ty ≤ length buf
    → token_parser ty off t ram buf ≡ ret (poke ram t (field_bytes ty (drop off buf)), buf)
output_parser_lem bool off t ram buf o b h =
    let fits : off + 1 ≤ length buf = unfold rtde_datasize in h in
    unfold token_parser in rw (load_lem 1 buf off fits)
output_parser_lem uint8 off t ram buf o b h = token_parser_lem uint8 off t ram buf refl b h
output_parser_lem uint32 off t ram buf o b h = token_parser_lem uint32 off t ram buf refl b h
output_parser_lem uint64 off t ram buf o b h = token_parser_lem uint64 off t ram buf refl b h
output_parser_lem int32 off t ram buf o b h = token_parser_lem int32 off t ram buf refl b h
output_parser_lem double off t ram buf o b h = token_parser_lem double off t ram buf refl b h
output_parser_lem vector3d off t ram buf o b h = token_parser_lem vector3d off t ram buf refl b h
output_parser_lem vector6d off t ram buf o b h = token_parser_lem vector6d off t ram buf refl b h
output_parser_lem vector6int32 off t ram buf o b h =
    token_parser_lem vector6int32 off t ram buf refl b h
output_parser_lem _ off t ram buf o b h = cc

token_parse_lem :
    (k : Token) (ram : Ram) (buf : Bytes)
    → FieldFits true k
    → AreBytes buf
    → k.offset + k.datasize ≤ length buf
    → token_parse k ram (some buf) ≡ ret (some (poke ram k.storage (field_value k buf), buf))
unfolding token_parse
token_parse_lem k ram buf f b h =
    rw (f.kind_fits, token_parse)
      (rw
        (output_parser_lem k.type k.offset k.storage ram buf f.type_fits b (rw (← f.size_fits) h)))

pub parse_fields_lem :
    (o : ℕ) (ks : List Token) (e : ℕ) (ram : Ram) (buf : Bytes)
    → Layout true o ks e
    → AreBytes buf
    → e ≤ length buf
    → parse_fields ks ram buf ≡ ret (parsed ks ram buf, buf, true)
unfolding parse_fields
parse_fields_lem o [] e ram buf l b h = refl
parse_fields_lem o (k ∷ ks) e ram buf l b h =
    let fits : k.offset + k.datasize ≤ length buf =
      omega (arith, Layout-le true (o + k.datasize) ks e l.2, l.1, h) in
    rw (token_parse_lem k ram buf l.0 b fits, parse_fields)
      (parse_fields_lem (o + k.datasize) ks e (poke ram k.storage (field_value k buf)) buf l.2 b h)

-- Two stretches of memory that do not meet.
abbrev pub Clear : ℕ → ℕ → List Token → Type 0
Clear a n = All (λ j. (a + n ≤ j.storage) ⊎ (j.storage + j.datasize ≤ a))

-- No two fields share a byte of their storage.
abbrev pub Apart : List Token → Type 0
Apart [] = Unit {0}
Apart (k ∷ ks) = Clear k.storage k.datasize ks × Apart ks

length-field_bytes :
    (t : DataType) (bs : Bytes)
    → is_output_type t ≡ true
    → rtde_datasize t ≤ length bs
    → length (field_bytes t bs) ≡ rtde_datasize t
unfolding rtde_datasize
length-field_bytes bool bs o h = length-le_bytes 1 _
length-field_bytes uint8 bs o h = length-swap_words 1 1 bs h
length-field_bytes uint32 bs o h = length-swap_words 1 4 bs h
length-field_bytes uint64 bs o h = length-swap_words 1 8 bs h
length-field_bytes int32 bs o h = length-swap_words 1 4 bs h
length-field_bytes double bs o h = length-swap_words 1 8 bs h
length-field_bytes vector3d bs o h = length-swap_words 3 8 bs h
length-field_bytes vector6d bs o h = length-swap_words 6 8 bs h
length-field_bytes vector6int32 bs o h = length-swap_words 6 4 bs h
length-field_bytes _ bs o h = cc

length-field_value :
    (k : Token) (buf : Bytes)
    → FieldFits true k
    → k.offset + k.datasize ≤ length buf
    → length (field_value k buf) ≡ k.datasize
length-field_value k buf f h =
    length-field_bytes k.type (drop k.offset buf) f.type_fits
      (omega (arith, f.size_fits, length-drop k.offset buf, h))
    ∙ sym f.size_fits

-- The fields leave alone what is clear of them.
peek-parsed :
    (o : ℕ) (ks : List Token) (e : ℕ) (m : Ram) (buf : Bytes) (a n : ℕ)
    → Layout true o ks e
    → e ≤ length buf
    → Clear a n ks
    → peek (parsed ks m buf) a n ≡ peek m a n
peek-parsed o [] e m buf a n l h c = refl
peek-parsed o (k ∷ ks) e m buf a n l h c =
    let fits : k.offset + k.datasize ≤ length buf =
      omega (arith, Layout-le true (o + k.datasize) ks e l.2, l.1, h) in
    peek-parsed (o + k.datasize) ks e _ buf a n l.2 h c.1
    ∙ peek-poke_outside m k.storage (field_value k buf) a n
        (omega (arith, length-field_value k buf l.0 fits, c.0))

parsed-fields :
    (o : ℕ) (ks : List Token) (e : ℕ) (m : Ram) (buf : Bytes)
    → Layout true o ks e
    → e ≤ length buf
    → Apart ks
    → All (λ k. peek (parsed ks m buf) k.storage k.datasize ≡ field_value k buf) ks
parsed-fields o [] e m buf l h a = tt
parsed-fields o (k ∷ ks) e m buf l h a =
    let fits : k.offset + k.datasize ≤ length buf =
      omega (arith, Layout-le true (o + k.datasize) ks e l.2, l.1, h) in
    let len = length-field_value k buf l.0 fits in
    let m' = poke m k.storage (field_value k buf) in
    (
      peek-parsed (o + k.datasize) ks e m' buf k.storage k.datasize l.2 h a.0
          ∙ subst (λ n. peek m' k.storage n ≡ field_value k buf) len
              (peek-poke_self m k.storage (field_value k buf)),
      parsed-fields (o + k.datasize) ks e m' buf l.2 h a.1,
    )

-- The tracked time stamp of eight bytes is clear of the fields.
abbrev pub TsClear : Option ℕ → List Token → Type 0
TsClear none ks = Unit {0}
TsClear (some a) ks = Clear a 8 ks

abbrev pub TsIs : Option ℕ → Ram → ℕ → Type 0
TsIs none m ts = Unit {0}
TsIs (some a) m ts = peek m a 8 ≡ le_bytes 8 ts

set_ts-fields :
    (stamp : Option ℕ) (m : Ram) (ts : ℕ) (buf : Bytes) (ks : List Token)
    → TsClear stamp ks
    → All (λ k. peek m k.storage k.datasize ≡ field_value k buf) ks
    → All (λ k. peek (set_ts stamp m ts) k.storage k.datasize ≡ field_value k buf) ks
set_ts-fields none m ts buf ks c h = h
set_ts-fields (some a) m ts buf [] c h = tt
set_ts-fields (some a) m ts buf (k ∷ ks) c h = (
  peek-poke_outside m a (le_bytes 8 ts) k.storage k.datasize
        (omega (arith, length-le_bytes 8 ts, c.0))
      ∙ h.0,
  set_ts-fields (some a) m ts buf ks c.1 h.1,
)

set_ts-TsIs : (stamp : Option ℕ) (m : Ram) (ts : ℕ) → TsIs stamp (set_ts stamp m ts) ts
set_ts-TsIs none m ts = tt
set_ts-TsIs (some a) m ts =
    subst (λ n. peek (poke m a (le_bytes 8 ts)) a n ≡ le_bytes 8 ts) (length-le_bytes 8 ts)
      (peek-poke_self m a (le_bytes 8 ts))

-- An output recipe reads any payload that is long enough, never outside it, and returns true. Each
-- field's storage then holds its value from its place in the payload in host order, if no two
-- storages overlap, and the tracked time stamp is set.
pub parse-delivers :
    (r : Recipe) (ram : Ram) (buf : Bytes) (ts : ℕ)
    → IsLaidOut r
    → r.dir_out ≡ true
    → AreBytes buf
    → r.bytes ≤ length buf
    → Apart r.fields
    → TsClear r.ts_ns r.fields
    → (m : Ram) × (parse r ram (some buf) ts ≡ ret (m, some buf, true))
      × All (λ k. peek m k.storage k.datasize ≡ field_value k buf) r.fields
      × TsIs r.ts_ns m ts
unfolding parse
parse-delivers r ram buf ts l d b h a c =
    let l' : Layout true 0 r.fields r.bytes = subst (λ dir. Layout dir 0 r.fields r.bytes) d l in
    let m = parsed r.fields ram buf in
    (
      set_ts r.ts_ns m ts,
      rw (d, parse_fields_lem 0 r.fields r.bytes ram buf l' b h),
      set_ts-fields r.ts_ns m ts buf r.fields c (parsed-fields 0 r.fields r.bytes ram buf l' h a),
      set_ts-TsIs r.ts_ns m ts,
    )
