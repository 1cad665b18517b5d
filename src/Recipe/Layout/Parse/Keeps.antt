-- ===== src/Recipe/Layout/Parse/Keeps.antt =====
-- What `parse` leaves alone.
use mathlib.Core.Path.{subst}
use lib_urx.Base.{
  ℕ, ◌+◌, ◌≤◌, ◌≡◌, refl, ◌∙◌, ◌⊎◌, true, ◌∷◌, [], List, Option, none, some, length, drop, arith,
  Ends,
}
use lib_urx.Bytes.{Bytes, AreBytes, le_bytes, length-le_bytes, le_bytes-AreBytes}
use lib_urx.Memory.{Ram, peek, poke}
use lib_urx.Memory.Laws.{peek-poke_outside, drop-AreBytes}
use lib_urx.Magic.Types.{DataType, bool}
use lib_urx.Token.{Token}
use lib_urx.Token.Laws.{word_count, word_size}
use lib_urx.Token.Store.{IsRam, swap_words-AreBytes, poke-IsRam}
use lib_urx.Recipe.{Recipe, parse, set_ts}
use lib_urx.Recipe.Layout.{Layout, IsLaidOut}
use lib_urx.Recipe.Layout.Parse.{
  field_bytes, field_value, parsed, parse_fields_lem, Clear, peek-parsed,
}

field_bytes-AreBytes : (t : DataType) (bs : Bytes) → AreBytes bs → AreBytes (field_bytes t bs)
field_bytes-AreBytes bool bs h = le_bytes-AreBytes 1 _
field_bytes-AreBytes t bs h = swap_words-AreBytes (word_count t) (word_size t) bs h

parsed-IsRam :
    (ks : List Token) (m : Ram) (buf : Bytes) → AreBytes buf → IsRam m → IsRam (parsed ks m buf)
parsed-IsRam [] m buf b h = h
parsed-IsRam (k ∷ ks) m buf b h = parsed-IsRam ks (poke m k.storage (field_value k buf)) buf b (
    poke-IsRam m k.storage (field_value k buf) h
      (field_bytes-AreBytes k.type (drop k.offset buf) (drop-AreBytes k.offset buf b)))

set_ts-IsRam : (stamp : Option ℕ) (m : Ram) (ts : ℕ) → IsRam m → IsRam (set_ts stamp m ts)
set_ts-IsRam none m ts h = h
set_ts-IsRam (some a) m ts h = poke-IsRam m a (le_bytes 8 ts) h (le_bytes-AreBytes 8 ts)

-- A stretch of memory is clear of the time stamp.
abbrev pub StampClear : Option ℕ → ℕ → ℕ → Type 0
StampClear none a n = Unit {0}
StampClear (some s) a n = (a + n ≤ s) ⊎ (s + 8 ≤ a)

-- Two memories differ at most in the fields and the time stamp.
abbrev pub SameOutside : Option ℕ → List Token → Ram → Ram → Type 0
SameOutside stamp ks m m' =
    (a n : ℕ) → Clear a n ks → StampClear stamp a n → peek m' a n ≡ peek m a n

set_ts-outside :
    (stamp : Option ℕ) (m : Ram) (ts a n : ℕ)
    → StampClear stamp a n
    → peek (set_ts stamp m ts) a n ≡ peek m a n
set_ts-outside none m ts a n c = refl
set_ts-outside (some s) m ts a n c =
    peek-poke_outside m s (le_bytes 8 ts) a n (omega (arith, length-le_bytes 8 ts, c))

-- The memory stays one of bytes, and changes only in the fields and the time stamp.
pub parse-keeps :
    (r : Recipe) (ram : Ram) (buf : Bytes) (ts : ℕ)
    → IsLaidOut r
    → r.dir_out ≡ true
    → AreBytes buf
    → r.bytes ≤ length buf
    → IsRam ram
    → Ends (λ res. IsRam res.0 × SameOutside r.ts_ns r.fields ram res.0) (parse r ram (some buf) ts)
unfolding parse
parse-keeps r ram buf ts l d b h i =
    let l' : Layout true 0 r.fields r.bytes = subst (λ dir. Layout dir 0 r.fields r.bytes) d l in
    let run = parse_fields_lem 0 r.fields r.bytes ram buf l' b h in
    let m = parsed r.fields ram buf in
    rw (d, run)
      (
        set_ts-IsRam r.ts_ns m ts (parsed-IsRam r.fields ram buf b i),
        λ a n c c'.
            set_ts-outside r.ts_ns m ts a n c' ∙ peek-parsed 0 r.fields r.bytes ram buf a n l' h c,
      )
