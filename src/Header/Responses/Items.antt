-- ===== src/Header/Responses/Items.antt =====
-- The names of the types in a response, and the rounds of the scan over one of them.
use lib_urx.Base.{
  ℕ, suc, ◌≡◌, refl, ap, ◌∙◌, Bool, true, false, not, ◌&&◌, ◌==◌, List, ◌∷◌, [], ◌++◌, some, drop,
  length, Run, ret, arith, ◌-◌,
}
use lib_urx.Bytes.{Bytes}
use lib_urx.Magic.Types.{
  DataType, bool, uint8, uint32, uint64, int32, double, vector3d, vector6d, vector6int32,
  vector6uint32, string, in_use, not_found, codes, data_name_to_type,
}
use lib_urx.Header.Responses.{is_unusable, scan_items}

-- The first character of a type's name, and the rest.
abbrev pub name_head : DataType → ℕ
name_head bool = b'B'
name_head uint8 = b'U'
name_head uint32 = b'U'
name_head uint64 = b'U'
name_head int32 = b'I'
name_head double = b'D'
name_head vector3d = b'V'
name_head vector6d = b'V'
name_head vector6int32 = b'V'
name_head vector6uint32 = b'V'
name_head string = b'S'
name_head in_use = b'I'
name_head not_found = b'N'

abbrev pub name_tail : DataType → Bytes
name_tail bool = codes "OOL"
name_tail uint8 = codes "INT8"
name_tail uint32 = codes "INT32"
name_tail uint64 = codes "INT64"
name_tail int32 = codes "NT32"
name_tail double = codes "OUBLE"
name_tail vector3d = codes "ECTOR3D"
name_tail vector6d = codes "ECTOR6D"
name_tail vector6int32 = codes "ECTOR6INT32"
name_tail vector6uint32 = codes "ECTOR6UINT32"
name_tail string = codes "TRING"
name_tail in_use = codes "N_USE"
name_tail not_found = codes "OT_FOUND"

-- The rest of the text "T1,T2,...,Tn" behind its first character.
abbrev pub types_tail : DataType → List DataType → Bytes
types_tail t [] = name_tail t
types_tail t (u ∷ us) = name_tail t ++ (b',' ∷ name_head u ∷ types_tail u us)

-- NOT_FOUND and IN_USE are the two answers that do not name the type of a variable.
abbrev pub is_usable : DataType → Bool
is_usable not_found = false
is_usable in_use = false
is_usable _ = true

pub not-is_unusable : (t : DataType) → not (is_unusable t) ≡ is_usable t
unfolding is_unusable
not-is_unusable not_found = refl
not-is_unusable in_use = refl
not-is_unusable _ = refl

abbrev pub all_usable : List DataType → Bool
all_usable [] = true
all_usable (t ∷ ts) = is_usable t && all_usable ts

-- Neither a comma nor the end of the text.
unfoldable pub is_plain : ℕ → Bool
is_plain c = not (c == b',') && not (c == 0)

unfoldable pub all_plain : Bytes → Bool
unfolding is_plain
all_plain [] = true
all_plain (c ∷ cs) = is_plain c && all_plain cs

-- `length s + n`, counted from the front.
abbrev pub onto : Bytes → ℕ → ℕ
onto [] n = n
onto (c ∷ s) n = suc (onto s n)

pub onto-suc : (s : Bytes) (n : ℕ) → onto s (suc n) ≡ suc (onto s n)
onto-suc [] n = refl
onto-suc (c ∷ s) n = ap suc (onto-suc s n)

pub onto-append : (s r : Bytes) (n : ℕ) → onto (s ++ r) n ≡ onto s (onto r n)
onto-append [] r n = refl
onto-append (c ∷ s) r n = ap suc (onto-append s r n)

pub onto-length : (s : Bytes) → onto s 0 ≡ length s
onto-length [] = refl
onto-length (c ∷ s) = ap suc (onto-length s)

-- What a round does at the end of an item, with `next` for the rounds that follow.
abbrev pub choose : Bool → Run Bool → Run Bool
choose unusable next = elim unusable [ true ↦ ret false | false ↦ next ]

pub choose_lem : (u b : Bool) → choose u (ret b) ≡ ret (not u && b)
choose_lem true b = refl
choose_lem false b = refl

abbrev pub at_end : Bytes → ℕ → Run Bool → Run Bool
at_end start sz next = choose (is_unusable (data_name_to_type (some start) sz)) next

-- A round inside an item moves on by one byte.
pub scan_step :
    (f l : ℕ) (start : Bytes) (sz c d : ℕ) (rest : Bytes)
    → is_plain c ≡ true
    → (d == 0) ≡ false
    → scan_items (suc f) (suc l) start sz (c ∷ d ∷ rest) ≡ scan_items f l start (suc sz) (d ∷ rest)
unfolding scan_items is_plain
scan_step f l start sz c d rest hc hd = ground arith

-- An item up to its comma.
pub scan_comma :
    (s start rest : Bytes) (sz f l : ℕ)
    → all_plain s ≡ true
    → scan_items (onto s (suc f)) (onto s (suc l)) start sz (s ++ (b',' ∷ rest))
      ≡ at_end start (onto s sz) (scan_items f (l - 1) rest 1 (drop 1 rest))
unfolding all_plain
scan_comma [] start rest sz f l h = unfold scan_items in refl
scan_comma (c ∷ []) start rest sz f l h =
    scan_step (suc f) (suc l) start sz c b',' rest (ground arith) refl
    ∙ scan_comma [] start rest (suc sz) f l refl
scan_comma (c ∷ d ∷ s) start rest sz f l h =
    scan_step (onto (d ∷ s) (suc f)) (onto (d ∷ s) (suc l)) start sz c d (s ++ (b',' ∷ rest))
      (ground arith) (ground arith)
    ∙ scan_comma (d ∷ s) start rest (suc sz) f l (ground arith)
    ∙ rw (onto-suc s sz)

-- The last item, up to the end of the text. Its last character is not compared.
pub scan_last :
    (c : ℕ) (s start rest : Bytes) (sz f : ℕ)
    → all_plain (c ∷ s) ≡ true
    → scan_items (onto (c ∷ s) (suc f)) (onto (c ∷ s) 0) start sz (c ∷ (s ++ (0 ∷ rest)))
      ≡ ret (not (is_unusable (data_name_to_type (some start) (onto s sz))))
unfolding all_plain
scan_last c [] start rest sz f h = unfold scan_items is_plain in ground arith
scan_last c (d ∷ s) start rest sz f h =
    scan_step (onto (d ∷ s) (suc f)) (onto (d ∷ s) 0) start sz c d (s ++ (0 ∷ rest)) (ground arith)
      (ground arith)
    ∙ scan_last d s start rest (suc sz) f (ground arith)
    ∙ rw (onto-suc s sz)

pub name_tail_plain : (t : DataType) → all_plain (name_tail t) ≡ true
unfolding all_plain
name_tail_plain bool = refl
name_tail_plain uint8 = refl
name_tail_plain uint32 = refl
name_tail_plain uint64 = refl
name_tail_plain int32 = refl
name_tail_plain double = refl
name_tail_plain vector3d = refl
name_tail_plain vector6d = refl
name_tail_plain vector6int32 = refl
name_tail_plain vector6uint32 = refl
name_tail_plain string = refl
name_tail_plain in_use = refl
name_tail_plain not_found = refl

pub name_head_plain : (t : DataType) → is_plain (name_head t) ≡ true
unfolding is_plain
name_head_plain bool = refl
name_head_plain uint8 = refl
name_head_plain uint32 = refl
name_head_plain uint64 = refl
name_head_plain int32 = refl
name_head_plain double = refl
name_head_plain vector3d = refl
name_head_plain vector6d = refl
name_head_plain vector6int32 = refl
name_head_plain vector6uint32 = refl
name_head_plain string = refl
name_head_plain in_use = refl
name_head_plain not_found = refl
