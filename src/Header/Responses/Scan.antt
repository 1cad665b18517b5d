-- ===== src/Header/Responses/Scan.antt =====
-- The scan of the types in a response, on a response that lists types by their names.
use mathlib.Core.List.{append_assoc}
use lib_urx.Base.{
  ℕ, suc, ◌≡◌, refl, ap, ◌∙◌, Bool, true, false, not, ◌&&◌, ◌==◌, List, ◌∷◌, [], ◌++◌, some, drop,
  length, ret, arith, ◌-◌, sym,
}
use lib_urx.Bytes.{Bytes}
use lib_urx.Magic.Types.{
  DataType, bool, uint8, uint32, uint64, int32, double, vector3d, vector6d, vector6int32,
  vector6uint32, string, in_use, not_found, codes, data_name_to_type,
}
use lib_urx.Header.Responses.{is_unusable, scan_items}
use lib_urx.Header.Responses.Items.{
  name_head, name_tail, types_tail, all_usable, is_usable, not-is_unusable, onto, onto-suc,
  onto-append, onto-length, choose, choose_lem, scan_step, scan_comma, scan_last, name_tail_plain,
  name_head_plain,
}

abbrev name_with : DataType → Bytes → Bytes
name_with t rest = name_head t ∷ (name_tail t ++ rest)

-- A whole name before a comma is known by its own type, so far as being usable goes.
inner_name :
    (t : DataType) (rest : Bytes)
    → is_unusable (data_name_to_type (some (name_with t rest)) (onto (name_tail t) 1))
      ≡ is_unusable t
unfolding is_unusable data_name_to_type
inner_name bool rest = refl
inner_name uint8 rest = refl
inner_name uint32 rest = refl
inner_name uint64 rest = refl
inner_name int32 rest = refl
inner_name double rest = refl
inner_name vector3d rest = refl
inner_name vector6d rest = refl
inner_name vector6int32 rest = refl
inner_name vector6uint32 rest = refl
inner_name string rest = refl
inner_name in_use rest = refl
inner_name not_found rest = refl

last_name :
    (t : DataType) (rest : Bytes) (f : ℕ)
    → scan_items
        (onto (name_tail t) (suc f))
        (onto (name_tail t) 0)
        (name_with t (0 ∷ rest))
        1
        (name_tail t ++ (0 ∷ rest))
      ≡ ret (not (is_unusable t))
unfolding is_unusable data_name_to_type
last_name bool rest f =
    scan_last b'O' (codes "OL") (name_with bool (0 ∷ rest)) rest 1 f (name_tail_plain bool)
last_name uint8 rest f =
    scan_last b'I' (codes "NT8") (name_with uint8 (0 ∷ rest)) rest 1 f (name_tail_plain uint8)
last_name uint32 rest f =
    scan_last b'I' (codes "NT32") (name_with uint32 (0 ∷ rest)) rest 1 f (name_tail_plain uint32)
last_name uint64 rest f =
    scan_last b'I' (codes "NT64") (name_with uint64 (0 ∷ rest)) rest 1 f (name_tail_plain uint64)
last_name int32 rest f =
    scan_last b'N' (codes "T32") (name_with int32 (0 ∷ rest)) rest 1 f (name_tail_plain int32)
last_name double rest f =
    scan_last b'O' (codes "UBLE") (name_with double (0 ∷ rest)) rest 1 f (name_tail_plain double)
last_name vector3d rest f =
    scan_last b'E' (codes "CTOR3D") (name_with vector3d (0 ∷ rest)) rest 1 f
      (name_tail_plain vector3d)
last_name vector6d rest f =
    scan_last b'E' (codes "CTOR6D") (name_with vector6d (0 ∷ rest)) rest 1 f
      (name_tail_plain vector6d)
last_name vector6int32 rest f =
    scan_last b'E' (codes "CTOR6INT32") (name_with vector6int32 (0 ∷ rest)) rest 1 f
      (name_tail_plain vector6int32)
last_name vector6uint32 rest f =
    scan_last b'E' (codes "CTOR6UINT32") (name_with vector6uint32 (0 ∷ rest)) rest 1 f
      (name_tail_plain vector6uint32)
last_name string rest f =
    scan_last b'T' (codes "RING") (name_with string (0 ∷ rest)) rest 1 f (name_tail_plain string)
last_name in_use rest f =
    scan_last b'N' (codes "_USE") (name_with in_use (0 ∷ rest)) rest 1 f (name_tail_plain in_use)
last_name not_found rest f =
    scan_last b'O' (codes "T_FOUND") (name_with not_found (0 ∷ rest)) rest 1 f
      (name_tail_plain not_found)

and_true : (b : Bool) → (b && true) ≡ b
and_true true = refl
and_true false = refl

-- At the comma behind a name the scan goes on with the next name, if this one is usable.
scan_name :
    (t : DataType) (rest : Bytes) (f l : ℕ) (b : Bool)
    → scan_items f l rest 1 (drop 1 rest) ≡ ret b
    → scan_items
        (onto (name_tail t) (suc f))
        (onto (name_tail t) (suc (suc l)))
        (name_with t (b',' ∷ rest))
        1
        (name_tail t ++ (b',' ∷ rest))
      ≡ ret (is_usable t && b)
scan_name t rest f l b next =
    let less : suc l - 1 ≡ l = omega arith in
    let go_on : scan_items f (suc l - 1) rest 1 (drop 1 rest) ≡ ret b = rw less next in
    scan_comma (name_tail t) (name_with t (b',' ∷ rest)) rest 1 f (suc l) (name_tail_plain t)
    ∙ ap (λ u. choose u (scan_items f (suc l - 1) rest 1 (drop 1 rest)))
        (inner_name t (b',' ∷ rest))
    ∙ ap (choose (is_unusable t)) go_on
    ∙ choose_lem (is_unusable t) b
    ∙ ap (λ u. ret (u && b)) (not-is_unusable t)

pub scan_types :
    (t : DataType) (ts : List DataType) (rest : Bytes) (f : ℕ)
    → scan_items
        (onto (types_tail t ts) (suc f))
        (onto (types_tail t ts) 0)
        (name_head t ∷ (types_tail t ts ++ (0 ∷ rest)))
        1
        (types_tail t ts ++ (0 ∷ rest))
      ≡ ret (all_usable (t ∷ ts))
scan_types t [] rest f =
    last_name t rest f ∙ ap ret (not-is_unusable t ∙ sym (and_true (is_usable t)))
scan_types t (u ∷ us) rest f =
    let more = types_tail u us in
    let ih = scan_types u us rest (suc f) in
    rw
      (
        onto-append (name_tail t) (b',' ∷ name_head u ∷ more) (suc f),
        onto-append (name_tail t) (b',' ∷ name_head u ∷ more) 0,
        append_assoc,
      )
      (scan_name t (name_head u ∷ (more ++ (0 ∷ rest))) (suc (onto more (suc f))) (onto more 0)
        (all_usable (u ∷ us)) (rw (onto-suc more (suc f)) at ih))

name_second : (t : DataType) → (c : ℕ) × (s : Bytes) × (name_tail t ≡ c ∷ s) × ((c == 0) ≡ false)
name_second bool = (b'O', codes "OL", refl, refl)
name_second uint8 = (b'I', codes "NT8", refl, refl)
name_second uint32 = (b'I', codes "NT32", refl, refl)
name_second uint64 = (b'I', codes "NT64", refl, refl)
name_second int32 = (b'N', codes "T32", refl, refl)
name_second double = (b'O', codes "UBLE", refl, refl)
name_second vector3d = (b'E', codes "CTOR3D", refl, refl)
name_second vector6d = (b'E', codes "CTOR6D", refl, refl)
name_second vector6int32 = (b'E', codes "CTOR6INT32", refl, refl)
name_second vector6uint32 = (b'E', codes "CTOR6UINT32", refl, refl)
name_second string = (b'T', codes "RING", refl, refl)
name_second in_use = (b'N', codes "_USE", refl, refl)
name_second not_found = (b'O', codes "T_FOUND", refl, refl)

-- The first character of the text never ends an item.
scan_first :
    (t : DataType) (ts : List DataType) (rest : Bytes) (f l : ℕ)
    → scan_items
        (suc f)
        (suc l)
        (name_head t ∷ (types_tail t ts ++ (0 ∷ rest)))
        0
        (name_head t ∷ (types_tail t ts ++ (0 ∷ rest)))
      ≡ scan_items f l
          (name_head t ∷ (types_tail t ts ++ (0 ∷ rest)))
          1
          (types_tail t ts ++ (0 ∷ rest))
scan_first t [] rest f l =
    let (c, s, e, h) = name_second t in
    rw e (scan_step f l _ 0 (name_head t) c (s ++ (0 ∷ rest)) (name_head_plain t) h)
scan_first t (u ∷ us) rest f l =
    let (c, s, e, h) = name_second t in
    rw e (scan_step f l _ 0 (name_head t) c _ (name_head_plain t) h)

-- The scan from the first character of the text.
pub scan_text :
    (t : DataType) (ts : List DataType) (rest : Bytes)
    → let text = name_head t ∷ types_tail t ts in
      scan_items (suc (length text)) (length text) (text ++ (0 ∷ rest)) 0 (text ++ (0 ∷ rest))
      ≡ ret (all_usable (t ∷ ts))
scan_text t ts rest =
    let more = types_tail t ts in
    let ih = scan_types t ts rest 0 in
    let counted : scan_items (suc (length more)) (length more) (name_head t ∷ (more ++ (0 ∷ rest)))
          1 (more ++ (0 ∷ rest))
        ≡ ret (all_usable (t ∷ ts)) =
      rw (← onto-length more, ← onto-suc more 0) ih in
    scan_first t ts rest (suc (length more)) (length more) ∙ counted
