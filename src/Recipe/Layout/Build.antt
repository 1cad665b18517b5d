-- ===== src/Recipe/Layout/Build.antt =====
-- Recipes that the operations build.
use lib_urx.Double.{double_125}
use Prim.Native.String.{String, ◌∷◌}
use mathlib.Core.Path.{subst}
use mathlib.Core.List.{[], ◌∷◌}
use lib_urx.Base.{
  Ends, Ends-bind, Ends-if, true, false, ret, inl, inr, none, some, ℕ, refl, [], Option, Bool, List,
  ◌≡◌, ret, ◌+◌, some, arith, Run, Option-cases, drop, not, if◌then◌else◌, Bool-cases, ltb, length,
  pos, ◌==◌,
}
use lib_urx.Bytes.{Bytes}
use lib_urx.Memory.{Ram, c_string, load}
use lib_urx.Recipe.{
  Recipe, new_recipe, add_field, set_dir, track_ts_ns, get_msg, get_fields, accept_response,
  register_response, clear_fields, field_token, push_field, rtde_control_msg_out,
  rtde_control_package_resp_validate, rtde_control_msg_get, rtde_control_msg_in, double_125,
  rtde_control_get_in, Token, split_items, match_types,
}
use lib_urx.Recipe.Layout.{Layout, IsLaidOut, add_field-IsLaidOut}

-- The recipes that every operation but `clear_fields` makes of one, calls that fail included.
pub data Operated (r : Recipe) : Recipe → Type 0 where
  unchanged : Operated r r
  added :
      {s : Recipe} (name : String) (t : Option ℕ) → Operated r s → Operated r (add_field s name t).0
  turned : {s : Recipe} (has_dp dir : Bool) → Operated r s → Operated r (set_dir has_dp s dir).0
  tracked :
      {s : Recipe} (ram : Ram) (a : Option ℕ) → Operated r s → Operated r (track_ts_ns s ram a).0
  asked :
      (s s' : Recipe) (msg : Option Bytes)
      → get_msg s ≡ ret (s', msg)
      → Operated r s
      → Operated r s'
  answered :
      (s s' : Recipe) (resp : Option Bytes) (done : Bool)
      → register_response s resp ≡ ret (s', done)
      → Operated r s
      → Operated r s'

-- The parts of a recipe that its layout depends on.
abbrev SameFields : Recipe → Recipe → Type 0
SameFields r s = (r.dir_out ≡ s.dir_out) × (r.fields ≡ s.fields) × (r.bytes ≡ s.bytes)

IsLaidOut-SameFields : (r s : Recipe) → SameFields r s → IsLaidOut r → IsLaidOut s
IsLaidOut-SameFields r s e h = rw (← e.0, ← e.1, ← e.2) h

new_recipe-IsLaidOut : (a b c : Bool) → Ends IsLaidOut (new_recipe a b c)
unfolding new_recipe
new_recipe-IsLaidOut a b c =
    Ends-bind IsLaidOut (rtde_control_msg_get a double_125) _
      λ cpo. Ends-bind IsLaidOut (rtde_control_get_in b) _ λ cpi. refl

no_fields : (ks : List Token) → ltb 0 (length ks) ≡ false → ks ≡ []
no_fields [] h = refl
no_fields (k ∷ ks) h = absurd (ground (arith, h))

-- A recipe without fields has no bytes, and is laid out in either direction.
empty-IsLaidOut :
    (r s : Recipe)
    → r.fields ≡ []
    → s.fields ≡ r.fields
    → s.bytes ≡ r.bytes
    → IsLaidOut r
    → IsLaidOut s
empty-IsLaidOut r s e f b h =
    let none_left : 0 ≡ r.bytes = subst (λ ks. Layout r.dir_out 0 ks r.bytes) e h in
    rw (f, e, b) none_left

set_dir-IsLaidOut :
    (has_dp : Bool) (r : Recipe) (dir : Bool) → IsLaidOut r → IsLaidOut (set_dir has_dp r dir).0
unfolding set_dir
set_dir-IsLaidOut has_dp r dir h = elim (Bool-cases (if r.dir_out then dir else not dir)) [
  | inl e ↦ rw (e, set_dir) h
  | inr e ↦ elim (Bool-cases (ltb 0 (length r.fields))) [
    | inl f ↦ rw (e, f, set_dir) h
    | inr f ↦
        let s = (set_dir has_dp r dir).0 in
        let same : (s.fields ≡ r.fields) × (s.bytes ≡ r.bytes) = ground (arith, e, f) in
        empty-IsLaidOut r s (no_fields r.fields f) same.0 same.1 h
  ]
]

track-IsLaidOut :
    (r : Recipe) (ram : Ram) (a : Option ℕ) → IsLaidOut r → IsLaidOut (track_ts_ns r ram a).0
unfolding track_ts_ns
track-IsLaidOut r ram none h = h
track-IsLaidOut r ram (some a) h = h

abbrev Keeps {ℓ} : {A : Type ℓ} → Recipe → Run (Recipe × A) → Type 0
Keeps r m = Ends (λ p. SameFields r p.0) m

get_msg-Keeps : (r : Recipe) → Keeps r (get_msg r)
unfolding get_msg
get_msg-Keeps r = Ends-bind _ (get_fields r) _ λ names.
    Ends-if _ r.dir_out _ _
      (Ends-bind _ (rtde_control_msg_out r.cpo (some names)) _ λ m. (refl, refl, refl))
      (Ends-bind _ (rtde_control_msg_in r.cpi (some names)) _ λ m. (refl, refl, refl))

accept_response-Keeps : (r : Recipe) (resp : Bytes) → Keeps r (accept_response r resp)
unfolding accept_response
accept_response-Keeps r resp =
    let P : Recipe × Bool → Type 0 = λ p. SameFields r p.0 in
    let same : SameFields r r = (refl, refl, refl) in
    let done : (id : ℕ) → SameFields r (record r { recipe_id = pos id; active = true }) =
      λ id. (refl, refl, refl) in
    Ends-bind P (c_string (drop 4 resp)) _ λ v.
      let items = split_items v in
      Ends-if P (not (length items == length r.fields)) (ret (r, false)) _ same (
        Ends-if P (not (match_types r.fields items)) (ret (r, false)) _ same (
          Ends-bind P (load 1 resp 3)
            (λ id. ret (record r { recipe_id = pos id; active = true }, true)) done))

register_response-Keeps : (r : Recipe) (resp : Option Bytes) → Keeps r (register_response r resp)
unfolding register_response
register_response-Keeps r none = (refl, refl, refl)
register_response-Keeps r (some resp) =
    Ends-bind _ (rtde_control_package_resp_validate (some resp)) _
      λ v. Ends-if _ (not v) _ _ (refl, refl, refl) (accept_response-Keeps r resp)

-- A recipe is laid out from its construction on, whatever is called except `clear_fields`: the
-- fields follow one another from offset 0 without a gap or an overlap up to `bytes`, and each has a
-- type that its direction can have and that type's size.
pub operated-IsLaidOut :
    (a b c : Bool) (r s : Recipe) → new_recipe a b c ≡ ret r → Operated r s → IsLaidOut s
operated-IsLaidOut a b c r s h unchanged = subst (Ends IsLaidOut) h (new_recipe-IsLaidOut a b c)
operated-IsLaidOut a b c r s h (added name t p) =
    add_field-IsLaidOut _ name t (operated-IsLaidOut a b c r _ h p)
operated-IsLaidOut a b c r s h (turned has_dp dir p) =
    set_dir-IsLaidOut has_dp _ dir (operated-IsLaidOut a b c r _ h p)
operated-IsLaidOut a b c r s h (tracked ram t p) =
    track-IsLaidOut _ ram t (operated-IsLaidOut a b c r _ h p)
operated-IsLaidOut a b c r s h (asked q s' msg e p) =
    IsLaidOut-SameFields q s' (subst (Keeps q) e (get_msg-Keeps q))
      (operated-IsLaidOut a b c r q h p)
operated-IsLaidOut a b c r s h (answered q s' resp done e p) =
    IsLaidOut-SameFields q s' (subst (Keeps q) e (register_response-Keeps q resp))
      (operated-IsLaidOut a b c r q h p)

-- The names that a program adds, each with the address of its storage.
abbrev pub add_all : Recipe → List (String × ℕ) → Recipe
add_all r [] = r
add_all r (f ∷ fs) = add_all (add_field r f.0 (some f.1)).0 fs

add_field-bytes :
    (r s : Recipe) (n : ℕ) (name : String) (t : ℕ)
    → r.dir_out ≡ s.dir_out
    → r.bytes ≡ n + s.bytes
    → ((add_field r name (some t)).0.dir_out ≡ (add_field s name (some t)).0.dir_out)
      × ((add_field r name (some t)).0.bytes ≡ n + (add_field s name (some t)).0.bytes)
unfolding add_field push_field
add_field-bytes r s n name t d h = elim (Option-cases (field_token s.dir_out name t)) [
  | inl e ↦ rw (d, e, add_field) (d, h)
  | inr (k, e) ↦ rw (d, e, add_field) (d, omega (arith, h))
]

add_all-bytes :
    (r s : Recipe) (n : ℕ) (fs : List (String × ℕ))
    → r.dir_out ≡ s.dir_out
    → r.bytes ≡ n + s.bytes
    → (add_all r fs).bytes ≡ n + (add_all s fs).bytes
add_all-bytes r s n [] d h = h
add_all-bytes r s n (f ∷ fs) d h =
    let (d', h') = add_field-bytes r s n f.0 f.1 d h in
    add_all-bytes (add_field r f.0 (some f.1)).0 (add_field s f.0 (some f.1)).0 n fs d' h'

-- `clear_fields` does not reset the byte count. What is added afterwards makes a recipe that expects
-- the bytes of the cleared fields on top of the bytes that the same fields take in a recipe without
-- them.
pub clear_fields-add_all :
    (r : Recipe) (fs : List (String × ℕ))
    → (add_all (clear_fields r) fs).bytes
      ≡ r.bytes + (add_all (record r { fields = []; bytes = 0 }) fs).bytes
unfolding clear_fields
clear_fields-add_all r fs =
    add_all-bytes (clear_fields r) (record r { fields = []; bytes = 0 }) r.bytes fs refl
      (omega arith)
