-- ===== src/Handler/Sending.antt =====
-- A client between its calls: it sends the packages of one input recipe.
use mathlib.Core.Path.{subst}
use lib_urx.Base.{
  ℕ, ◌≡◌, ◌≤◌, ◌+◌, ◌==◌, refl, ap, ◌∙◌, true, false, if◌then◌else◌, List, [], ◌∷◌, length, take,
  drop, All, Option, some, ℤ, pos, ret, arith, Bool-cases, inl, inr,
}
use lib_urx.Bytes.{Bytes}
use lib_urx.Header.Package.{hdr_size}
use lib_urx.Token.{Token}
use lib_urx.Token.Store.{IsRam}
use lib_urx.Recipe.{Recipe}
use lib_urx.Recipe.Layout.{Layout}
use lib_urx.Recipe.Layout.Store.{sent}
use lib_urx.Recipe.Layout.Packed.{packed, Layout-packed}
use lib_urx.Handler.{Client, find_recipe, send}
use lib_urx.Handler.Updates.{updated, send-updates}
use lib_urx.Handler.Session.{Hears}

-- The input recipe at p is registered, with some fields.
pub record Sends (h : Client) (p n : ℕ) (id : ℤ) (ks : List Token) : Type 0 where
  pub registered : find_recipe h.recipes h.recipes_in id ≡ some p
  pub fields : (h.recipes p).fields ≡ ks
  pub bytes : (h.recipes p).bytes ≡ n
  pub dir_in : (h.recipes p).dir_out ≡ false
  pub block : (dp : Bytes) × ((h.recipes p).dp ≡ some dp) × (length dp ≡ 2048)
  pub connected : h.con.connected ≡ true
  pub memory : IsRam h.ram

abbrev with_dp : (ℕ → Recipe) → ℕ → Bytes → ℕ → Recipe
with_dp recipes p b = λ q. if q == p then record (recipes p) { dp = some b } else recipes q

-- A recipe with another package behind it is the same but for the package.
with_dp_lem :
    (recipes : ℕ → Recipe) (p q : ℕ) (b : Bytes)
    → (d : Option Bytes) × (with_dp recipes p b q ≡ record (recipes q) { dp = d })
with_dp_lem recipes p q b = elim (Bool-cases (q == p)) [
  | inl e ↦ let same : q ≡ p = ground (arith, e) in (some b, rw (e, same))
  | inr e ↦ ((recipes q).dp, rw e)
]

find_recipe-with_dp :
    (recipes : ℕ → Recipe) (es : List (ℤ × ℕ)) (id : ℤ) (p : ℕ) (b : Bytes)
    → find_recipe (with_dp recipes p b) es id ≡ find_recipe recipes es id
unfolding find_recipe
find_recipe-with_dp recipes [] id p b = refl
find_recipe-with_dp recipes (e ∷ es) id p b =
    let (d, same) = with_dp_lem recipes p e.1 b in
    let ids : (with_dp recipes p b e.1).recipe_id ≡ (recipes e.1).recipe_id =
      ap (λ r. r.recipe_id) same in
    rw (ids, find_recipe-with_dp recipes es id p b)

-- A client that sends goes on sending, and hands the connection the fields one after another.
pub sends :
    (h : Client) (p n w : ℕ) (id : ℤ) (ks : List Token)
    → Layout false 0 ks n
    → n ≤ 2044
    → 4 + n ≤ w
    → Sends h p n id ks
    → (b : Bytes) × (send h id (pos w) ≡ ret (updated h p b (4 + n), true))
      × (hdr_size b ≡ ret (4 + n))
      × (take n (drop 4 b) ≡ packed h.ram ks)
      × Sends (updated h p b (4 + n)) p n id ks
sends h p n w id ks l fits room i =
    let (dp, block, len) = i.block in
    let (b, run, whole, size, valid, fields) =
      send-updates h id p w dp i.registered (rw (i.dir_in, i.fields, i.bytes) l) i.dir_in i.memory
        block len (omega (arith, i.bytes, fits)) i.connected (omega (arith, i.bytes, room)) in
    let payload = Layout-packed false 0 ks n n h.ram (drop 4 b) (omega arith) l (
      subst (All (λ k. take k.datasize (drop k.offset (drop 4 b)) ≡ sent h.ram k)) i.fields
        fields) in
    let (d, same) = with_dp_lem h.recipes p p b in
    let itself : (p == p) ≡ true = ground arith in
    (
      b,
      run ∙ ap (λ k. ret (updated h p b (4 + k), true)) i.bytes,
      size ∙ ap (λ k. ret (4 + k)) i.bytes,
      payload,
      record {
        registered = find_recipe-with_dp h.recipes h.recipes_in id p b ∙ i.registered;
        fields = ap (λ r. r.fields) same ∙ i.fields;
        bytes = ap (λ r. r.bytes) same ∙ i.bytes;
        dir_in = ap (λ r. r.dir_out) same ∙ i.dir_in;
        block = (b, rw itself, whole);
        connected = i.connected;
        memory = i.memory;
      },
    )

-- Sending does not disturb what is heard.
pub Hears-updated :
    (h : Client) (p q id n size : ℕ) (b : Bytes) (stamp : Option ℕ) (ks : List Token)
    → Hears h q id n stamp ks
    → Hears (updated h p b size) q id n stamp ks
Hears-updated h p q id n size b stamp ks i =
    let (d, same) = with_dp_lem h.recipes p q b in
    record {
      registered = i.registered;
      fields = ap (λ r. r.fields) same ∙ i.fields;
      bytes = ap (λ r. r.bytes) same ∙ i.bytes;
      dir_out = ap (λ r. r.dir_out) same ∙ i.dir_out;
      recipe_id = ap (λ r. r.recipe_id) same ∙ i.recipe_id;
      tracked = ap (λ r. r.ts_ns) same ∙ i.tracked;
      room = i.room;
      are_bytes = i.are_bytes;
      memory = i.memory;
    }
