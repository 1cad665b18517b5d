-- ===== src/Handler/Updates.antt =====
-- The updates that the protocol client sends.
use lib_urx.Base.{
  negsuc, ℕ, [], none, some, inl, inr, take, ℤ, List, ◌≡◌, All, ◌∷◌, false, if◌then◌else◌, length,
  eq_ℤ, ◌≤◌, true, ◌+◌, pos, ret, not, eq_ℤ_iff, Bool-cases, ◌==◌, drop, arith, is_positive, ◌∙◌,
  sym,
}
use lib_urx.Bytes.{Bytes}
use lib_urx.Header.Package.{hdr_size}
use lib_urx.Header.Control.{low_byte}
use lib_urx.Header.Responses.{rtde_parse_data_package}
use lib_urx.Recipe.{Recipe}
use lib_urx.Recipe.Layout.{IsLaidOut}
use lib_urx.Recipe.Layout.Store.{sent, store-packs}
use lib_urx.Token.Store.{IsRam}
use lib_urx.Con.{Con, do_send}
use lib_urx.Con.Laws.{do_send_lem}
use lib_urx.Handler.{Client, find_recipe, insert, send, put_recipe}

-- The client after a package went out for the recipe at p.
abbrev pub updated : Client → ℕ → Bytes → ℕ → Client
updated h p b size = record (put_recipe h p (record (h.recipes p) { dp = some b })) {
  con = record h.con { outgoing = take size b ∷ h.con.outgoing };
}

-- Over a connection that takes the whole package, `send` with the id of a registered input recipe
-- hands it one data package of exactly the recipe's size, in which every field's place holds the
-- bytes of its storage in network order, and returns true.
pub send-updates :
    (h : Client) (id : ℤ) (p n : ℕ) (dp : Bytes)
    → find_recipe h.recipes h.recipes_in id ≡ some p
    → IsLaidOut (h.recipes p)
    → (h.recipes p).dir_out ≡ false
    → IsRam h.ram
    → (h.recipes p).dp ≡ some dp
    → length dp ≡ 2048
    → (h.recipes p).bytes ≤ 2044
    → h.con.connected ≡ true
    → 4 + (h.recipes p).bytes ≤ n
    → (b : Bytes) × (send h id (pos n) ≡ ret (updated h p b (4 + (h.recipes p).bytes), true))
      × (length b ≡ 2048)
      × (hdr_size b ≡ ret (4 + (h.recipes p).bytes))
      × (rtde_parse_data_package (some b) ≡ ret (not (low_byte (h.recipes p).recipe_id == 0)))
      × All (λ k. take k.datasize (drop k.offset (drop 4 b)) ≡ sent h.ram k) (h.recipes p).fields
unfolding send
send-updates h id p n dp f l d m e len fits c w =
    let r = h.recipes p in
    let (b, packed, size, room, valid, fields) = store-packs r h.ram dp l d m len fits in
    let out = do_send_lem h.con b (4 + r.bytes) n c (omega (arith, size, fits)) w in
    let positive : is_positive (pos n) ≡ true = ground (arith, w) in
    (b, simp (f, e, packed, room, out, positive, send), size, room, valid, fields)

unconnected :
    (c : Con) (b : Bytes) (n : ℕ) (written : ℤ)
    → c.connected ≡ false
    → do_send c b n written ≡ ret (c, negsuc 0)
unfolding do_send
unconnected c b n written e = rw e

-- Without a connection the package is packed and kept, and the result is false.
pub send-unsent :
    (h : Client) (id written : ℤ) (p : ℕ) (dp : Bytes)
    → find_recipe h.recipes h.recipes_in id ≡ some p
    → IsLaidOut (h.recipes p)
    → (h.recipes p).dir_out ≡ false
    → IsRam h.ram
    → (h.recipes p).dp ≡ some dp
    → length dp ≡ 2048
    → (h.recipes p).bytes ≤ 2044
    → h.con.connected ≡ false
    → (b : Bytes) × (send h id written
        ≡ ret (put_recipe h p (record (h.recipes p) { dp = some b }), false))
unfolding send
send-unsent h id written p dp f l d m e len fits c =
    let r = h.recipes p in
    let (b, packed, size, room, valid, fields) = store-packs r h.ram dp l d m len fits in
    (b, simp (f, e, packed, room, unconnected h.con b (4 + r.bytes) written c, send))

-- `insert` keeps what the table has: the first registration of an id stays, and every other id is
-- found as before.
pub insert-lookup :
    (recipes : ℕ → Recipe) (es : List (ℤ × ℕ)) (id other : ℤ) (p : ℕ)
    → All (λ e. (recipes e.1).recipe_id ≡ e.0) es
    → (recipes p).recipe_id ≡ id
    → find_recipe recipes (insert id p es) other ≡ (
        if eq_ℤ id other
        then elim (find_recipe recipes es id) [ none ↦ some p | some q ↦ some q ]
        else find_recipe recipes es other)
unfolding find_recipe insert
insert-lookup recipes [] id other p h k = rw k
insert-lookup recipes (e ∷ es) id other p h k =
    let rest = insert-lookup recipes es id other p h.1 k in
    let (to, from) = eq_ℤ_iff e.0 id in
    elim (Bool-cases (eq_ℤ e.0 id)) [
      | inl a ↦ let same = to a in rw (h.0, a, ← same) (ground arith)
      | inr a ↦ elim (Bool-cases (eq_ℤ e.0 other)) [
        | inl c ↦
            let found = (eq_ℤ_iff e.0 other).0 c in
            let apart : eq_ℤ id other ≡ false = elim (Bool-cases (eq_ℤ id other)) [
              | inl t ↦ cc (from (found ∙ sym ((eq_ℤ_iff id other).0 t)), a)
              | inr f ↦ f
            ] in
            rw (h.0, a, h.0, c, apart)
        | inr c ↦ rw (h.0, a, h.0, c) rest
      ]
    ]
