-- ===== src/Recipe/Layout/Packed.antt =====
-- The payload of a package as the bytes of its fields, one after another.
use lib_urx.Base.{
  zero, suc, refl, [], ◌∷◌, ℕ, ◌≡◌, take, List, Bool, [], ◌∷◌, ◌+◌, suc, All, ◌++◌, drop, arith, ap,
  ◌-◌,
}
use native.Mathlib.Nat.{zero-add}
use lib_urx.Memory.Laws.{drop-drop}
use lib_urx.Memory.{Ram}
use lib_urx.Bytes.{Bytes}
use lib_urx.Token.{Token}
use lib_urx.Recipe.Layout.{Layout, Layout-le}
use lib_urx.Recipe.Layout.Store.{sent}

take_nil : (k : ℕ) → take {A = ℕ} k [] ≡ []
take_nil zero = refl
take_nil (suc k) = refl

take-add : (n k : ℕ) (xs : Bytes) → take (n + k) xs ≡ take n xs ++ take k (drop n xs)
take-add zero k xs = rw zero-add
take-add (suc n) k [] = let more : suc n + k ≡ suc (n + k) = omega arith in rw (more, take_nil k)
take-add (suc n) k (x ∷ xs) =
    let more : suc n + k ≡ suc (n + k) = omega arith in rw more (ap (◌∷◌ x) (take-add n k xs))

-- The bytes of the fields, one after another.
abbrev pub packed : Ram → List Token → Bytes
packed m [] = []
packed m (k ∷ ks) = sent m k ++ packed m ks

pub Layout-packed :
    (dir : Bool) (o : ℕ) (ks : List Token) (e n : ℕ) (m : Ram) (q : Bytes)
    → o + n ≡ e
    → Layout dir o ks e
    → All (λ k. take k.datasize (drop k.offset q) ≡ sent m k) ks
    → take n (drop o q) ≡ packed m ks
Layout-packed dir o [] e n m q t l h = let none_left : n ≡ 0 = omega arith in rw none_left
Layout-packed dir o (k ∷ ks) e n m q t l h =
    let left = e - (o + k.datasize) in
    let more = Layout-le dir (o + k.datasize) ks e l.2 in
    let size : n ≡ k.datasize + left = omega (arith, more) in
    let first : take k.datasize (drop o q) ≡ sent m k = rw (← l.1) h.0 in
    let rest = Layout-packed dir (o + k.datasize) ks e left m q (omega (arith, more)) l.2 h.1 in
    rw (size, take-add k.datasize left (drop o q), drop-drop k.datasize o q, first, rest)
