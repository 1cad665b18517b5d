-- ===== src/Robot/Doubles.antt =====
-- Arrays of doubles in the memory and in a package.
use native.Mathlib.Nat.{add-zero, zero-add}
use mathlib.Core.Path.{subst}
use lib_urx.Base.{
  ℕ, zero, suc, ◌+◌, ◌*◌, ◌≤◌, ◌≡◌, refl, sym, ap, ◌∙◌, ◌⊎◌, List, [], ◌∷◌, ◌++◌, reverse, length,
  length-reverse, length-take, take, drop, take_append, drop_append, arith, length-drop,
}
use lib_urx.Bytes.{Bytes, be_value, le_bytes, le_value, length-le_bytes, le_bytes-AreBytes}
use lib_urx.Memory.{Ram, peek, poke}
use lib_urx.Memory.Laws.{peek-poke_self, peek-poke_outside, length-peek}
use lib_urx.Token.Laws.{swap_words}
use lib_urx.Token.Store.{IsRam, poke-IsRam}
use lib_urx.Robot.{read_doubles, write_doubles}

-- The n doubles in network order at the front of some bytes.
abbrev pub be_doubles : ℕ → Bytes → List ℕ
be_doubles zero bs = []
be_doubles (suc n) bs = be_value (take 8 bs) ∷ be_doubles n (drop 8 bs)

pub reversed : (w : ℕ) (bs : Bytes) → w ≤ length bs → length (reverse (take w bs)) ≡ w
reversed w bs h = length-reverse (take w bs) ∙ omega (arith, length-take w bs, h)

split : (xs ys zs us : Bytes) → length xs ≡ length zs → xs ++ ys ≡ zs ++ us → (xs ≡ zs) × (ys ≡ us)
split xs ys zs us e h = (
  sym (take_append xs ys)
      ∙ (subst (λ n. take n (xs ++ ys) ≡ zs) (sym e) (ap (take (length zs)) h ∙ take_append zs us)),
  sym (drop_append xs ys)
      ∙ (subst (λ n. drop n (xs ++ ys) ≡ us) (sym e) (ap (drop (length zs)) h ∙ drop_append zs us)),
)

peek-split : (m : Ram) (a n k : ℕ) → peek m a (n + k) ≡ peek m a n ++ peek m (a + n) k
unfolding peek
peek-split m a zero k = rw (add-zero, zero-add)
peek-split m a (suc n) k =
    let shift : a + suc n ≡ suc a + n = omega arith in
    let more : suc n + k ≡ suc (n + k) = omega arith in
    rw (shift, more) (ap (◌∷◌ (m a)) (peek-split m (suc a) n k))

-- Words that were swapped into the memory are the doubles of the package.
pub read_doubles-be :
    (n : ℕ) (m : Ram) (a : ℕ) (bs : Bytes)
    → n * 8 ≤ length bs
    → peek m a (n * 8) ≡ swap_words n 8 bs
    → read_doubles n m a ≡ be_doubles n bs
unfolding read_doubles
read_doubles-be zero m a bs h e = refl
read_doubles-be (suc n) m a bs h e =
    let more : suc n * 8 ≡ 8 + n * 8 = omega arith in
    let whole : peek m a 8 ++ peek m (a + 8) (n * 8)
        ≡ reverse (take 8 bs) ++ swap_words n 8 (drop 8 bs) =
      sym (peek-split m a 8 (n * 8)) ∙ ap (peek m a) (sym more) ∙ e ∙ unfold swap_words in refl in
    let len : length (peek m a 8) ≡ length (reverse (take 8 bs)) =
      length-peek m a 8 ∙ sym (reversed 8 bs (omega (arith, h))) in
    let (first, rest) = split (peek m a 8) _ (reverse (take 8 bs)) _ len whole in
    let value : le_value (peek m a 8) ≡ be_value (take 8 bs) =
      unfold be_value in ap le_value first in
    let values =
      read_doubles-be n m (a + 8) (drop 8 bs) (omega (arith, length-drop 8 bs, h)) rest in
    ap (λ x. x ∷ read_doubles n m (a + 8)) value ∙ ap (◌∷◌ (be_value (take 8 bs))) values

-- The bytes of a word in network order.
abbrev pub be_bytes : ℕ → ℕ → Bytes
be_bytes n v = reverse (le_bytes n v)

-- From a + i on, the memory holds some doubles.
abbrev pub Holds : Ram → ℕ → ℕ → List ℕ → Type 0
Holds m a i [] = Unit {0}
Holds m a i (x ∷ xs) = (peek m (a + i) 8 ≡ le_bytes 8 x) × Holds m a (8 + i) xs

-- A write that does not meet them.
pub Holds-poke :
    (m : Ram) (a i : ℕ) (xs : List ℕ) (b : ℕ) (bs : Bytes)
    → (b + length bs ≤ a + i) ⊎ (a + i + 8 * length xs ≤ b)
    → Holds m a i xs
    → Holds (poke m b bs) a i xs
Holds-poke m a i [] b bs c h = tt
Holds-poke m a i (x ∷ xs) b bs c h = (
  peek-poke_outside m b bs (a + i) 8 (omega (arith, c)) ∙ h.0,
  Holds-poke m a (8 + i) xs b bs (omega (arith, c)) h.1,
)

pub write_doubles_outside :
    (m : Ram) (a : ℕ) (xs : List ℕ) (x n : ℕ)
    → (x + n ≤ a) ⊎ (a + 8 * length xs ≤ x)
    → peek (write_doubles m a xs) x n ≡ peek m x n
unfolding write_doubles
write_doubles_outside m a [] x n h = refl
write_doubles_outside m a (y ∷ xs) x n h =
    let m' = poke m a (le_bytes 8 y) in
    write_doubles_outside m' (a + 8) xs x n (omega (arith, h))
    ∙ peek-poke_outside m a (le_bytes 8 y) x n (omega (arith, h, length-le_bytes 8 y))

pub write_doubles-Holds :
    (m : Ram) (b a i : ℕ) (xs : List ℕ) → b ≡ a + i → Holds (write_doubles m b xs) a i xs
unfolding write_doubles
write_doubles-Holds m b a i [] e = tt
write_doubles-Holds m b a i (x ∷ xs) e =
    let m' = poke m b (le_bytes 8 x) in
    let first : peek m' b 8 ≡ le_bytes 8 x =
      subst (λ n. peek m' b n ≡ le_bytes 8 x) (length-le_bytes 8 x)
        (peek-poke_self m b (le_bytes 8 x)) in
    (
      subst (λ c. peek (write_doubles m' (b + 8) xs) c 8 ≡ le_bytes 8 x) e
          (write_doubles_outside m' (b + 8) xs b 8 (omega arith) ∙ first),
      write_doubles-Holds m' (b + 8) a (8 + i) xs (omega (arith, e)),
    )

pub write_doubles-IsRam : (m : Ram) (a : ℕ) (xs : List ℕ) → IsRam m → IsRam (write_doubles m a xs)
unfolding write_doubles
write_doubles-IsRam m a [] h = h
write_doubles-IsRam m a (x ∷ xs) h =
    write_doubles-IsRam (poke m a (le_bytes 8 x)) (a + 8) xs
      (poke-IsRam m a (le_bytes 8 x) h (le_bytes-AreBytes 8 x))
