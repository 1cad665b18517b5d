-- ===== src/Memory/Laws.antt =====
-- What an access reads after a write, and when it stays inside its buffer.
use native.Mathlib.Nat.{add-zero, zero-add}
use lib_urx.Base.{
  ◌==◌, if◌then◌else◌, ℕ, zero, suc, ◌+◌, ◌≤◌, ◌<◌, ◌≡◌, refl, ap, ◌∙◌, ◌⊎◌, [], ◌∷◌, ◌++◌, length,
  take, drop, length-drop, All, fault, ret, arith, sym,
}
use lib_urx.Bytes.{Bytes, le_value, le_bytes, length-le_bytes, AreBytes}
use lib_urx.Memory.{front, slice, patch, write, load, store, Ram, peek, poke, c_string}

pub front_lem : (n : ℕ) (bs : Bytes) → n ≤ length bs → front n bs ≡ ret (take n bs)
unfolding front
front_lem zero bs h = refl
front_lem (suc n) [] h = absurd (omega arith)
front_lem (suc n) (b ∷ bs) h = rw (front_lem n bs (omega arith))

pub front_short : (n : ℕ) (bs : Bytes) → length bs < n → front n bs ≡ fault
unfolding front
front_short zero bs h = absurd (omega arith)
front_short (suc n) [] h = refl
front_short (suc n) (b ∷ bs) h = rw (front_short n bs (omega arith))

pub slice_lem :
    (buf : Bytes) (off n : ℕ) → off + n ≤ length buf → slice buf off n ≡ ret (take n (drop off buf))
unfolding slice
slice_lem buf off n h = front_lem n (drop off buf) (omega (arith, length-drop off buf))

pub write_lem :
    (buf : Bytes) (off : ℕ) (bs : Bytes)
    → off + length bs ≤ length buf
    → write buf off bs ≡ ret (patch buf off bs)
unfolding write
write_lem buf off bs h = rw (slice_lem buf off (length bs) h)

pub write_short :
    (buf : Bytes) (off : ℕ) (bs : Bytes)
    → length buf < off + length bs
    → off ≤ length buf
    → write buf off bs ≡ fault
unfolding write slice
write_short buf off bs h k =
    rw (front_short (length bs) (drop off buf) (omega (arith, length-drop off buf)))

pub length-patch : (buf : Bytes) (off : ℕ) (bs : Bytes) → length (patch buf off bs) ≡ length buf
unfolding patch
length-patch buf zero [] = refl
length-patch [] zero (b ∷ bs) = refl
length-patch [] (suc off) bs = refl
length-patch (x ∷ buf) zero (b ∷ bs) = ap suc (length-patch buf zero bs)
length-patch (x ∷ buf) (suc off) bs = ap suc (length-patch buf off bs)

pub patch_self :
    (buf : Bytes) (off : ℕ) (bs : Bytes)
    → off + length bs ≤ length buf
    → take (length bs) (drop off (patch buf off bs)) ≡ bs
unfolding patch
patch_self [] zero [] h = refl
patch_self [] (suc off) [] h = refl
patch_self [] off (b ∷ bs) h = absurd (omega arith)
patch_self (x ∷ buf) zero [] h = refl
patch_self (x ∷ buf) zero (b ∷ bs) h = ap (◌∷◌ b) (patch_self buf zero bs (omega arith))
patch_self (x ∷ buf) (suc off) bs h = patch_self buf off bs (omega arith)

-- A write leaves what stands before it and behind it.
pub patch_before :
    (buf : Bytes) (off : ℕ) (bs : Bytes) (i n : ℕ)
    → i + n ≤ off
    → take n (drop i (patch buf off bs)) ≡ take n (drop i buf)
unfolding patch
patch_before [] zero [] i n h = refl
patch_before [] zero (b ∷ bs) i n h = refl
patch_before [] (suc off) bs i n h = refl
patch_before (x ∷ buf) zero [] i n h = refl
patch_before (x ∷ buf) zero (b ∷ bs) zero zero h = refl
patch_before (x ∷ buf) zero (b ∷ bs) zero (suc n) h = absurd (omega arith)
patch_before (x ∷ buf) zero (b ∷ bs) (suc i) n h = absurd (omega arith)
patch_before (x ∷ buf) (suc off) bs zero zero h = refl
patch_before (x ∷ buf) (suc off) bs zero (suc n) h =
    ap (◌∷◌ x) (patch_before buf off bs zero n (omega arith))
patch_before (x ∷ buf) (suc off) bs (suc i) n h = patch_before buf off bs i n (omega arith)

pub patch_after :
    (buf : Bytes) (off : ℕ) (bs : Bytes) (i : ℕ)
    → off + length bs ≤ i
    → drop i (patch buf off bs) ≡ drop i buf
unfolding patch
patch_after [] zero [] i h = refl
patch_after [] zero (b ∷ bs) i h = refl
patch_after [] (suc off) bs i h = refl
patch_after (x ∷ buf) zero [] i h = refl
patch_after (x ∷ buf) zero (b ∷ bs) zero h = absurd (omega arith)
patch_after (x ∷ buf) zero (b ∷ bs) (suc i) h = patch_after buf zero bs i (omega arith)
patch_after (x ∷ buf) (suc off) bs zero h = absurd (omega arith)
patch_after (x ∷ buf) (suc off) bs (suc i) h = patch_after buf off bs i (omega arith)

pub take-patch :
    (buf : Bytes) (off : ℕ) (bs : Bytes)
    → off + length bs ≤ length buf
    → take (off + length bs) (patch buf off bs) ≡ take off buf ++ bs
unfolding patch
take-patch [] zero [] h = refl
take-patch [] zero (b ∷ bs) h = absurd (omega arith)
take-patch [] (suc off) bs h = absurd (omega arith)
take-patch (x ∷ buf) zero [] h = refl
take-patch (x ∷ buf) zero (b ∷ bs) h =
    let e : 0 + suc (length bs) ≡ suc (0 + length bs) = omega arith in
    rw e (ap (◌∷◌ b) (take-patch buf zero bs (omega arith)))
take-patch (x ∷ buf) (suc off) bs h =
    let e : suc off + length bs ≡ suc (off + length bs) = omega arith in
    rw e (ap (◌∷◌ x) (take-patch buf off bs (omega arith)))

pub store_lem :
    (n : ℕ) (buf : Bytes) (off v : ℕ)
    → off + n ≤ length buf
    → store n buf off v ≡ ret (patch buf off (le_bytes n v))
unfolding store
store_lem n buf off v h = write_lem buf off (le_bytes n v) (omega (arith, length-le_bytes n v))

pub load_lem :
    (n : ℕ) (buf : Bytes) (off : ℕ)
    → off + n ≤ length buf
    → load n buf off ≡ ret (le_value (take n (drop off buf)))
unfolding load
load_lem n buf off h = rw (slice_lem buf off n h)

-- Memory of the using program.
pub length-peek : (m : Ram) (a n : ℕ) → length (peek m a n) ≡ n
unfolding peek
length-peek m a zero = refl
length-peek m a (suc n) = ap suc (length-peek m (suc a) n)

pub poke_outside :
    (m : Ram) (a : ℕ) (bs : Bytes) (x : ℕ) → (x < a) ⊎ (a + length bs ≤ x) → poke m a bs x ≡ m x
unfolding poke
poke_outside m a [] x h = refl
poke_outside m a (b ∷ bs) x h =
    poke_outside (λ y. if y == a then b else m y) (suc a) bs x (omega arith) ∙ ground arith

pub peek-poke_outside :
    (m : Ram) (a : ℕ) (bs : Bytes) (x n : ℕ)
    → (x + n ≤ a) ⊎ (a + length bs ≤ x)
    → peek (poke m a bs) x n ≡ peek m x n
unfolding peek
peek-poke_outside m a bs x zero h = refl
peek-poke_outside m a bs x (suc n) h =
    rw (poke_outside m a bs x (omega arith), peek-poke_outside m a bs (suc x) n (omega arith))

pub peek-poke_self : (m : Ram) (a : ℕ) (bs : Bytes) → peek (poke m a bs) a (length bs) ≡ bs
unfolding peek poke
peek-poke_self m a [] = refl
peek-poke_self m a (b ∷ bs) =
    let m' : Ram = λ y. if y == a then b else m y in
    let first : poke m' (suc a) bs a ≡ b =
      poke_outside m' (suc a) bs a (omega arith) ∙ ground arith in
    rw first (ap (◌∷◌ b) (peek-poke_self m' (suc a) bs))

pub poke-append :
    (m : Ram) (a : ℕ) (bs cs : Bytes) → poke m a (bs ++ cs) ≡ poke (poke m a bs) (a + length bs) cs
unfolding poke
poke-append m a [] cs = rw add-zero
poke-append m a (b ∷ bs) cs =
    let shift : suc a + length bs ≡ a + suc (length bs) = omega arith in
    rw (← shift) (poke-append (λ y. if y == a then b else m y) (suc a) bs cs)

-- A string that is written with its terminator is read back.
pub c_string_lem : (s rest : Bytes) → All (λ c. 0 < c) s → c_string (s ++ (0 ∷ rest)) ≡ ret s
unfolding c_string
c_string_lem [] rest h = refl
c_string_lem (c ∷ s) rest h = ground (arith, c_string_lem s rest h.1)

pub take-AreBytes : (n : ℕ) (bs : Bytes) → AreBytes bs → AreBytes (take n bs)
take-AreBytes zero bs h = tt
take-AreBytes (suc n) [] h = tt
take-AreBytes (suc n) (b ∷ bs) h = (h.0, take-AreBytes n bs h.1)

pub drop-AreBytes : (n : ℕ) (bs : Bytes) → AreBytes bs → AreBytes (drop n bs)
drop-AreBytes zero bs h = h
drop-AreBytes (suc n) [] h = tt
drop-AreBytes (suc n) (b ∷ bs) h = drop-AreBytes n bs h.1

drop_nil : (m : ℕ) → drop {A = ℕ} m [] ≡ []
drop_nil zero = refl
drop_nil (suc m) = refl

pub drop-drop : (m n : ℕ) (bs : Bytes) → drop m (drop n bs) ≡ drop (n + m) bs
drop-drop m zero bs = rw zero-add
drop-drop m (suc n) [] = drop_nil m ∙ sym (drop_nil (suc n + m))
drop-drop m (suc n) (b ∷ bs) =
    let e : suc n + m ≡ suc (n + m) = omega arith in rw e (drop-drop m n bs)

pub patch-AreBytes :
    (buf : Bytes) (off : ℕ) (bs : Bytes) → AreBytes buf → AreBytes bs → AreBytes (patch buf off bs)
unfolding patch
patch-AreBytes buf zero [] h k = h
patch-AreBytes [] zero (b ∷ bs) h k = tt
patch-AreBytes (x ∷ buf) zero (b ∷ bs) h k = (k.0, patch-AreBytes buf zero bs h.1 k.1)
patch-AreBytes [] (suc off) bs h k = tt
patch-AreBytes (x ∷ buf) (suc off) bs h k = (h.0, patch-AreBytes buf off bs h.1 k)
