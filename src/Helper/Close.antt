-- ===== src/Helper/Close.antt =====
-- When two vectors are close.
use lib_urx.Base.{
  length-take, ◌∙◌, ℕ, suc, ◌≡◌, ◌≤◌, ◌↔◌, ◌==◌, refl, ap, true, false, List, [], ◌∷◌, length, take,
  ret, arith, Bool-cases, inl, inr,
}
use lib_urx.Double.{double_lt}
use lib_urx.Helper.{close_vec, close_vec_unsafe, all_close, is_far, absf}

-- No pair of elements is far apart.
abbrev pub AreNear : (ℕ → ℕ → ℕ) → ℕ → List ℕ → List ℕ → Type 0
AreNear minus epsilon [] [] = Unit {0}
AreNear minus epsilon (a ∷ xs) (b ∷ ys) =
    (double_lt epsilon (absf (minus a b)) ≡ false) × AreNear minus epsilon xs ys
AreNear minus epsilon _ _ = ⊥

all_close-near :
    (minus : ℕ → ℕ → ℕ) (xs ys : List ℕ) (epsilon : ℕ)
    → length xs ≡ length ys
    → (all_close minus xs ys epsilon ≡ true) ↔ AreNear minus epsilon xs ys
unfolding all_close is_far
all_close-near minus [] [] epsilon e = (λ h. tt, λ h. refl)
all_close-near minus (a ∷ xs) (b ∷ ys) epsilon e =
    let (to, from) = all_close-near minus xs ys epsilon (omega (arith, e)) in
    elim (Bool-cases (double_lt epsilon (absf (minus a b)))) [
      | inl f ↦ (λ h. cc (rw f at h), λ h. cc (f, h.0))
      | inr f ↦ (λ h. (f, to (rw f at h)), λ h. rw f (from h.1))
    ]
all_close-near minus [] (b ∷ ys) epsilon e = absurd (omega arith)
all_close-near minus (a ∷ xs) [] epsilon e = absurd (omega arith)

near_length :
    (minus : ℕ → ℕ → ℕ) (epsilon : ℕ) (xs ys : List ℕ)
    → AreNear minus epsilon xs ys
    → length xs ≡ length ys
near_length minus epsilon [] [] h = refl
near_length minus epsilon (a ∷ xs) (b ∷ ys) h = ap suc (near_length minus epsilon xs ys h.1)
near_length minus epsilon [] (b ∷ ys) h = absurd h
near_length minus epsilon (a ∷ xs) [] h = absurd h

-- `close_vec` returns true exactly if the vectors have one size and no difference of two elements
-- at one place is greater than epsilon. (A difference that is not a number is not greater.)
pub close_vec-near :
    (minus : ℕ → ℕ → ℕ) (xs ys : List ℕ) (epsilon : ℕ)
    → (close_vec minus xs ys epsilon ≡ true) ↔ AreNear minus epsilon xs ys
unfolding close_vec
close_vec-near minus xs ys epsilon = elim (Bool-cases (length xs == length ys)) [
  | inl e ↦
      let same : length xs ≡ length ys = ground (arith, e) in
      let (to, from) = all_close-near minus xs ys epsilon same in
      (λ h. to (rw e at h), λ h. rw e (from h))
  | inr e ↦ (
    λ h. cc (rw e at h),
    λ h.
        let same = near_length minus epsilon xs ys h in
        let apart : (length xs == length ys) ≡ true = ground (arith, same) in cc (e, apart),
  )
]

unsafe_all :
    (minus : ℕ → ℕ → ℕ) (xs ys : List ℕ) (epsilon : ℕ)
    → length ys ≤ length xs
    → close_vec_unsafe minus xs ys epsilon ≡ ret (all_close minus (take (length ys) xs) ys epsilon)
unfolding close_vec_unsafe all_close
unsafe_all minus xs [] epsilon h = refl
unsafe_all minus [] (b ∷ ys) epsilon h = absurd (omega arith)
unsafe_all minus (a ∷ xs) (b ∷ ys) epsilon h = elim (Bool-cases (is_far minus epsilon a b)) [
  | inl e ↦ rw e
  | inr e ↦ rw e (unsafe_all minus xs ys epsilon (omega (arith, h)))
]

-- Where the array has the elements, `close_vec_unsafe` compares its first ones as `close_vec` does,
-- and reads no other.
pub close_vec_unsafe-agrees :
    (minus : ℕ → ℕ → ℕ) (xs ys : List ℕ) (epsilon : ℕ)
    → length ys ≤ length xs
    → close_vec_unsafe minus xs ys epsilon ≡ ret (close_vec minus (take (length ys) xs) ys epsilon)
unfolding close_vec
close_vec_unsafe-agrees minus xs ys epsilon h =
    let len : length (take (length ys) xs) ≡ length ys =
      omega (arith, length-take (length ys) xs, h) in
    let same : (length (take (length ys) xs) == length ys) ≡ true = ground (arith, len) in
    unsafe_all minus xs ys epsilon h ∙ rw same
