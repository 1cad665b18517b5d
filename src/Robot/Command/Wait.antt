-- ===== src/Robot/Command/Wait.antt =====
-- When `wait_for_q_ref` ends.
use native.Mathlib.Nat.{add-zero, zero-add}
use lib_urx.Base.{ℕ, zero, suc, ◌+◌, ◌<◌, ◌≡◌, ◌==◌, true, Bool-cases, inl, inr, ◌↔◌, arith}
use lib_urx.Robot.Command.{wait_attempts, wait_for_q_ref}

attempts-find :
    (n i k : ℕ) (seen : ℕ → ℕ) (seqnr : ℕ)
    → k < n
    → seen (i + k) ≡ seqnr
    → wait_attempts n i seen seqnr ≡ true
unfolding wait_attempts
attempts-find zero i k seen seqnr h e = absurd (omega arith)
attempts-find (suc n) i zero seen seqnr h e =
    let first : seen i ≡ seqnr = rw (← add-zero i) e in ground (arith, first)
attempts-find (suc n) i (suc k) seen seqnr h e =
    let shift : i + suc k ≡ (i + 1) + k = omega arith in
    let rest = attempts-find n (i + 1) k seen seqnr (omega (arith, h)) (rw (← shift) e) in
    elim (Bool-cases (seen i == seqnr)) [ inl f ↦ rw f | inr f ↦ rw f rest ]

attempts-found :
    (n i : ℕ) (seen : ℕ → ℕ) (seqnr : ℕ)
    → wait_attempts n i seen seqnr ≡ true
    → (k : ℕ) × (k < n) × (seen (i + k) ≡ seqnr)
unfolding wait_attempts
attempts-found zero i seen seqnr h = cc
attempts-found (suc n) i seen seqnr h = elim (Bool-cases (seen i == seqnr)) [
  | inl f ↦ let first : seen i ≡ seqnr = ground (arith, f) in (0, omega arith, rw add-zero first)
  | inr f ↦
      let (k, less, e) = attempts-found n (i + 1) seen seqnr (rw f at h) in
      let shift : i + suc k ≡ (i + 1) + k = omega arith in (suc k, omega (arith, less), rw shift e)
]

-- `wait_for_q_ref` ends, after at most 500 attempts, and it ends with the number exactly if one of
-- the first 500 waits saw it.
pub wait_for_q_ref-finds :
    (seen : ℕ → ℕ) (seqnr : ℕ)
    → (wait_for_q_ref seen seqnr ≡ true) ↔ ((k : ℕ) × (k < 500) × (seen k ≡ seqnr))
unfolding wait_for_q_ref
wait_for_q_ref-finds seen seqnr = (
  λ h. let (k, less, e) = attempts-found 500 0 seen seqnr h in (k, less, rw zero-add at e),
  λ h. let (k, less, e) = h in attempts-find 500 0 k seen seqnr less (rw zero-add e),
)
