-- ===== src/Robot/Fields/Places.antt =====
-- No two fields of the robot's recipes share memory.
use lib_urx.Base.{ℕ, ◌+◌, ◌≤◌, List, [], ◌∷◌, ◌++◌, All, arith, inl, inr, All-append, ◌⊎◌}
use lib_urx.Robot.Fields.{
  InOrder, state_tokens, pose_tokens, Token, Members, Clear, Apart, q_ref_tokens, last_tokens,
  first_tokens,
}

-- Fields whose storages follow one another from one address to another.
abbrev Ascending : ℕ → List Token → ℕ → Type 0
Ascending lo [] hi = lo ≤ hi
Ascending lo (k ∷ ks) hi = (lo ≤ k.storage) × Ascending (k.storage + k.datasize) ks hi

Clear-Ascending :
    (a n lo : ℕ) (ks : List Token) (hi : ℕ) → Ascending lo ks hi → a + n ≤ lo → Clear a n ks
Clear-Ascending a n lo [] hi h c = tt
Clear-Ascending a n lo (k ∷ ks) hi h c = (
  inl (omega (arith, h.0, c)),
  Clear-Ascending a n (k.storage + k.datasize) ks hi h.1 (omega (arith, h.0, c)),
)

Ascending-le : (lo : ℕ) (ks : List Token) (hi : ℕ) → Ascending lo ks hi → lo ≤ hi
Ascending-le lo [] hi h = h
Ascending-le lo (k ∷ ks) hi h = omega (arith, h.0, Ascending-le (k.storage + k.datasize) ks hi h.1)

Clear-above : (a n lo : ℕ) (ks : List Token) (hi : ℕ) → Ascending lo ks hi → hi ≤ a → Clear a n ks
Clear-above a n lo [] hi h c = tt
Clear-above a n lo (k ∷ ks) hi h c = (
  inr (omega (arith, c, Ascending-le (k.storage + k.datasize) ks hi h.1)),
  Clear-above a n (k.storage + k.datasize) ks hi h.1 c,
)

Clear-high : (a n : ℕ) (ks : List Token) → All (λ j. a + n ≤ j.storage) ks → Clear a n ks
Clear-high a n [] h = tt
Clear-high a n (k ∷ ks) h = (inl h.0, Clear-high a n ks h.1)

All-raise :
    (a b : ℕ) (ks : List Token) → a ≤ b → All (λ j. b ≤ j.storage) ks → All (λ j. a ≤ j.storage) ks
All-raise a b [] c h = tt
All-raise a b (k ∷ ks) c h = (omega (arith, c, h.0), All-raise a b ks c h.1)

Apart-append :
    (lo : ℕ) (ks : List Token) (hi : ℕ) (js : List Token)
    → Ascending lo ks hi
    → All (λ j. hi ≤ j.storage) js
    → Apart js
    → Apart (ks ++ js)
Apart-append lo [] hi js h b d = d
Apart-append lo (k ∷ ks) hi js h b d =
    let next = k.storage + k.datasize in
    let above = All-raise next hi js (Ascending-le next ks hi h.1) b in
    (
      All-append (λ j. (k.storage + k.datasize ≤ j.storage) ⊎ (j.storage + j.datasize ≤ k.storage))
          ks js (Clear-Ascending k.storage k.datasize next ks hi h.1 (omega arith))
          (Clear-high k.storage k.datasize js above),
      Apart-append next ks hi js h.1 b d,
    )

Ascending-Apart : (lo : ℕ) (ks : List Token) (hi : ℕ) → Ascending lo ks hi → Apart ks
Ascending-Apart lo [] hi h = tt
Ascending-Apart lo (k ∷ ks) hi h = (
  Clear-Ascending k.storage k.datasize (k.storage + k.datasize) ks hi h.1 (omega arith),
  Ascending-Apart (k.storage + k.datasize) ks hi h.1,
)

Ascending-above :
    (lo : ℕ) (ks : List Token) (hi : ℕ) → Ascending lo ks hi → All (λ j. lo ≤ j.storage) ks
Ascending-above lo [] hi h = tt
Ascending-above lo (k ∷ ks) hi h =
    let next = k.storage + k.datasize in
    (h.0, All-raise lo next ks (omega (arith, h.0)) (Ascending-above next ks hi h.1))

pub state_tokens-Apart : (m : Members) → InOrder m → Apart (state_tokens m)
state_tokens-Apart m o =
    Ascending-Apart m.out_seqnr (state_tokens m) m.target_tcp_pose (omega arith)

pub pose_tokens-Apart : (m : Members) → InOrder m → Apart (pose_tokens m)
pose_tokens-Apart m o =
    let registers = q_ref_tokens m in
    let up : Ascending m.q_ref_buf registers m.q_ref_out_seqnr_buf = omega arith in
    let number =
      Clear-above m.q_ref_out_seqnr_buf 4 m.q_ref_buf registers m.q_ref_out_seqnr_buf up
        (omega arith) in
    let last : Apart (last_tokens m) =
      (number, Ascending-Apart m.q_ref_buf registers m.q_ref_out_seqnr_buf up) in
    Apart-append m.out_seqnr (first_tokens m) m.q_ref_buf (last_tokens m) (omega arith)
      (omega arith, Ascending-above m.q_ref_buf registers m.q_ref_out_seqnr_buf up) last

Ascending-below :
    (lo : ℕ) (ks : List Token) (hi top : ℕ)
    → Ascending lo ks hi
    → hi ≤ top
    → All (λ k. k.storage + k.datasize ≤ top) ks
Ascending-below lo [] hi top h t = tt
Ascending-below lo (k ∷ ks) hi top h t =
    let next = k.storage + k.datasize in
    (omega (arith, t, Ascending-le next ks hi h.1), Ascending-below next ks hi top h.1 t)

-- The outputs stand before the inputs.
pub pose_tokens-below :
    (m : Members) → InOrder m → All (λ k. k.storage + k.datasize ≤ m.in_seqnr) (pose_tokens m)
pose_tokens-below m o =
    All-append (λ k. k.storage + k.datasize ≤ m.in_seqnr) (first_tokens m) (last_tokens m)
      (Ascending-below m.out_seqnr (first_tokens m) m.q_ref_buf m.in_seqnr (omega arith)
        (omega arith))
      (
        o.q_ref_out_seqnr_buf,
        Ascending-below m.q_ref_buf (q_ref_tokens m) m.q_ref_out_seqnr_buf m.in_seqnr (omega arith)
            (omega arith),
      )
