-- ===== src/Tools/JointSpeed/Settles.antt =====
-- When the loop in joint_speed.cpp ends.
use lib_urx.Base.{
  ℕ, ◌-◌, ◌≤◌, ◌<◌, ◌≡◌, ◌==◌, refl, ap, sym, ◌∙◌, Bool, true, false, List, [], ◌∷◌, ◌++◌, length,
  none, ℤ, ret, arith, Bool-cases, inl, inr, suc,
}
use lib_urx.Bytes.{Bytes, AreBytes}
use lib_urx.Con.{arrived}
use lib_urx.Token.{Token}
use lib_urx.Recipe.Layout.{Layout}
use lib_urx.Handler.Laws.{incoming}
use lib_urx.Handler.Session.{IsOutput}
use lib_urx.Handler.Talking.{Talks}
use lib_urx.Tools.{Doubles}
use lib_urx.Tools.JointSpeed.{Places, Regulator, Round, round, rounds}
use lib_urx.Tools.JointSpeed.Window.{countdown, Quiet, countdown-stops, countdown-runs}
use lib_urx.Tools.JointSpeed.Rounds.{joint_tokens, off_in, after_round, Takes, round-heard}

-- Every round finds a package of the recipe, and `send` takes whole packages.
abbrev pub Heard : ℕ → ℕ → List Round → List Bytes → Type 0
Heard id n [] [] = Unit {0}
Heard id n (net ∷ nets) (payload ∷ payloads) =
    (net.input ≡ arrived (incoming 108 b'U' id payload))
    × (length payload ≡ 104)
    × AreBytes payload
    × Takes n net
    × Heard id n nets payloads
Heard id n _ _ = ⊥

-- Which packages find the elbow off.
abbrev pub offs_in : Doubles → List Bytes → List Bool
offs_in d [] = []
offs_in d (payload ∷ payloads) = off_in d payload ∷ offs_in d payloads

same_length :
    (id n : ℕ) (d : Doubles) (nets : List Round) (payloads : List Bytes)
    → Heard id n nets payloads
    → length nets ≡ length (offs_in d payloads)
same_length id n d [] [] h = refl
same_length id n d [] (payload ∷ payloads) h = absurd h
same_length id n d (net ∷ nets) [] h = absurd h
same_length id n d (net ∷ nets) (payload ∷ payloads) h =
    ap suc (same_length id n d nets payloads h.4)

module _ (d : Doubles) (at_ : Places) (ts target_q p id q n : ℕ) (id' : ℤ) (ks : List Token)
    (o : IsOutput id 104 none (joint_tokens ts target_q at_)) (l : Layout false 0 ks n)
    (small : n ≤ 2044) where
  rounds_from :
      (r : Regulator) (s : ℕ) (nets : List Round) (payloads : List Bytes)
      → r.stabilizer ≡ s
      → Talks p id 104 none (joint_tokens ts target_q at_) q n id' ks r.client
      → r.id ≡ id'
      → Heard id n nets payloads
      → let out = countdown s (offs_in d payloads) in
        (r' : Regulator) × (running : Bool) × (left : List Round) × (rounds d at_ r nets
          ≡ ret (r', running, left))
        × (running ≡ out.0)
        × (length left ≡ length out.1)
  unfolding rounds
  rounds_from r s [] [] e t same h = (r, true, [], refl, refl, refl)
  rounds_from r s [] (payload ∷ payloads) e t same h = absurd h
  rounds_from r s (net ∷ nets) [] e t same h = absurd h
  rounds_from r s (net ∷ nets) (payload ∷ payloads) e t same (input, len, bytes, g, h) =
      let (r', run, stands, (t', same')) =
        round-heard d at_ ts target_q p id q n id' ks o l small r net payload input len bytes g
          (t, same) in
      let off = off_in d payload in
      let next : (b : Bool) → off ≡ b → round d at_ r net ≡ ret (r', (after_round s b).0) = λ b f.
        run
        ∙ (ap (λ k. ret (r', (after_round k off).0)) e
            ∙ ap (λ x. ret (r', (after_round s x).0)) f) in
      let now : (b : Bool) → off ≡ b → r'.stabilizer ≡ (after_round s b).1 =
        λ b f. stands ∙ (ap (λ k. (after_round k off).1) e ∙ ap (λ x. (after_round s x).1) f) in
      elim (Bool-cases off) [
        | inl f ↦
            let go = next true f in
            let (r'', running, left, runs, a, b) =
              rounds_from r' 25 nets payloads (now true f) t' same' h in
            (r'', running, left, rw (go, rounds) runs, rw f a, rw f b)
        | inr f ↦ elim (Bool-cases (s - 1 == 0)) [
          | inl z ↦
              let go : round d at_ r net ≡ ret (r', false) = next false f ∙ rw z in
              (
                r',
                false,
                nets,
                rw (go, rounds),
                rw (f, z),
                rw (f, z) (same_length id n d nets payloads h),
              )
          | inr z ↦
              let go : round d at_ r net ≡ ret (r', true) = next false f ∙ rw z in
              let (r'', running, left, runs, a, b) =
                rounds_from r' (s - 1) nets payloads (now false f) t' same' h in
              (r'', running, left, rw (go, rounds) runs, rw (f, z) a, rw (f, z) b)
        ]
      ]

  -- For a client that has the output recipe of the program and an input recipe registered: where each
  -- round finds a package and `send` takes whole packages, and the counter stands at 25, the loop
  -- runs without a fault, and it ends only behind 25 packages in a row in which the elbow's distance
  -- from 90 degrees, the error, is at most 0.00005 or not a number: such a row stands right before
  -- the rounds that are left. If it still runs, there was no row of 25.
  pub rounds-settle :
      (r : Regulator) (nets : List Round) (payloads : List Bytes)
      → r.stabilizer ≡ 25
      → Talks p id 104 none (joint_tokens ts target_q at_) q n id' ks r.client
      → r.id ≡ id'
      → Heard id n nets payloads
      → (r' : Regulator) × (running : Bool) × (left : List Round) × (rounds d at_ r nets
          ≡ ret (r', running, left))
        × (running ≡ false
            → (before : List Bool) × (window : List Bool) × (after : List Bool) × (offs_in d
                  payloads
                ≡ before ++ (window ++ after))
              × Quiet window
              × (length window ≡ 25)
              × (length after ≡ length left))
        × (running ≡ true
            → (before window after : List Bool) → offs_in d payloads ≡ before ++ (window ++ after)
            → Quiet window
            → length window < 25)
  rounds-settle r nets payloads e t same h =
      let offs = offs_in d payloads in
      let (r', running, left, run, a, b) = rounds_from r 25 nets payloads e t same h in
      (
        r',
        running,
        left,
        run,
        λ f.
            let (before, window, split, quiet, len) =
              countdown-stops 25 offs (omega arith) (sym a ∙ f) in
            (before, window, (countdown 25 offs).1, split, quiet, omega (arith, len), sym b),
        λ f before window after split quiet.
            (countdown-runs 25 offs before window after (omega arith) (omega arith) (sym a ∙ f)
              split quiet).0,
      )
