-- ===== src/Tools/JointSpeed/Window.antt =====
-- A counter that a value outside a range sets back to 25, and that ends a loop at 0.
use lib_urx.Base.{
  ℕ, ◌-◌, ◌≤◌, ◌<◌, ◌≡◌, ◌==◌, ◌⊎◌, inl, inr, refl, ap, ◌∙◌, Bool, true, false, if◌then◌else◌, List,
  [], ◌∷◌, ◌++◌, length, length-append, drop, All, arith, Bool-cases,
}

-- Whether the loop still runs, and what is left, with a counter that stands at s.
abbrev pub countdown : ℕ → List Bool → Bool × List Bool
countdown s [] = (true, [])
countdown s (true ∷ offs) = countdown 25 offs
countdown s (false ∷ offs) = if s - 1 == 0 then (false, offs) else countdown (s - 1) offs

-- Values inside the range, one after another, somewhere.
abbrev pub Quiet : List Bool → Type 0
Quiet = All (λ off. off ≡ false)

abbrev Stopped : ℕ → List Bool → List Bool → Type 0
Stopped s offs left =
    (before : List Bool) × (window : List Bool) × (offs ≡ before ++ (window ++ left))
    × Quiet window
    × ((length window ≡ 25) ⊎ ((before ≡ []) × (length window ≡ s)))

later_stop :
    (s : ℕ) (off : Bool) (offs left : List Bool)
    → Stopped 25 offs left
    → Stopped s (off ∷ offs) left
later_stop s off offs left (before, window, e, quiet, inl len) =
    (off ∷ before, window, ap (◌∷◌ off) e, quiet, inl len)
later_stop s off offs left (before, window, e, quiet, inr (first, len)) =
    (off ∷ before, window, ap (◌∷◌ off) e, quiet, inl len)

longer_stop :
    (s : ℕ) (offs left : List Bool)
    → 0 < s
    → Stopped (s - 1) offs left
    → Stopped s (false ∷ offs) left
longer_stop s offs left h (before, window, e, quiet, inl len) =
    (false ∷ before, window, ap (◌∷◌ false) e, quiet, inl len)
longer_stop s offs left h (before, window, e, quiet, inr (first, len)) = (
  [],
  false ∷ window,
  ap (◌∷◌ false) (e ∙ ap (λ b. b ++ (window ++ left)) first),
  (refl, quiet),
  inr (refl, omega (arith, len, h)),
)

pub countdown-stops :
    (s : ℕ) (offs : List Bool)
    → 0 < s
    → (countdown s offs).0 ≡ false
    → Stopped s offs (countdown s offs).1
countdown-stops s [] h e = cc
countdown-stops s (true ∷ offs) h e =
    later_stop s true offs _ (countdown-stops 25 offs (omega arith) e)
countdown-stops s (false ∷ offs) h e = elim (Bool-cases (s - 1 == 0)) [
  | inl z ↦ rw z ([], false ∷ [], refl, (refl, tt), inr (refl, ground (arith, z, h)))
  | inr z ↦
      rw z (longer_stop s offs _ h (countdown-stops (s - 1) offs (ground (arith, z)) (rw z at e)))
]

runs_on :
    (s : ℕ) (offs : List Bool)
    → (countdown s (false ∷ offs)).0 ≡ true
    → (0 < s - 1) × ((countdown (s - 1) offs).0 ≡ true)
runs_on s offs r = elim (Bool-cases (s - 1 == 0)) [
  | inl z ↦ cc (rw z at r)
  | inr z ↦ (ground (arith, z), rw z at r)
]

no_cons : {b : Bool} {bs : List Bool} → b ∷ bs ≡ [] → ⊥
no_cons e = cc

pub countdown-runs :
    (s : ℕ) (offs before window after : List Bool)
    → 0 < s
    → s ≤ 25
    → (countdown s offs).0 ≡ true
    → offs ≡ before ++ (window ++ after)
    → Quiet window
    → (length window < 25) × ((before ≡ []) → length window < s)
countdown-runs s [] before window after h k r e quiet =
    let none_left : length window ≡ 0 =
      omega
        (arith, ap length e, length-append before (window ++ after), length-append window after) in
    (omega (arith, none_left), λ f. omega (arith, none_left, h))
countdown-runs s (off ∷ offs) [] [] after h k r e quiet = (omega arith, λ f. omega (arith, h))
countdown-runs s (true ∷ offs) [] (w ∷ window) after h k r e quiet = cc (e, quiet.0)
countdown-runs s (false ∷ offs) [] (w ∷ window) after h k r e quiet =
    let (more, r') = runs_on s offs r in
    let rest =
      countdown-runs (s - 1) offs [] window after more (omega (arith, k)) r' (ap (drop 1) e)
        quiet.1 in
    let short = rest.1 refl in (omega (arith, short, k), λ f. omega (arith, short))
countdown-runs s (true ∷ offs) (b ∷ before) window after h k r e quiet =
    let rest =
      countdown-runs 25 offs before window after (omega arith) (omega arith) r (ap (drop 1) e)
        quiet in
    (rest.0, λ f. absurd (no_cons f))
countdown-runs s (false ∷ offs) (b ∷ before) window after h k r e quiet =
    let (more, r') = runs_on s offs r in
    let rest =
      countdown-runs (s - 1) offs before window after more (omega (arith, k)) r' (ap (drop 1) e)
        quiet in
    (rest.0, λ f. absurd (no_cons f))
