-- ===== src/Tools/TcpPose/Line.antt =====
-- The poses of the line in tcp_pose.cpp, and which of them a round of its loop sends.
use lib_urx.Base.{
  ℕ, zero, suc, ◌+◌, ◌-◌, ◌<◌, ◌≡◌, refl, ap, ◌&&◌, ltb, if◌then◌else◌, List, [], ◌∷◌, length, ret,
  ◌>>=◌, arith, Bool-cases, inl, inr,
}
use lib_urx.Double.{double_lt}
use lib_urx.Robot.Receive.{receive_all}
use lib_urx.Robot.Command.{calculate_q_ref}
use lib_urx.Tools.{Doubles}
use lib_urx.Tools.TcpPose.{
  pose_at, poses_from, trace_linear, pose_number, Tracing, Round, advance, period, pose_dimension,
}

-- Pose number i of a line of some steps.
abbrev pub on_line : Doubles → ℕ → ℕ → List ℕ → List ℕ → List ℕ
on_line d steps i (s ∷ start_pose) (e ∷ end_pose) =
    d.plus s (d.over (d.times (d.of_int i) (d.minus e s)) (d.of_int (steps - 1)))
    ∷ on_line d steps i start_pose end_pose
on_line d steps i _ _ = []

pose_at_lem :
    (d : Doubles) (steps i n : ℕ) (start_pose end_pose : List ℕ)
    → length start_pose ≡ n
    → length end_pose ≡ n
    → pose_at d steps i n start_pose end_pose ≡ ret (on_line d steps i start_pose end_pose)
unfolding pose_at
pose_at_lem d steps i zero [] end_pose a b = refl
pose_at_lem d steps i zero (s ∷ start_pose) end_pose a b = absurd (omega arith)
pose_at_lem d steps i (suc n) [] end_pose a b = absurd (omega arith)
pose_at_lem d steps i (suc n) (s ∷ start_pose) [] a b = absurd (omega arith)
pose_at_lem d steps i (suc n) (s ∷ start_pose) (e ∷ end_pose) a b =
    rw (pose_at_lem d steps i n start_pose end_pose (omega arith) (omega arith)) refl

later_pose :
    (d : Doubles) (steps n i : ℕ) (start_pose end_pose : List ℕ) (ps : List (List ℕ))
    → ((k : ℕ) → k < n → pose_number ps k ≡ ret (on_line d steps (i + 1 + k) start_pose end_pose))
    → (k : ℕ) → k < suc n
    → pose_number (on_line d steps i start_pose end_pose ∷ ps) k
      ≡ ret (on_line d steps (i + k) start_pose end_pose)
unfolding pose_number
later_pose d steps n i start_pose end_pose ps at_ zero lt =
    let same : i + 0 ≡ i = omega arith in rw same refl
later_pose d steps n i start_pose end_pose ps at_ (suc k) lt =
    let same : i + 1 + k ≡ i + suc k = omega arith in rw same at (at_ k (omega (arith, lt)))

poses_lem :
    (d : Doubles) (steps n i : ℕ) (start_pose end_pose : List ℕ)
    → length start_pose ≡ 6
    → length end_pose ≡ 6
    → (ps : List (List ℕ)) × (poses_from d steps n i start_pose end_pose ≡ ret ps)
      × (length ps ≡ n)
      × ((k : ℕ) → k < n → pose_number ps k ≡ ret (on_line d steps (i + k) start_pose end_pose))
unfolding poses_from pose_number
poses_lem d steps zero i start_pose end_pose a b =
    ([], refl, refl, λ k lt. absurd (omega (arith, lt)))
poses_lem d steps (suc n) i start_pose end_pose a b =
    let (ps, run, len, at_) = poses_lem d steps n (i + 1) start_pose end_pose a b in
    let here = pose_at_lem d steps i pose_dimension start_pose end_pose a b in
    (
      on_line d steps i start_pose end_pose ∷ ps,
      rw (here, run) refl,
      ap suc len,
      later_pose d steps n i start_pose end_pose ps at_,
    )

-- For two poses of six numbers: `trace_linear` gives as many poses as it is asked for, and with them
-- a round of the loop at a step in range reads no pose behind them. If 0.1 s have passed and there
-- is a next pose, it goes on to that step and sends the pose with that number on the line from the
-- start to the end; otherwise it changes nothing.
pub advance-follows :
    (d : Doubles) (elapsed : ℕ → ℕ → ℕ) (start_pose end_pose : List ℕ) (steps : ℕ) (s : Tracing)
    (net : Round)
    → length start_pose ≡ 6
    → length end_pose ≡ 6
    → s.step < steps
    → (ps : List (List ℕ)) × (trace_linear d start_pose end_pose steps ≡ ret ps)
      × (length ps ≡ steps)
      × (advance elapsed ps s net ≡ (
          if double_lt period (elapsed net.now s.timestamp) && ltb (s.step + 1) steps
          then (receive_all s.robot net.before_pose >>= λ rb.
              calculate_q_ref rb
                (on_line d steps (s.step + 1) start_pose end_pose)
                net.pose_written
                net.seen
              >>= λ res. ret (record s { robot = res.0; step = s.step + 1; timestamp = net.now }))
          else ret s))
unfolding trace_linear advance
advance-follows d elapsed start_pose end_pose steps s net a b lt =
    let (ps, run, len, at_) = poses_lem d steps steps 0 start_pose end_pose a b in
    (
      ps,
      run,
      len,
      elim (Bool-cases (ltb (s.step + 1) steps)) [
        | inl e ↦
            let next : pose_number ps (s.step + 1)
                ≡ ret (on_line d steps (s.step + 1) start_pose end_pose) =
              let same : 0 + (s.step + 1) ≡ s.step + 1 = omega arith in
              rw same at (at_ (s.step + 1) (ground (arith, e))) in
            rw (len, e, next) refl
        | inr e ↦ elim (Bool-cases (double_lt period (elapsed net.now s.timestamp))) [
          | inl f ↦ rw (len, e, f) refl
          | inr f ↦ rw (len, e, f) refl
        ]
      ],
    )
