-- ===== src/Robot/Receive/Latest.antt =====
-- `recv` and `state` together.
use mathlib.Core.List.{append-nil}
use lib_urx.Base.{
  none, some, take, drop, ℕ, ◌≡◌, ◌≤◌, refl, ap, ◌∙◌, true, false, [], ◌∷◌, ◌++◌, length, ret,
  arith, ltb, Bool-cases, inl, inr, none, some, ◌⊎◌, ◌<◌,
}
use lib_urx.Bytes.{be_value, Bytes, AreBytes}
use lib_urx.Con.{arrived}
use lib_urx.Handler.Laws.{incoming}
use lib_urx.Robot.{Robot, new_state, copy_state, assign_state}
use lib_urx.Robot.Fields.{InOrder, pose_tokens}
use lib_urx.Robot.Receive.{recv, state, loc_state, rotate_log}
use lib_urx.Robot.Receive.Publish.{IsReady, carried, published, filled_client, recv-publishes}

assign_carried :
    (now : ℕ) (payload : Bytes)
    → assign_state new_state (copy_state (carried now payload))
      ≡ ret (copy_state (carried now payload))
unfolding assign_state copy_state
assign_carried now payload = refl

-- A robot that has published these values.
state_published :
    (rb : Robot) (now : ℕ) (payload : Bytes)
    → rb.updated_state ≡ true
    → rb.ur_state ≡ carried now payload
    → state rb
      ≡ ret (rotate_log (record rb { updated_state = false }), copy_state (carried now payload))
unfolding state loc_state
state_published rb now payload u e = simp (u, e, assign_carried now payload)

state_stale : (rb : Robot) → rb.updated_state ≡ false → state rb ≡ ret (rb, new_state)
unfolding state
state_stale rb u = rw u

rotated :
    (rb : Robot)
    → ((rotate_log rb).updated_state ≡ rb.updated_state)
      × (length (rotate_log rb).ts_log ≤ 500)
      × (((rotate_log rb).logged ++ (rotate_log rb).ts_log ≡ rb.logged ++ rb.ts_log)
          ⊎ ((rb.has_log ≡ false)
              × (500 < length rb.ts_log)
              × ((rotate_log rb).logged ≡ rb.logged)
              × ((rotate_log rb).ts_log ≡ [])))
unfolding rotate_log
rotated rb = elim (Bool-cases (ltb 500 (length rb.ts_log))) [
  | inl e ↦ elim (Bool-cases rb.has_log) [
    | inl f ↦ rw (e, f) (refl, omega arith, inl (append-nil (rb.logged ++ rb.ts_log)))
    | inr f ↦ rw (e, f) (refl, omega arith, inr (refl, ground (arith, e), refl, refl))
  ]
  | inr e ↦ rw e (refl, ground (arith, e), inl refl)
]

copied :
    (now : ℕ) (payload : Bytes)
    → copy_state (carried now payload) ≡ record (carried now payload) { local_ts_us = none }
unfolding copy_state
copied now payload = refl

pub recv-state-latest :
    (rb : Robot) (p id : ℕ) (payload : Bytes) (ts now : ℕ)
    → InOrder rb.members
    → IsReady rb p id (pose_tokens rb.members) 304
    → length payload ≡ 304
    → AreBytes payload
    → (rb1 : Robot) × (rb2 : Robot) × (recv rb (arrived (incoming 308 b'U' id payload)) ts now
        ≡ ret (rb1, true))
      × (state rb1 ≡ ret (rb2, record (carried now payload) { local_ts_us = none }))
      × (length rb2.ts_log ≤ 500)
      × (let entries = rb.ts_log ++ ((some now, (carried now payload).ur_ts) ∷ []) in
          (rb2.logged ++ rb2.ts_log ≡ rb.logged ++ entries)
          ⊎ ((rb.has_log ≡ false)
              × (500 < length entries)
              × (rb2.logged ≡ rb.logged)
              × (rb2.ts_log ≡ [])))
      × (state rb2 ≡ ret (rb2, new_state))
recv-state-latest rb p id payload ts now o r len bytes =
    let (m, run) = recv-publishes rb p id payload ts now o r len bytes in
    let frame = incoming 308 b'U' id payload in
    let rb1 =
      published rb (filled_client rb.client frame m) (carried now payload)
        (be_value (take 4 (drop 252 payload))) in
    let rb' : Robot = record rb1 { updated_state = false } in
    let (flag, short, kept) = rotated rb' in
    let shown = state_published rb1 now payload refl refl in
    (
      rb1,
      rotate_log rb',
      run,
      shown ∙ ap (λ s. ret (rotate_log rb', s)) (copied now payload),
      short,
      kept,
      state_stale (rotate_log rb') flag,
    )
