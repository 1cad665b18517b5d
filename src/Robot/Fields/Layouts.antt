-- ===== src/Robot/Fields/Layouts.antt =====
-- Where the robot's fields stand in their packages.
use Prim.Native.String.{String}
use mathlib.Core.Path.{subst}
use lib_urx.Base.{ℕ, refl, ap, ◌++◌, true, false, List, [], ◌∷◌, some, inl, inr, Bool-cases}
use lib_urx.Recipe.{Recipe, add_field}
use lib_urx.Recipe.Layout.{IsLaidOut, add_field-IsLaidOut}
use lib_urx.Recipe.Layout.Build.{add_all}
use lib_urx.Robot.{Members}
use lib_urx.Robot.Setup.{add_fields, state_fields, pose_fields, control_fields, pose_ref_fields}
use lib_urx.Robot.Fields.{
  unused, state_tokens, pose_tokens, control_tokens, pose_ref_tokens, add_fields_state,
  add_fields_pose, add_all_control, add_all_pose_ref,
}

pub add_fields-IsLaidOut :
    (r : Recipe) (fs : List (String × ℕ)) → IsLaidOut r → IsLaidOut (add_fields r fs).0
unfolding add_fields
add_fields-IsLaidOut r [] h = h
add_fields-IsLaidOut r (f ∷ fs) h =
    let next = add_field-IsLaidOut r f.0 (some f.1) h in
    elim (Bool-cases (add_field r f.0 (some f.1)).1) [
      | inl e ↦ rw (e, add_fields) (add_fields-IsLaidOut (add_field r f.0 (some f.1)).0 fs next)
      | inr e ↦ rw (e, add_fields) next
    ]

pub add_all-IsLaidOut :
    (r : Recipe) (fs : List (String × ℕ)) → IsLaidOut r → IsLaidOut (add_all r fs)
add_all-IsLaidOut r [] h = h
add_all-IsLaidOut r (f ∷ fs) h =
    add_all-IsLaidOut (add_field r f.0 (some f.1)).0 fs (add_field-IsLaidOut r f.0 (some f.1) h)

pub state-IsLaidOut :
    (r : Recipe) (m : Members)
    → IsLaidOut (record r { fields = state_tokens m; bytes = 204; dir_out = true })
state-IsLaidOut r m =
    subst IsLaidOut (ap (λ p. p.0) (add_fields_state r m))
      (add_fields-IsLaidOut (unused true r) (state_fields m) refl)

pub pose-IsLaidOut :
    (r : Recipe) (m : Members)
    → IsLaidOut (record r { fields = pose_tokens m; bytes = 304; dir_out = true })
pose-IsLaidOut r m =
    subst IsLaidOut (ap (λ p. p.0) (add_fields_pose r m))
      (add_fields-IsLaidOut (unused true r) (state_fields m ++ pose_fields m) refl)

pub control-IsLaidOut :
    (r : Recipe) (m : Members)
    → IsLaidOut (record r { fields = control_tokens m; bytes = 56; dir_out = false })
control-IsLaidOut r m =
    subst IsLaidOut (add_all_control r m)
      (add_all-IsLaidOut (unused false r) (control_fields m) refl)

pub pose_ref-IsLaidOut :
    (r : Recipe) (m : Members)
    → IsLaidOut (record r { fields = pose_ref_tokens m; bytes = 104; dir_out = false })
pose_ref-IsLaidOut r m =
    subst IsLaidOut (add_all_pose_ref r m)
      (add_all-IsLaidOut (unused false r) (control_fields m ++ pose_ref_fields m) refl)
