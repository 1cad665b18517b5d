-- ===== src/Robot/Threads/Sound.antt =====
-- What holds between two steps.
use lib_urx.Handler.Receive.{length-filled, filled-AreBytes}
use lib_urx.Robot.Threads.{System, Receiver, waiting, holding}
use lib_urx.Robot.Threads.Keeps.{Keeps}
use lib_urx.Robot.Threads.States.{IsFrom, older, IsCopy}
use mathlib.Core.Path.{subst}
use lib_urx.Base.{ℕ, ◌≡◌, ◌≤◌, ◌+◌, sym, ap, ◌∙◌, List, [], ◌∷◌, length, All}
use lib_urx.Bytes.{Bytes, AreBytes}
use lib_urx.Memory.{Ram, peek}
use lib_urx.Token.{Token}
use lib_urx.Recipe.Layout.Parse.{field_value}
use lib_urx.Robot.{Robot, RobotState}
use lib_urx.Robot.Fields.{InOrder, pose_tokens}
use lib_urx.Robot.Fields.Places.{pose_tokens-below}
use lib_urx.Robot.Receive.Publish.{IsReady, filled_client}

-- The members hold the values of a payload.
abbrev Holding : Robot → Bytes → Type 0
Holding rb payload =
    All (λ k. peek rb.client.ram k.storage k.datasize ≡ field_value k payload)
      (pose_tokens rb.members)

-- The members hold the latest payload while the receiver waits for the lock.
abbrev pub IsHeld : Receiver → Robot → List Bytes → Type 0
IsHeld waiting rb ps = Unit {0}
IsHeld holding rb [] = ⊥
IsHeld holding rb (payload ∷ ps) = (length payload ≡ 304) × Holding rb payload

pub record IsSound (p id : ℕ) (s : System) : Type 0 where
  pub ready : IsReady s.robot p id (pose_tokens s.robot.members) 304
  pub in_order : InOrder s.robot.members
  pub from : IsFrom s.robot.ur_state s.delivered
  pub held : IsHeld s.receiver s.robot s.delivered
  pub copies : All (IsCopy s.delivered) s.shown

peek-below :
    (ks : List Token) (m m' : Ram) (lo : ℕ) (payload : Bytes)
    → All (λ k. k.storage + k.datasize ≤ lo) ks
    → ((a n : ℕ) → a + n ≤ lo → peek m' a n ≡ peek m a n)
    → All (λ k. peek m k.storage k.datasize ≡ field_value k payload) ks
    → All (λ k. peek m' k.storage k.datasize ≡ field_value k payload) ks
peek-below [] m m' lo payload h k a = tt
peek-below (j ∷ ks) m m' lo payload h k a =
    (k j.storage j.datasize h.0 ∙ a.0, peek-below ks m m' lo payload h.1 k a.1)

-- A step that keeps what a package depends on.
IsReady-Keeps :
    (rb rb' : Robot) (p id : ℕ) (ks : List Token) (n : ℕ)
    → Keeps rb rb'
    → IsReady rb p id ks n
    → IsReady rb' p id ks n
IsReady-Keeps rb rb' p id ks n k r =
    let same = k.recipes p in
    record {
      initialized = k.out_initialized ∙ r.initialized;
      registered = k.out ∙ r.registered;
      fields = same.fields ∙ r.fields;
      bytes = same.bytes ∙ r.bytes;
      dir_out = same.dir_out ∙ r.dir_out;
      recipe_id = same.recipe_id ∙ r.recipe_id;
      is_id = r.is_id;
      is_byte = r.is_byte;
      untracked = same.ts_ns ∙ r.untracked;
      room = ap length k.buffer ∙ r.room;
      are_bytes = rw k.buffer r.are_bytes;
    }

IsHeld-Keeps :
    (c : Receiver) (rb rb' : Robot) (ps : List Bytes)
    → InOrder rb.members
    → Keeps rb rb'
    → IsHeld c rb ps
    → IsHeld c rb' ps
IsHeld-Keeps waiting rb rb' ps o k h = tt
IsHeld-Keeps holding rb rb' [] o k h = h
IsHeld-Keeps holding rb rb' (payload ∷ ps) o k h = (
  h.0,
  rw k.members (
      peek-below (pose_tokens rb.members) rb.client.ram rb'.client.ram rb.members.in_seqnr payload
        (pose_tokens-below rb.members o) k.below h.1),
)

pub IsSound-Keeps :
    (p id : ℕ) (s : System) (rb : Robot)
    → Keeps s.robot rb
    → IsSound p id s
    → IsSound p id (record s { robot = rb })
IsSound-Keeps p id s rb k h = record {
  ready =
      subst (λ m. IsReady rb p id (pose_tokens m) 304) (sym k.members)
        (IsReady-Keeps s.robot rb p id (pose_tokens s.robot.members) 304 k h.ready);
  in_order = subst InOrder (sym k.members) h.in_order;
  from = subst (λ t. IsFrom t s.delivered) (sym k.ur_state) h.from;
  held = IsHeld-Keeps s.receiver s.robot rb s.delivered h.in_order k h.held;
  copies = h.copies;
}

-- Another buffer and memory of the client do not matter.
pub IsReady-filled :
    (rb : Robot) (p id : ℕ) (ks : List Token) (n : ℕ) (frame : Bytes) (m : Ram)
    → AreBytes frame
    → IsReady rb p id ks n
    → IsReady (record rb { client = filled_client rb.client frame m }) p id ks n
IsReady-filled rb p id ks n frame m b r = record {
  initialized = r.initialized;
  registered = r.registered;
  fields = r.fields;
  bytes = r.bytes;
  dir_out = r.dir_out;
  recipe_id = r.recipe_id;
  is_id = r.is_id;
  is_byte = r.is_byte;
  untracked = r.untracked;
  room = length-filled rb.client.buffer 2048 frame ∙ r.room;
  are_bytes = filled-AreBytes rb.client.buffer 2048 frame r.are_bytes b;
}

pub older_copies :
    (payload : Bytes) (ps : List Bytes) (ts : List RobotState)
    → All (IsCopy ps) ts
    → All (IsCopy (payload ∷ ps)) ts
older_copies payload ps [] h = tt
older_copies payload ps (t ∷ ts) h =
    let (s, from, e) = h.0 in ((s, older payload ps from, e), older_copies payload ps ts h.1)
