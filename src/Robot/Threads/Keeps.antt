-- ===== src/Robot/Threads/Keeps.antt =====
-- What a command leaves alone.
use lib_urx.Base.{
  Ends, Ends-bind, Ends-if, Ends-some, ℕ, ◌≡◌, ◌≤◌, ◌+◌, ◌==◌, refl, ◌∙◌, not, if◌then◌else◌, List,
  length, some, ℤ, Option-cases, Bool-cases, inl, inr, arith, Ends-then, Run, Bool,
}
use lib_urx.Bytes.{Bytes, le_bytes}
use lib_urx.Con.{do_send}
use lib_urx.Header.Package.{hdr_size}
use lib_urx.Memory.{Ram, peek}
use lib_urx.Memory.Laws.{peek-poke_outside}
use lib_urx.Recipe.{Recipe, store}
use lib_urx.Handler
use lib_urx.Handler.{Client, find_recipe}
use lib_urx.Robot.{Robot, write_doubles, write_word}
use lib_urx.Robot.Doubles.{write_doubles_outside}
use lib_urx.Robot.Fields.{InOrder}
use lib_urx.Robot.Command.{update_w, post_pose, command, prepare, send_input, set_ram, next_seqnr}

-- The parts of a recipe that a received package depends on.
pub record SameFields (r s : Recipe) : Type 0 where
  pub fields : s.fields ≡ r.fields
  pub bytes : s.bytes ≡ r.bytes
  pub dir_out : s.dir_out ≡ r.dir_out
  pub recipe_id : s.recipe_id ≡ r.recipe_id
  pub ts_ns : s.ts_ns ≡ r.ts_ns

pub record KeepsClient (h h' : Client) : Type 0 where
  pub out : h'.out ≡ h.out
  pub buffer : h'.buffer ≡ h.buffer
  pub recipes : (p : ℕ) → SameFields (h.recipes p) (h'.recipes p)
  pub ram : h'.ram ≡ h.ram

same : (r : Recipe) → SameFields r r
same r = record { fields = refl; bytes = refl; dir_out = refl; recipe_id = refl; ts_ns = refl }

unchanged : (h : Client) → KeepsClient h h
unchanged h = record { out = refl; buffer = refl; recipes = λ p. same (h.recipes p); ram = refl }

with_package :
    (h : Client) (p q : ℕ) (dp : Bytes)
    → SameFields
        (h.recipes q)
        (if q == p then record (h.recipes p) { dp = some dp } else h.recipes q)
with_package h p q dp = elim (Bool-cases (q == p)) [
  | inl e ↦
      let here : q ≡ p = ground (arith, e) in
      rw (e, here)
        (record { fields = refl; bytes = refl; dir_out = refl; recipe_id = refl; ts_ns = refl })
  | inr e ↦ rw e (same (h.recipes q))
]

send-Keeps :
    (h : Client) (id written : ℤ) → Ends (λ res. KeepsClient h res.0) (Handler.send h id written)
unfolding Handler.send
send-Keeps h id written = elim (Option-cases (find_recipe h.recipes h.recipes_in id)) [
  | inl e ↦ rw (e, Handler.send) (unchanged h)
  | inr (p, e) ↦
      rw (e, Handler.send)
        (Ends-bind _ (store (h.recipes p) h.ram (h.recipes p).dp) _ λ stored.
          Ends-some _ stored.0 _ λ dp. Ends-bind _ (hdr_size dp) _ λ sz.
            Ends-bind _ (do_send h.con dp sz written) _ λ res. record {
              out = refl;
              buffer = refl;
              recipes = λ q. with_package h p q dp;
              ram = refl;
            })
]

-- What a command changes of a robot: the memory from `in_seqnr` on, the command's number, and what
-- the client keeps for sending.
pub record Keeps (rb rb' : Robot) : Type 0 where
  pub members : rb'.members ≡ rb.members
  pub out_initialized : rb'.out_initialized ≡ rb.out_initialized
  pub ur_state : rb'.ur_state ≡ rb.ur_state
  pub out : rb'.client.out ≡ rb.client.out
  pub buffer : rb'.client.buffer ≡ rb.client.buffer
  pub recipes : (p : ℕ) → SameFields (rb.client.recipes p) (rb'.client.recipes p)
  pub below :
      (a n : ℕ) → a + n ≤ rb.members.in_seqnr → peek rb'.client.ram a n ≡ peek rb.client.ram a n

pub nothing : (rb : Robot) → Keeps rb rb
nothing rb = record {
  members = refl;
  out_initialized = refl;
  ur_state = refl;
  out = refl;
  buffer = refl;
  recipes = λ p. same (rb.client.recipes p);
  below = λ a n h. refl;
}

-- A word of the memory that is not below `in_seqnr`.
word_below : (m : Ram) (b v a n : ℕ) → a + n ≤ b → peek (write_word m b v) a n ≡ peek m a n
word_below m b v a n h = peek-poke_outside m b (le_bytes 4 v) a n (inl h)

send_input-Keeps :
    (rb : Robot) (written : ℤ)
    → Ends
        (λ res. (h : Client) × (res.0 ≡ record rb { client = h }) × KeepsClient rb.client h)
        (send_input rb written)
unfolding send_input
send_input-Keeps rb written = Ends-some _ rb.input _ λ p.
    Ends-then (λ res. KeepsClient rb.client res.0) _
      (Handler.send rb.client (rb.client.recipes p).recipe_id written) _
      (send-Keeps rb.client (rb.client.recipes p).recipe_id written) λ res k. (res.0, refl, k)

SameFields-trans : (r s t : Recipe) → SameFields r s → SameFields s t → SameFields r t
SameFields-trans r s t e f = record {
  fields = f.fields ∙ e.fields;
  bytes = f.bytes ∙ e.bytes;
  dir_out = f.dir_out ∙ e.dir_out;
  recipe_id = f.recipe_id ∙ e.recipe_id;
  ts_ns = f.ts_ns ∙ e.ts_ns;
}

-- The robot that has sent, and the one that has reset `cmd` too.
sent-Keeps :
    (rb rb1 : Robot) (h : Client)
    → Keeps rb rb1
    → KeepsClient rb1.client h
    → Keeps rb (record rb1 { client = h })
sent-Keeps rb rb1 h k c = record {
  members = k.members;
  out_initialized = k.out_initialized;
  ur_state = k.ur_state;
  out = c.out ∙ k.out;
  buffer = c.buffer ∙ k.buffer;
  recipes = λ p.
      SameFields-trans (rb.client.recipes p) (rb1.client.recipes p) (h.recipes p) (k.recipes p)
        (c.recipes p);
  below = λ a n l. rw c.ram (k.below a n l);
}

write-Keeps :
    (rb rb1 : Robot) (b v : ℕ)
    → Keeps rb rb1
    → rb.members.in_seqnr ≤ b
    → Keeps rb (set_ram rb1 (write_word rb1.client.ram b v))
write-Keeps rb rb1 b v k l = record {
  members = k.members;
  out_initialized = k.out_initialized;
  ur_state = k.ur_state;
  out = k.out;
  buffer = k.buffer;
  recipes = k.recipes;
  below = λ a n h. word_below rb1.client.ram b v a n (omega (arith, h, l)) ∙ k.below a n h;
}

command-Keeps :
    (rb : Robot) (m : Ram) (c : ℕ) (written : ℤ)
    → InOrder rb.members
    → Keeps rb (set_ram rb m)
    → Ends (λ res. Keeps rb res.0) (command (set_ram rb m) c written)
unfolding command prepare
command-Keeps rb m c written o k =
    let number =
      write-Keeps rb (set_ram rb m) rb.members.in_seqnr (next_seqnr rb) k (omega arith) in
    let rb1 = set_ram rb (write_word m rb.members.in_seqnr (next_seqnr rb)) in
    let ready = write-Keeps rb rb1 rb.members.cmd c number (omega arith) in
    let rb2 = prepare (set_ram rb m) c in
    let going : Keeps rb rb2 = record {
      members = refl;
      out_initialized = refl;
      ur_state = refl;
      out = refl;
      buffer = refl;
      recipes = ready.recipes;
      below = ready.below;
    } in
    Ends-then _ (λ res. Keeps rb res.0) (send_input rb2 written) _ (send_input-Keeps rb2 written)
      λ res sent.
        let (h, e, kept) = sent in
        let gone = sent-Keeps rb rb2 h going kept in
        let after : Keeps rb res.0 = rw e gone in
        let low : rb.members.in_seqnr ≤ res.0.members.cmd = rw e (omega arith) in
        elim (Bool-cases res.1) [
          | inl f ↦ rw f (write-Keeps rb res.0 res.0.members.cmd 0 after low)
          | inr f ↦ rw f after
        ]

doubles-Keeps :
    (rb : Robot) (b : ℕ) (w : List ℕ)
    → rb.members.in_seqnr ≤ b
    → Keeps rb (set_ram rb (write_doubles rb.client.ram b w))
doubles-Keeps rb b w l = record {
  members = refl;
  out_initialized = refl;
  ur_state = refl;
  out = refl;
  buffer = refl;
  recipes = λ p. same (rb.client.recipes p);
  below = λ a n h. write_doubles_outside rb.client.ram b w a n (inl (omega (arith, h, l)));
}

pub update_w-Keeps :
    (rb : Robot) (w : List ℕ) (written : ℤ)
    → InOrder rb.members
    → Ends (λ res. Keeps rb res.0) (update_w rb w written)
unfolding update_w
update_w-Keeps rb w written o =
    let held = doubles-Keeps rb rb.members.set_qd w (omega arith) in
    Ends-if _ (not (length w == 6)) _ _ (nothing rb)
      (Ends-if _ (not rb.in_initialized) _ _ (nothing rb) (command-Keeps rb _ 2 written o held))

pub post_pose-Keeps :
    (rb : Robot) (pose : List ℕ) (written : ℤ)
    → InOrder rb.members
    → Ends (λ res. Keeps rb res.0) (post_pose rb pose written)
unfolding post_pose
post_pose-Keeps rb pose written o =
    let held = doubles-Keeps rb rb.members.tcp_pose_ref pose (omega arith) in
    Ends-if _ (not (length pose == 6)) _ _ (nothing rb)
      (Ends-if _ (not rb.in_initialized) _ _ (nothing rb) (command-Keeps rb _ 3 written o held))

-- A command leaves the flag of an update.
abbrev pub KeepsFlag : Robot → Run (Robot × Bool) → Type 0
KeepsFlag rb run = Ends (λ res. res.0.updated_state ≡ rb.updated_state) run

command-KeepsFlag :
    (rb : Robot) (m : Ram) (c : ℕ) (written : ℤ) → KeepsFlag rb (command (set_ram rb m) c written)
unfolding command prepare
command-KeepsFlag rb m c written =
    let rb2 = prepare (set_ram rb m) c in
    Ends-then _ (λ res. res.0.updated_state ≡ rb.updated_state) (send_input rb2 written) _
      (send_input-Keeps rb2 written)
      λ res sent.
        let (h, e, kept) = sent in
        let after : res.0.updated_state ≡ rb.updated_state = rw e in
        elim (Bool-cases res.1) [ inl f ↦ rw f after | inr f ↦ rw f after ]

pub update_w-KeepsFlag :
    (rb : Robot) (w : List ℕ) (written : ℤ) → KeepsFlag rb (update_w rb w written)
unfolding update_w
update_w-KeepsFlag rb w written =
    Ends-if _ (not (length w == 6)) _ _ refl
      (Ends-if _ (not rb.in_initialized) _ _ refl (command-KeepsFlag rb _ 2 written))

pub post_pose-KeepsFlag :
    (rb : Robot) (pose : List ℕ) (written : ℤ) → KeepsFlag rb (post_pose rb pose written)
unfolding post_pose
post_pose-KeepsFlag rb pose written =
    Ends-if _ (not (length pose == 6)) _ _ refl
      (Ends-if _ (not rb.in_initialized) _ _ refl (command-KeepsFlag rb _ 3 written))
