-- ===== src/Robot/Receive/Publish.antt =====
-- What the robot publishes of a package.
use mathlib.Core.Path.{subst}
use mathlib.Core.List.{append-nil}
use lib_urx.Base.{
  zero, suc, ℕ, ◌≡◌, ◌≤◌, ◌+◌, ◌==◌, refl, ap, ◌∙◌, true, false, List, [], ◌∷◌, ◌++◌, length, take,
  drop, some, none, pos, ret, arith, All, length-drop, reverse, suc, ◌<◌,
}
use lib_urx.Bytes.{Bytes, AreBytes, le_value, be_value}
use lib_urx.Robot.Fields.Layouts.{pose-IsLaidOut}
use lib_urx.Robot.Fields.Places.{pose_tokens-Apart}
use native.Mathlib.Nat.{add-zero}
use lib_urx.Memory.Laws.{drop-drop}
use lib_urx.Memory.{Ram, peek}
use lib_urx.Con.{arrived}
use lib_urx.Handler
use lib_urx.Handler.{Client}
use lib_urx.Con.Laws.{filled}
use lib_urx.Handler.Laws.{incoming, is_expected}
use lib_urx.Handler.Receive.{recv-filled}
use lib_urx.Token.{Token}
use lib_urx.Token.Laws.{swap_words}
use lib_urx.Recipe.Layout.{Layout}
use lib_urx.Recipe.Layout.Parse.{Apart, field_value}
use lib_urx.Robot.{Robot, RobotState, Members, read_doubles, to_int32, read_double, dof}
use lib_urx.Robot.Doubles.{be_doubles, read_doubles-be}
use lib_urx.Robot.Receive.{snapshot, publish, recv}
use lib_urx.Robot.Fields.{InOrder, pose_tokens}

-- The robot's output recipe at p is registered under an id with some fields, and nothing else is
-- tracked.
pub record IsReady (rb : Robot) (p id : ℕ) (ks : List Token) (n : ℕ) : Type 0 where
  pub initialized : rb.out_initialized ≡ true
  pub registered : rb.client.out ≡ some p
  pub fields : (rb.client.recipes p).fields ≡ ks
  pub bytes : (rb.client.recipes p).bytes ≡ n
  pub dir_out : (rb.client.recipes p).dir_out ≡ true
  pub recipe_id : (rb.client.recipes p).recipe_id ≡ pos id
  pub is_id : (id == 0) ≡ false
  pub is_byte : id < 256
  pub untracked : (rb.client.recipes p).ts_ns ≡ none
  pub room : length rb.client.buffer ≡ 2048
  pub are_bytes : AreBytes rb.client.buffer

-- The package reaches the memory.
-- The client after a frame, with some memory.
abbrev pub filled_client : Client → Bytes → Ram → Client
filled_client h frame m = record h { ram = m; buffer = filled h.buffer 2048 frame }

pub ready-recv :
    (rb : Robot) (p id n : ℕ) (ks : List Token) (payload : Bytes) (ts : ℕ)
    → IsReady rb p id ks n
    → Layout true 0 ks n
    → Apart ks
    → n ≤ 2044
    → length payload ≡ n
    → AreBytes payload
    → (m : Ram) × (Handler.recv rb.client (arrived (incoming (4 + n) b'U' id payload)) ts
        ≡ ret (filled_client rb.client (incoming (4 + n) b'U' id payload) m, true))
      × All (λ k. peek m k.storage k.datasize ≡ field_value k payload) ks
ready-recv rb p id n ks payload ts r l a fits len bytes =
    let expected : is_expected (rb.client.recipes p) (4 + n) b'U' id ≡ true =
      rw (r.bytes, r.recipe_id) (ground (arith, r.is_id)) in
    let (m, run, fields, stamp) =
      recv-filled rb.client p (4 + n) id payload ts r.registered r.room r.are_bytes (omega arith)
        (omega arith) expected bytes (rw (r.dir_out, r.fields, r.bytes) l) r.dir_out (rw r.fields a)
        (rw r.untracked tt) in
    (m, run, subst (All (λ k. peek m k.storage k.datasize ≡ field_value k payload)) r.fields fields)

pub word_be :
    (w : ℕ) (m : Ram) (a : ℕ) (bs : Bytes)
    → peek m a w ≡ swap_words 1 w bs
    → le_value (peek m a w) ≡ be_value (take w bs)
unfolding be_value swap_words
word_be w m a bs e = ap le_value (e ∙ append-nil (reverse (take w bs)))

-- A vector of joints.
joints_be :
    (m : Ram) (a o n : ℕ) (payload : Bytes)
    → length payload ≡ n
    → o + 48 ≤ n
    → peek m a 48 ≡ swap_words 6 8 (drop o payload)
    → read_doubles dof m a ≡ be_doubles 6 (drop o payload)
joints_be m a o n payload len fits e =
    read_doubles-be 6 m a (drop o payload) (omega (arith, length-drop o payload, len, fits)) e

-- n doubles of an array from a + i on that are fields of their own, from an offset on.
abbrev Registers : ℕ → Ram → ℕ → ℕ → ℕ → Bytes → Type 0
Registers zero m a i o bs = Unit {0}
Registers (suc n) m a i o bs =
    (peek m (a + i) 8 ≡ swap_words 1 8 (drop o bs)) × Registers n m a (8 + i) (8 + o) bs

Registers-be :
    (n : ℕ) (m : Ram) (b a i o : ℕ) (bs : Bytes)
    → b ≡ a + i
    → Registers n m a i o bs
    → read_doubles n m b ≡ be_doubles n (drop o bs)
unfolding read_doubles
Registers-be zero m b a i o bs e r = refl
Registers-be (suc n) m b a i o bs e r =
    let first : read_double m b ≡ be_value (take 8 (drop o bs)) =
      rw e (word_be 8 m (a + i) (drop o bs) r.0) in
    let swap : o + 8 ≡ 8 + o = omega arith in
    let shift : drop 8 (drop o bs) ≡ drop (8 + o) bs = rw (← swap) (drop-drop 8 o bs) in
    rw (first, shift)
      (ap (◌∷◌ (be_value (take 8 (drop o bs))))
        (Registers-be n m (b + 8) a (8 + i) (8 + o) bs (omega (arith, e)) r.1))

-- The state that a package with all fields carries.
abbrev pub carried : ℕ → Bytes → RobotState
carried now payload = record {
  local_ts_us = some now;
  ur_ts = be_value (take 8 (drop 4 payload));
  seqnr = to_int32 (be_value (take 4 payload));
  jq_ref = be_doubles 6 (drop 256 payload);
  jq = be_doubles 6 (drop 12 payload);
  jqd = be_doubles 6 (drop 60 payload);
  jqdd = be_doubles 6 (drop 108 payload);
  jt = be_doubles 6 (drop 156 payload);
  tcp_pose = be_doubles 6 (drop 204 payload);
}

pub snapshot-carried :
    (mem : Members) (m : Ram) (now : ℕ) (payload : Bytes)
    → length payload ≡ 304
    → All (λ k. peek m k.storage k.datasize ≡ field_value k payload) (pose_tokens mem)
    → (snapshot mem m now ≡ carried now payload)
      × (le_value (peek m mem.q_ref_out_seqnr_buf 4) ≡ be_value (take 4 (drop 252 payload)))
unfolding snapshot
snapshot-carried mem m now payload len
      (number, (time, (q, (qd, (qdd, (moment, (pose, (found, (r0, registers))))))))) =
    let first : peek m (mem.q_ref_buf + 0) 8 ≡ swap_words 1 8 (drop 256 payload) = rw add-zero r0 in
    let e1 = word_be 8 m mem.timestamp (drop 4 payload) time in
    let e2 = word_be 4 m mem.out_seqnr payload number in
    let e3 =
      Registers-be 6 m mem.q_ref_buf mem.q_ref_buf 0 256 payload (omega arith) (first, registers) in
    let e4 = joints_be m mem.target_q 12 304 payload len (omega arith) q in
    let e5 = joints_be m mem.target_qd 60 304 payload len (omega arith) qd in
    let e6 = joints_be m mem.target_qdd 108 304 payload len (omega arith) qdd in
    let e7 = joints_be m mem.target_moment 156 304 payload len (omega arith) moment in
    let e8 = joints_be m mem.target_tcp_pose 204 304 payload len (omega arith) pose in
    (
      rw (e1, e2, e3, e4, e5, e6, e7, e8),
      word_be 4 m mem.q_ref_out_seqnr_buf (drop 252 payload) found,
    )

-- What a robot is after a package was published.
abbrev pub published : Robot → Client → RobotState → ℕ → Robot
published rb h s found = record rb {
  client = h;
  ur_state = s;
  q_ref_out_seqnr = found;
  updated_state = true;
  ts_log = rb.ts_log ++ ((s.local_ts_us, s.ur_ts) ∷ []);
}

-- A robot whose output recipe has all fields of `init_output_TCP_pose`, and is registered, receives
-- a data package of that recipe: `recv` returns true, and the state is the package's values, every
-- one from its place and from network to host order, with the time of the clock. The time stamp is
-- logged, the update is announced, and of the client the memory and the receive buffer change.
pub recv-publishes :
    (rb : Robot) (p id : ℕ) (payload : Bytes) (ts now : ℕ)
    → InOrder rb.members
    → IsReady rb p id (pose_tokens rb.members) 304
    → length payload ≡ 304
    → AreBytes payload
    → (m : Ram) × (recv rb (arrived (incoming 308 b'U' id payload)) ts now
        ≡ ret (
          published rb
              (filled_client rb.client (incoming 308 b'U' id payload) m)
              (carried now payload)
              (be_value (take 4 (drop 252 payload))),
          true,
        ))
unfolding recv publish
recv-publishes rb p id payload ts now o r len bytes =
    let layout : Layout true 0 (pose_tokens rb.members) 304 =
      pose-IsLaidOut (rb.client.recipes p) rb.members in
    let (m, run, fields) =
      ready-recv rb p id 304 (pose_tokens rb.members) payload ts r layout
        (pose_tokens-Apart rb.members o) (omega arith) len bytes in
    let (values, found) = snapshot-carried rb.members m now payload len fields in
    (m, simp (run, r.initialized, values, found))
