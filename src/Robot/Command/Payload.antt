-- ===== src/Robot/Command/Payload.antt =====
-- What a velocity and a pose look like on the wire.
use native.Mathlib.Nat.{add-zero}
use mathlib.Core.Path.{subst}
use lib_urx.Base.{
  false, ℕ, ◌≡◌, ◌≤◌, ◌+◌, ◌==◌, refl, ap, ◌∙◌, true, not, List, [], ◌∷◌, ◌++◌, length, take, drop,
  some, pos, ret, arith, inl, ℤ, ◌*◌, if◌then◌else◌, Bool,
}
use lib_urx.Bytes.{Bytes, le_bytes, length-le_bytes}
use lib_urx.Memory.{Ram, peek, poke}
use lib_urx.Memory.Laws.{peek-poke_self, peek-poke_outside}
use lib_urx.Header.Package.{hdr_size}
use lib_urx.Header.Control.{low_byte}
use lib_urx.Header.Responses.{rtde_parse_data_package}
use lib_urx.Token.Laws.{swap_words}
use lib_urx.Token.Store.{IsRam, swap_one}
use lib_urx.Robot.{Robot, write_doubles, write_word}
use lib_urx.Robot.Doubles.{
  be_bytes, Holds, Holds-poke, write_doubles-Holds, write_doubles-IsRam, write_doubles_outside,
}
use lib_urx.Robot.Fields.{InOrder, control_tokens, pose_ref_tokens}
use lib_urx.Robot.Fields.Layouts.{control-IsLaidOut, pose_ref-IsLaidOut}
use lib_urx.Robot.Command.{
  update_w, post_pose, next_seqnr, command, set_ram, calculate_q_ref, wait_for_q_ref,
}
use lib_urx.Robot.Command.Sends.{IsLinked, commanding, commanded, command-sends}

-- A word that the memory holds is sent in network order.
pub word_sent : (w v : ℕ) (bs : Bytes) → bs ≡ le_bytes w v → swap_words 1 w bs ≡ be_bytes w v
word_sent w v bs e = ap (swap_words 1 w) e ∙ swap_one w (le_bytes w v) (length-le_bytes w v)

-- Doubles in network order, and what stands behind them.
abbrev pub be_array : List ℕ → Bytes → Bytes
be_array [] rest = rest
be_array (x ∷ xs) rest = be_bytes 8 x ++ be_array xs rest

pub word_written : (m : Ram) (a v : ℕ) → peek (write_word m a v) a 4 ≡ le_bytes 4 v
word_written m a v =
    subst (λ n. peek (write_word m a v) a n ≡ le_bytes 4 v) (length-le_bytes 4 v)
      (peek-poke_self m a (le_bytes 4 v))

-- Both words of a command are in the memory when it goes out, and doubles behind them are kept.
pub commanding_words :
    (rb : Robot) (m : Ram) (c : ℕ)
    → InOrder rb.members
    → (peek (commanding rb m c) rb.members.in_seqnr 4 ≡ le_bytes 4 (next_seqnr rb))
      × (peek (commanding rb m c) rb.members.cmd 4 ≡ le_bytes 4 c)
commanding_words rb m c o =
    let m1 = write_word m rb.members.in_seqnr (next_seqnr rb) in
    (
      peek-poke_outside m1 rb.members.cmd (le_bytes 4 c) rb.members.in_seqnr 4 (inl o.in_seqnr)
          ∙ word_written m rb.members.in_seqnr (next_seqnr rb),
      word_written m1 rb.members.cmd c,
    )

pub commanding-Holds :
    (rb : Robot) (m : Ram) (c a : ℕ) (xs : List ℕ)
    → InOrder rb.members
    → rb.members.set_qd ≤ a
    → Holds m a 0 xs
    → Holds (commanding rb m c) a 0 xs
commanding-Holds rb m c a xs o h d =
    let seq = le_bytes 4 (next_seqnr rb) in
    Holds-poke (poke m rb.members.in_seqnr seq) a 0 xs rb.members.cmd (le_bytes 4 c)
      (omega (arith, h, length-le_bytes 4 c))
      (Holds-poke m a 0 xs rb.members.in_seqnr seq
        (omega (arith, h, length-le_bytes 4 (next_seqnr rb))) d)

-- The six doubles of an array, from the memory.
pub array_sent :
    (m : Ram) (a : ℕ) (w : List ℕ) (rest : Bytes)
    → length w ≡ 6
    → Holds m a 0 w
    → swap_words 1 8 (peek m a 8)
        ++ (swap_words 1 8 (peek m (a + 8) 8)
            ++ (swap_words 1 8 (peek m (a + 16) 8)
                ++ (swap_words 1 8 (peek m (a + 24) 8)
                    ++ (swap_words 1 8 (peek m (a + 32) 8)
                        ++ (swap_words 1 8 (peek m (a + 40) 8) ++ rest)))))
      ≡ be_array w rest
array_sent m a (u ∷ v ∷ w ∷ x ∷ y ∷ z ∷ []) rest h (h0, (h1, (h2, (h3, (h4, (h5, _)))))) =
    let first : peek m a 8 ≡ le_bytes 8 u = rw add-zero at h0 in
    rw (
      word_sent 8 u _ first,
      word_sent 8 v _ h1,
      word_sent 8 w _ h2,
      word_sent 8 x _ h3,
      word_sent 8 y _ h4,
      word_sent 8 z _ h5,
    )
array_sent m a _ rest h d = absurd (omega arith)

pub update_w_part :
    (rb : Robot) (w : List ℕ) (written : ℤ)
    → length w ≡ 6
    → rb.in_initialized ≡ true
    → update_w rb w written
      ≡ command (set_ram rb (write_doubles rb.client.ram rb.members.set_qd w)) 2 written
unfolding update_w
update_w_part rb w written len i = rw (len, i)

post_pose_part :
    (rb : Robot) (w : List ℕ) (written : ℤ)
    → length w ≡ 6
    → rb.in_initialized ≡ true
    → post_pose rb w written
      ≡ command (set_ram rb (write_doubles rb.client.ram rb.members.tcp_pose_ref w)) 3 written
unfolding post_pose
post_pose_part rb w written len i = rw (len, i)

-- `update_w` with six velocities, over an input recipe with the fields of `init_input` and a
-- connection that takes the package, sends the next sequence number, the command 2 and the
-- velocities, in network order and nothing else, in a package of 60 bytes, and returns true. The
-- memory holds the command 0 again afterwards.
pub update_w-sends :
    (rb : Robot) (w : List ℕ) (p n : ℕ) (dp : Bytes)
    → InOrder rb.members
    → IsLinked rb p (control_tokens rb.members) 56 dp
    → IsRam rb.client.ram
    → length w ≡ 6
    → 60 ≤ n
    → (rb' : Robot) × (b : Bytes) × (update_w rb w (pos n) ≡ ret (rb', true))
      × (rb'.client.con.outgoing ≡ take 60 b ∷ rb.client.con.outgoing)
      × (hdr_size b ≡ ret 60)
      × (rtde_parse_data_package (some b)
          ≡ ret (not (low_byte (rb.client.recipes p).recipe_id == 0)))
      × (take 56 (drop 4 b) ≡ be_bytes 4 (next_seqnr rb) ++ (be_bytes 4 2 ++ be_array w []))
      × (rb'.last_seqnr ≡ next_seqnr rb)
      × (peek rb'.client.ram rb.members.cmd 4 ≡ le_bytes 4 0)
unfolding update_w
update_w-sends rb w p n dp o i ram len fits =
    let m = write_doubles rb.client.ram rb.members.set_qd w in
    let (b, run, size, valid, payload) =
      command-sends rb m 2 p 56 n (control_tokens rb.members) dp i
        (control-IsLaidOut (rb.client.recipes p) rb.members) (omega arith)
        (write_doubles-IsRam rb.client.ram rb.members.set_qd w ram) (omega (arith, fits)) in
    let (seq, cmd) = commanding_words rb m 2 o in
    let held =
      commanding-Holds rb m 2 rb.members.set_qd w o (omega arith)
        (write_doubles-Holds rb.client.ram rb.members.set_qd rb.members.set_qd 0 w (omega arith)) in
    let wire = array_sent (commanding rb m 2) rb.members.set_qd w [] len held in
    (
      commanded rb m 2 p b 60,
      b,
      update_w_part rb w (pos n) len i.initialized ∙ run,
      refl,
      size,
      valid,
      payload ∙ rw (word_sent 4 (next_seqnr rb) _ seq, word_sent 4 2 _ cmd, wire),
      refl,
      word_written (commanding rb m 2) rb.members.cmd 0,
    )

write_doubles-Holds_below :
    (m : Ram) (a i : ℕ) (xs : List ℕ) (b : ℕ) (ys : List ℕ)
    → a + i + 8 * length xs ≤ b
    → Holds m a i xs
    → Holds (write_doubles m b ys) a i xs
write_doubles-Holds_below m a i [] b ys c h = tt
write_doubles-Holds_below m a i (x ∷ xs) b ys c h = (
  write_doubles_outside m b ys (a + i) 8 (inl (omega (arith, c))) ∙ h.0,
  write_doubles-Holds_below m a (8 + i) xs b ys (omega (arith, c)) h.1,
)

set_once : (b : Bool) → (if b then b else true) ≡ true
set_once true = refl
set_once false = refl

calculate_part :
    (rb rb' : Robot) (pose : List ℕ) (written : ℤ) (seen : ℕ → ℕ)
    → post_pose rb pose written ≡ ret (rb', true)
    → let before = rb'.q_ref_initialized in
      calculate_q_ref rb pose written seen
      ≡ ret (
        record rb' { q_ref_initialized = if before then before else true },
        true,
        some (wait_for_q_ref seen rb'.last_seqnr),
      )
unfolding calculate_q_ref
calculate_part rb rb' pose written seen e = rw e

-- `calculate_q_ref` with a pose of six values, over an input recipe with the fields of
-- `init_input_TCP_pose` and a connection that takes the package, sends the next sequence number, the
-- command 3, the velocities that are in the memory and the pose, in network order, in a package of
-- 108 bytes. It returns true and has marked q_ref as initialized, whether or not the controller
-- answered in time.
pub calculate_q_ref-sends :
    (rb : Robot) (w pose : List ℕ) (p n : ℕ) (dp : Bytes) (seen : ℕ → ℕ)
    → InOrder rb.members
    → IsLinked rb p (pose_ref_tokens rb.members) 104 dp
    → IsRam rb.client.ram
    → Holds rb.client.ram rb.members.set_qd 0 w
    → length w ≡ 6
    → length pose ≡ 6
    → 108 ≤ n
    → (rb' : Robot) × (b : Bytes) × (calculate_q_ref rb pose (pos n) seen
        ≡ ret (rb', true, some (wait_for_q_ref seen (next_seqnr rb))))
      × (rb'.client.con.outgoing ≡ take 108 b ∷ rb.client.con.outgoing)
      × (hdr_size b ≡ ret 108)
      × (take 104 (drop 4 b)
          ≡ be_bytes 4 (next_seqnr rb) ++ (be_bytes 4 3 ++ be_array w (be_array pose [])))
      × (rb'.last_seqnr ≡ next_seqnr rb)
      × (rb'.q_ref_initialized ≡ true)
calculate_q_ref-sends rb w pose p n dp seen o i ram old len len' fits =
    let at_ = rb.members in
    let m = write_doubles rb.client.ram at_.tcp_pose_ref pose in
    let (b, run, size, valid, payload) =
      command-sends rb m 3 p 104 n (pose_ref_tokens at_) dp i
        (pose_ref-IsLaidOut (rb.client.recipes p) at_) (omega arith)
        (write_doubles-IsRam rb.client.ram at_.tcp_pose_ref pose ram) (omega (arith, fits)) in
    let (seq, cmd) = commanding_words rb m 3 o in
    let m' = commanding rb m 3 in
    let kept = commanding-Holds rb m 3 at_.set_qd w o (omega arith) (
      write_doubles-Holds_below rb.client.ram at_.set_qd 0 w at_.tcp_pose_ref pose
        (omega (arith, len)) old) in
    let held =
      commanding-Holds rb m 3 at_.tcp_pose_ref pose o (omega arith) (
        write_doubles-Holds rb.client.ram at_.tcp_pose_ref at_.tcp_pose_ref 0 pose (omega arith)) in
    let wire = array_sent m' at_.tcp_pose_ref pose [] len' held in
    let rb1 = commanded rb m 3 p b 108 in
    (
      record rb1 {
        q_ref_initialized = if rb.q_ref_initialized then rb.q_ref_initialized else true;
      },
      b,
      calculate_part rb rb1 pose (pos n) seen
          (post_pose_part rb pose (pos n) len' i.initialized ∙ run),
      refl,
      size,
      payload
          ∙ rw (
            word_sent 4 (next_seqnr rb) _ seq,
            word_sent 4 3 _ cmd,
            wire,
            array_sent m' at_.set_qd w (be_array pose []) len kept,
          ),
      refl,
      set_once rb.q_ref_initialized,
    )
