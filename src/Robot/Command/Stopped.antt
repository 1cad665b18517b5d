-- ===== src/Robot/Command/Stopped.antt =====
-- The end of a session.
use lib_urx.Handler.{Exchange, Client}
use lib_urx.Base.{
  ℕ, ◌≡◌, ◌≤◌, ◌∙◌, refl, Bool, true, false, List, [], ◌∷◌, ◌++◌, length, take, drop, some, pos, ℤ,
  ret, arith,
}
use lib_urx.Bytes.{Bytes, le_bytes}
use lib_urx.Memory.{peek}
use lib_urx.Header.Package.{hdr_size}
use lib_urx.Token.Store.{IsRam}
use lib_urx.Handler
use lib_urx.Handler.{Client, Exchange}
use lib_urx.Handler.Laws.{whole, sp_asked, start_stop-answers}
use lib_urx.Handler.Updates.{updated}
use lib_urx.Robot.{Robot}
use lib_urx.Robot.Doubles.{be_bytes, Holds}
use lib_urx.Robot.Fields.{InOrder, control_tokens}
use lib_urx.Robot.Fields.Layouts.{control-IsLaidOut}
use lib_urx.Robot.Command.{stop, prepare, send_input, next_seqnr}
use lib_urx.Robot.Command.Sends.{IsLinked, commanding, ready-sends}
use lib_urx.Robot.Command.Payload.{
  commanding_words, commanding-Holds, array_sent, be_array, word_sent,
}

-- `stop` over a `send` and a handler's `stop`.
stop_part :
    (rb : Robot) (p : ℕ) (written : ℤ) (stack : Bytes) (net : Exchange) (h h' : Client)
    (sent done : Bool)
    → rb.running ≡ true
    → rb.joinable ≡ true
    → rb.input ≡ some p
    → Handler.send
        (record rb.client { ram = commanding rb rb.client.ram 1 })
        (rb.client.recipes p).recipe_id
        written
      ≡ ret (h, sent)
    → Handler.stop stack h net ≡ ret (h', done)
    → stop rb written stack net
      ≡ ret (
        record rb { last_seqnr = next_seqnr rb; client = h'; running = false; joinable = false },
        true,
      )
unfolding stop prepare send_input
stop_part rb p written stack net h h' sent done going thread input run halt =
    simp (going, thread, input, run, halt)

-- `stop` of a robot that runs, over an input recipe with the fields of `init_input` and a connection
-- that takes the package and the request and brings the whole answer, hands the connection two
-- frames: a package of 60 bytes with the next sequence number, the command 1 and the velocities
-- that are in the memory, in network order, and then the request to pause. It returns true,
-- whatever the answer says, with no thread left, and the command 1 stays in the memory.
pub stop-pauses :
    (rb : Robot) (w : List ℕ) (p n k kind accepted : ℕ) (dp stack : Bytes)
    → InOrder rb.members
    → IsLinked rb p (control_tokens rb.members) 56 dp
    → IsRam rb.client.ram
    → Holds rb.client.ram rb.members.set_qd 0 w
    → length w ≡ 6
    → rb.running ≡ true
    → rb.joinable ≡ true
    → 60 ≤ n
    → length stack ≡ 3
    → length rb.client.buffer ≡ 2048
    → 3 ≤ k
    → (rb' : Robot) × (b : Bytes) × (stop rb (pos n) stack (whole k (0 ∷ 4 ∷ kind ∷ accepted ∷ []))
        ≡ ret (rb', true))
      × (rb'.client.con.outgoing ≡ (0 ∷ 3 ∷ b'P' ∷ []) ∷ take 60 b ∷ rb.client.con.outgoing)
      × (hdr_size b ≡ ret 60)
      × (take 56 (drop 4 b) ≡ be_bytes 4 (next_seqnr rb) ++ (be_bytes 4 1 ++ be_array w []))
      × (rb'.last_seqnr ≡ next_seqnr rb)
      × (rb'.running ≡ false)
      × (rb'.joinable ≡ false)
      × (peek rb'.client.ram rb.members.cmd 4 ≡ le_bytes 4 1)
stop-pauses rb w p n k kind accepted dp stack o i ram old len going thread fits s room more =
    let m = rb.client.ram in
    let (b, run, size, valid, payload) =
      ready-sends rb m 1 p 56 n (control_tokens rb.members) dp i
        (control-IsLaidOut (rb.client.recipes p) rb.members) (omega arith) ram
        (omega (arith, fits)) in
    let h = updated (record rb.client { ram = commanding rb m 1 }) p b 60 in
    let h' = sp_asked h b'P' kind accepted in
    let halt = (start_stop-answers stack h k kind accepted s i.connected room more).1 in
    let (seq, cmd) = commanding_words rb m 1 o in
    let held = commanding-Holds rb m 1 rb.members.set_qd w o (omega arith) old in
    let wire = array_sent (commanding rb m 1) rb.members.set_qd w [] len held in
    (
      record rb { last_seqnr = next_seqnr rb; client = h'; running = false; joinable = false },
      b,
      stop_part rb p (pos n) stack (whole k (0 ∷ 4 ∷ kind ∷ accepted ∷ [])) h h' true _ going thread
          i.input run halt,
      refl,
      size,
      payload ∙ rw (word_sent 4 (next_seqnr rb) _ seq, word_sent 4 1 _ cmd, wire),
      refl,
      refl,
      refl,
      cmd,
    )
