-- ===== src/Handler/Receive/Keeps.antt =====
-- `recv` of a package changes no more of the memory than the fields.
use lib_urx.Base.{refl, ℕ, ◌≡◌, length, true, some, drop, ◌+◌, ◌≤◌, arith, ◌<◌, Ends, Ends-then}
use lib_urx.Handler.{Client, recv, Ram}
use lib_urx.Con.{arrived}
use lib_urx.Memory.{Ram}
use lib_urx.Recipe.Layout.Parse.Keeps.{SameOutside, parse-keeps}
use lib_urx.Handler.Receive.{filled_lem}
use lib_urx.Con.Laws.{do_recv_lem}
use lib_urx.Handler.{recv}
use lib_urx.Base.{length-append, All-append, ◌++◌}
use lib_urx.Handler.Laws.{incoming_lem, incoming, is_expected}
use lib_urx.Recipe.{parse}
use lib_urx.Handler.{parse_payload}
use lib_urx.Bytes.{Bytes, AreBytes}
use lib_urx.Token.Store.{IsRam}
use lib_urx.Recipe.Layout.{IsLaidOut}

-- The memory of bytes differs at most in the fields of the recipe at p.
abbrev pub Kept : Client → ℕ → Ram → Type 0
Kept h p m = IsRam m × SameOutside (h.recipes p).ts_ns (h.recipes p).fields h.ram m

parse_payload-keeps :
    (h : Client) (p ts : ℕ)
    → IsLaidOut (h.recipes p)
    → (h.recipes p).dir_out ≡ true
    → AreBytes (drop 4 h.buffer)
    → (h.recipes p).bytes ≤ length (drop 4 h.buffer)
    → IsRam h.ram
    → Ends (λ res. Kept h p res.0.ram) (parse_payload h p ts)
parse_payload-keeps h p ts l d b fits i =
    Ends-then
      (λ res. IsRam res.0 × SameOutside (h.recipes p).ts_ns (h.recipes p).fields h.ram res.0) _
      (parse (h.recipes p) h.ram (some (drop 4 h.buffer)) ts) _
      (parse-keeps (h.recipes p) h.ram (drop 4 h.buffer) ts l d b fits i) λ res k. k

-- `recv` of a whole package keeps all but the fields.
pub recv-keeps :
    (h : Client) (p size id : ℕ) (payload : Bytes) (ts : ℕ)
    → h.out ≡ some p
    → length h.buffer ≡ 2048
    → AreBytes h.buffer
    → size ≤ 2048
    → size ≡ 4 + length payload
    → is_expected (h.recipes p) size b'U' id ≡ true
    → AreBytes payload
    → IsLaidOut (h.recipes p)
    → (h.recipes p).dir_out ≡ true
    → IsRam h.ram
    → Ends (λ res. Kept h p res.0.ram) (recv h (arrived (incoming size b'U' id payload)) ts)
unfolding recv
recv-keeps h p size id payload ts o len b fits whole e bytes l d i =
    let frame = incoming size b'U' id payload in
    let total : length frame ≡ size = omega (arith, whole) in
    let (tail, form, rest) = filled_lem h.buffer frame (omega (arith, total, fits, len)) b in
    let h' : Client = record h { buffer = frame ++ tail } in
    let got = do_recv_lem h.buffer frame 2048 (omega (arith, total, fits)) (omega (arith, len)) in
    let run = incoming_lem h' p size b'U' id (payload ++ tail) ts o refl (omega (arith, fits)) in
    let enough : (h.recipes p).bytes ≤ length (payload ++ tail) =
      ground (arith, e, whole, length-append payload tail) in
    let kept : Ends (λ res. Kept h' p res.0.ram) (parse_payload h' p ts) =
      parse_payload-keeps h' p ts l d (All-append (λ x. x < 256) payload tail bytes rest) enough
        i in
    simp (got, form, run, e) kept
