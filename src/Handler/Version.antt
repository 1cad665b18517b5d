-- ===== src/Handler/Version.antt =====
-- The request for a version of the protocol.
use lib_urx.Base.{
  ℕ, ◌≡◌, ◌≤◌, ◌==◌, refl, ap, ◌∙◌, true, not, [], ◌∷◌, length, replicate, ret, arith, some,
}
use lib_urx.Bytes.{Bytes}
use lib_urx.Memory.{load, patch}
use lib_urx.Header.Package.{hdr_size, hdr_type}
use lib_urx.Header.Package.Laws.{hdr_size-be16}
use lib_urx.Header.Requests.Laws.{mkreq_frames}
use lib_urx.Header.Responses.{rtde_parse_prot_version}
use lib_urx.Con.Laws.{filled}
use lib_urx.Handler.{Client, set_version}
use lib_urx.Handler.Laws.{whole, answered, exchange_lem}

prot_version_lem :
    (accepted : ℕ) (r : Bytes)
    → rtde_parse_prot_version (some (0 ∷ 4 ∷ b'V' ∷ accepted ∷ r)) ≡ ret (not (accepted == 0))
unfolding rtde_parse_prot_version hdr_size hdr_type load
prot_version_lem accepted r = ground arith

filled_version :
    (buf : Bytes) (accepted : ℕ)
    → length buf ≡ 2048
    → (r : Bytes) × (filled buf 1024 (0 ∷ 4 ∷ b'V' ∷ accepted ∷ []) ≡ 0 ∷ 4 ∷ b'V' ∷ accepted ∷ r)
unfolding patch
filled_version (a ∷ b ∷ c ∷ d ∷ r) accepted h = (patch r 0 (0 ∷ []), refl)
filled_version _ accepted h = absurd (omega arith)

-- Over a connection that takes the request and brings the whole answer, `set_version` asks for
-- version 2 and returns true exactly if the answer accepts.
pub set_version_lem :
    (stack : Bytes) (h : Client) (n accepted : ℕ)
    → length stack ≡ 5
    → h.con.connected ≡ true
    → length h.buffer ≡ 2048
    → 5 ≤ n
    → set_version stack h (whole n (0 ∷ 4 ∷ b'V' ∷ accepted ∷ []))
      ≡ ret (
        answered h (0 ∷ 5 ∷ b'V' ∷ 0 ∷ 2 ∷ []) 1024 (0 ∷ 4 ∷ b'V' ∷ accepted ∷ []),
        not (accepted == 0),
      )
unfolding set_version
set_version_lem stack h n accepted s c room fits =
    let (r, form) = filled_version h.buffer accepted room in
    let read = ap (λ b. rtde_parse_prot_version (some b)) form ∙ prot_version_lem accepted r in
    let run =
      exchange_lem h (0 ∷ 5 ∷ b'V' ∷ 0 ∷ 2 ∷ []) (0 ∷ 4 ∷ b'V' ∷ accepted ∷ []) 1024 n
        (hdr_size-be16 5 (b'V' ∷ 0 ∷ 2 ∷ []) (omega arith)) c fits (omega arith)
        (omega (arith, room)) in
    rw ((mkreq_frames stack (replicate 3 0) true s refl).0, run, read) refl
