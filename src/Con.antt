-- ===== src/Con.antt =====
-- include/urx/con.hpp and src/con.cpp: the TCP connection. What a system call returns is an argument
-- of the function that makes the call. `outgoing` has what was handed to `send`, the latest first.
pub mod Laws
use lib_urx.Base.{
  none, some, ℕ, ℤ, negsuc, if◌then◌else◌, Option, Bool, false, Run, List, [], true, ◌>>=◌, ret,
  is_negative, ◌∷◌, not, is_positive, pos, some, ltb, take, length,
}
use lib_urx.Bytes.{Bytes}
use lib_urx.Memory.{slice, write}

pub record Con : Type 0 where
  pub sock : ℤ
  pub connected : Bool
  pub outgoing : List Bytes

-- What `recvfrom` finds: an error -(n + 1), or bytes.
pub data Incoming : Type 0 where
  failed : ℕ → Incoming
  arrived : Bytes → Incoming

abbrev pub new_con : Con
new_con = record { sock = negsuc 0; connected = false; outgoing = [] }

unfoldable pub disconnect : Con → Con
disconnect c = if c.connected then record c { connected = false; sock = negsuc 0 } else c

-- The results of `socket`, `inet_pton` and `connect`. A failure of `setsockopt` is only printed.
unfoldable pub do_connect : Con → ℤ → ℤ → ℤ → Con × Bool
do_connect c opened address reached =
    let c' = record c { sock = opened } in
    if c.connected
    then (c, true)
    else if is_negative opened
    then (c', false)
    else if not (is_positive address)
    then (c', false)
    else if is_negative reached
    then (c', false)
    else (record c' { connected = true }, true)

-- `written_sz < ssz`, for the result of `send`.
abbrev pub is_short : ℤ → ℕ → Bool
is_short (pos n) ssz = ltb n ssz
is_short (negsuc n) ssz = true

-- `send` reads ssz bytes of sbuf.
unfoldable pub do_send : Con → Bytes → ℕ → ℤ → Run (Con × ℤ)
unfolding slice
do_send c sbuf ssz written =
    let handed = slice sbuf 0 ssz >>= λ out.
    let c' = record c { outgoing = out ∷ c.outgoing } in
    ret (c', if is_short written ssz then negsuc 0 else written) in
    if not c.connected then ret (c, negsuc 0) else handed

-- `recvfrom` copies at most rsz bytes.
unfoldable pub do_recv : Option Bytes → ℕ → Incoming → Run (Option Bytes × ℤ)
unfolding write
do_recv none rsz input = ret (none, negsuc 1)
do_recv (some rbuf) rsz (failed n) = ret (some rbuf, negsuc n)
do_recv (some rbuf) rsz (arrived bs) = do
  let got = take rsz bs
  filled ← write rbuf 0 got
  let terminated = write filled (length got) (0 ∷ []) >>= λ b. ret (some b, pos (length got))
  if ltb (length got) rsz then terminated else ret (some filled, pos (length got))

unfoldable pub do_send_recv :
    Con → Bytes → ℕ → Option Bytes → ℕ → ℤ → Incoming → Run (Con × Option Bytes × ℤ)
do_send_recv c sbuf ssz rbuf rsz written input = do_send c sbuf ssz written >>= λ sent.
    let (c', n) = sent in
    let answer = do_recv rbuf rsz input >>= λ got. ret (c', got.0, got.1) in
    if is_negative n then ret (c', rbuf, n) else answer
