-- ===== src/Con/Laws.antt =====
-- An exchange over the connection.
use lib_urx.Base.{
  [], some, zero, suc, inl, inr, ℕ, refl, ◌≡◌, length, if◌then◌else◌, ltb, true, ◌≤◌, pos, some,
  ◌∷◌, [], ret, take, arith, false, ap, Bool-cases, ◌+◌,
}
use lib_urx.Bytes.{Bytes}
use lib_urx.Memory.{patch}
use lib_urx.Memory.Laws.{slice_lem, write_lem, length-patch}
use lib_urx.Con.{Con, arrived, do_send, do_recv, is_short}

-- The buffer after bytes arrived: they stand at its start, with a 0 behind them where there is room.
abbrev pub filled : Bytes → ℕ → Bytes → Bytes
filled rbuf rsz bs =
    let b = patch rbuf 0 bs in if ltb (length bs) rsz then patch b (length bs) (0 ∷ []) else b

pub do_send_lem :
    (c : Con) (sbuf : Bytes) (ssz n : ℕ)
    → c.connected ≡ true
    → ssz ≤ length sbuf
    → ssz ≤ n
    → do_send c sbuf ssz (pos n) ≡ ret (record c { outgoing = take ssz sbuf ∷ c.outgoing }, pos n)
unfolding do_send
do_send_lem c sbuf ssz n h k w =
    let whole : is_short (pos n) ssz ≡ false = ground (arith, w) in
    rw (slice_lem sbuf 0 ssz (omega (arith, k)), h, whole)

take_le : (n : ℕ) (bs : Bytes) → length bs ≤ n → take n bs ≡ bs
take_le zero [] h = refl
take_le zero (b ∷ bs) h = absurd (omega arith)
take_le (suc n) [] h = refl
take_le (suc n) (b ∷ bs) h = ap (◌∷◌ b) (take_le n bs (omega arith))

pub do_recv_lem :
    (rbuf bs : Bytes) (rsz : ℕ)
    → length bs ≤ rsz
    → rsz ≤ length rbuf
    → do_recv (some rbuf) rsz (arrived bs) ≡ ret (some (filled rbuf rsz bs), pos (length bs))
unfolding do_recv
do_recv_lem rbuf bs rsz h k = elim (Bool-cases (ltb (length bs) rsz)) [
  | inl e ↦
      let room : length bs + 1 ≤ length rbuf = ground (arith, e, k) in
      rw (
        take_le rsz bs h,
        write_lem rbuf 0 bs (omega (arith, h, k)),
        e,
        write_lem (patch rbuf 0 bs) (length bs) (0 ∷ [])
            (omega (arith, length-patch rbuf 0 bs, room)),
      )
  | inr e ↦ rw (take_le rsz bs h, write_lem rbuf 0 bs (omega (arith, h, k)), e)
]
