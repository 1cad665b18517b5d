-- ===== src/Memory.antt =====
-- The memory that the code reads and writes by pointer arithmetic. A buffer (a package of 2048
-- bytes, the receive buffer) is the list of its bytes, and an access outside it faults. The memory
-- of the program that uses the library, which recipe fields point into, is a function from
-- addresses to bytes: the library trusts those pointers.
pub mod Laws
pub mod Frames
use lib_urx.Base.{
  ℕ, zero, suc, ◌==◌, if◌then◌else◌, List, [], ◌∷◌, length, drop, Run, fault, ret, ◌>>=◌,
}
use lib_urx.Bytes.{Bytes, le_value, le_bytes}

-- The first n bytes, if there are as many.
unfoldable pub front : ℕ → Bytes → Run Bytes
front zero bs = ret []
front (suc n) [] = fault
front (suc n) (b ∷ bs) = front n bs >>= λ r. ret (b ∷ r)

-- n bytes at an offset.
unfoldable pub slice : Bytes → ℕ → ℕ → Run Bytes
unfolding front
slice buf off n = front n (drop off buf)

-- The buffer with some bytes replaced, inside its bounds.
unfoldable pub patch : Bytes → ℕ → Bytes → Bytes
patch buf zero [] = buf
patch [] zero (b ∷ bs) = []
patch (x ∷ buf) zero (b ∷ bs) = b ∷ patch buf zero bs
patch [] (suc off) bs = []
patch (x ∷ buf) (suc off) bs = x ∷ patch buf off bs

unfoldable pub write : Bytes → ℕ → Bytes → Run Bytes
unfolding slice patch
write buf off bs = slice buf off (length bs) >>= λ _. ret (patch buf off bs)

-- A load and a store of an n-byte word.
unfoldable pub load : ℕ → Bytes → ℕ → Run ℕ
unfolding slice le_value
load n buf off = slice buf off n >>= λ bs. ret (le_value bs)

unfoldable pub store : ℕ → Bytes → ℕ → ℕ → Run Bytes
unfolding write le_bytes
store n buf off v = write buf off (le_bytes n v)

abbrev pub Ram : Type 0
Ram = ℕ → ℕ

unfoldable pub peek : Ram → ℕ → ℕ → Bytes
peek m a zero = []
peek m a (suc n) = m a ∷ peek m (suc a) n

unfoldable pub poke : Ram → ℕ → Bytes → Ram
poke m a [] = m
poke m a (b ∷ bs) = poke (λ x. if x == a then b else m x) (suc a) bs

-- A C string: the bytes up to the terminating 0, which must stand in the buffer.
unfoldable pub c_string : Bytes → Run Bytes
c_string [] = fault
c_string (b ∷ bs) = let rest = c_string bs >>= λ r. ret (b ∷ r) in if b == 0 then ret [] else rest
