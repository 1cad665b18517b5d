-- ===== src/Memory/Frames.antt =====
-- A package is built front to back. `Begins n pre buf`: the buffer of n bytes begins with `pre`.
use lib_urx.Base.{
  ◌>>=◌, ℕ, ◌+◌, ◌≤◌, ◌≡◌, ap, ◌∙◌, ◌++◌, length, take, length-append, ret, arith, Run,
}
use lib_urx.Bytes.{Bytes}
use lib_urx.Memory.{patch, write}
use lib_urx.Memory.Laws.{write_lem, length-patch, take-patch}

pub record Begins (n : ℕ) (pre buf : Bytes) : Type 0 where
  pub size : length buf ≡ n
  pub start : take (length pre) buf ≡ pre

-- The code runs without a fault and leaves such a buffer.
abbrev pub Yields : ℕ → Bytes → Run Bytes → Type 0
Yields n pre m = (b : Bytes) × (m ≡ ret b) × Begins n pre b

pub Yields-bind :
    {n : ℕ} (pre pre' : Bytes) (m : Run Bytes) (f : Bytes → Run Bytes)
    → Yields n pre m
    → ((b : Bytes) → Begins n pre b → Yields n pre' (f b))
    → Yields n pre' (m >>= f)
Yields-bind pre pre' m f (b, e, h) next = rw e (next b h)

-- A write behind what is there extends it.
pub write-Begins :
    {n : ℕ} (pre bs : Bytes) {buf : Bytes} (off : ℕ)
    → Begins n pre buf
    → off ≡ length pre
    → off + length bs ≤ n
    → Yields n (pre ++ bs) (write buf off bs)
write-Begins pre bs {buf} off h e fits = (
  patch buf off bs,
  write_lem buf off bs (omega (arith, h.size)),
  record {
    size = length-patch buf off bs ∙ h.size;
    start =
        rw (length-append pre bs, ← e)
          (take-patch buf off bs (omega (arith, h.size)) ∙ ap (λ xs. xs ++ bs) (rw e h.start));
  },
)
