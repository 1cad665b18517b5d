-- ===== src/Examples/Vectors.antt =====
-- Vectors of doubles, with a subtraction of their bits that is enough for equal ones.
use lib_urx.Base.{◌≡◌, ◌-◌, [], ◌∷◌, ret, arith}
use lib_urx.Double.{double_1}
use lib_urx.Helper.{close_vec, close_vec_unsafe}
use lib_urx.Helper.Close.{close_vec_unsafe-agrees}

close_vec_unsafe-agrees_example :
    close_vec_unsafe (λ a b. a - b) (double_1 ∷ 5 ∷ []) (double_1 ∷ []) 0
    ≡ ret (close_vec (λ a b. a - b) (double_1 ∷ []) (double_1 ∷ []) 0)
close_vec_unsafe-agrees_example =
    close_vec_unsafe-agrees (λ a b. a - b) (double_1 ∷ 5 ∷ []) (double_1 ∷ []) 0 (omega arith)
