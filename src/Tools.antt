-- ===== src/Tools.antt =====
-- The programs under tools/, which use the library, and what they share: the arithmetic on doubles,
-- which is an argument, the arguments of the command line, and the opening of a connection.
pub mod GetRemote
pub mod RobotSpeed
pub mod TcpPose
pub mod JointSpeed
pub mod Roundtrip
pub mod SendScript
use lib_urx.Base.{ℕ, ℤ, negsuc, List, [], ◌∷◌, take, none, Bool}
use lib_urx.Bytes.{Bytes}
use lib_urx.Memory.{Ram}
use lib_urx.Con.{Con, new_con, do_connect}
use lib_urx.Handler.{Client}
use lib_urx.Recipe.{Recipe}

-- Arithmetic on doubles, and the double that an int is converted to.
pub record Doubles : Type 0 where
  pub plus : ℕ → ℕ → ℕ
  pub minus : ℕ → ℕ → ℕ
  pub times : ℕ → ℕ → ℕ
  pub over : ℕ → ℕ → ℕ
  pub of_int : ℕ → ℕ

-- What `strncpy(dst, optarg, n)` makes of a block of n + 1 zeros: an argument has no 0 inside.
abbrev pub copied : ℕ → Bytes → Bytes
copied n optarg = take n optarg

-- The results of `socket`, `inet_pton` and `connect`.
pub record Dial : Type 0 where
  pub opened : ℤ
  pub address : ℤ
  pub reached : ℤ

abbrev pub dial : Con → Dial → Con
dial c d = (do_connect c d.opened d.address d.reached).0

-- The constructor of RTDE_Handler, which connects. The buffer, the recipes and the memory have what
-- stands there.
unfoldable pub new_handler : Bytes → (ℕ → Recipe) → Ram → Dial → Client
new_handler buffer recipes ram d = record {
  con = dial new_con d;
  buffer = buffer;
  out = none;
  recipes_in = [];
  recipes = recipes;
  ram = ram;
}

-- A client that is connected stays as it is, so the option that `connect_ur` asks for is not set.
unfoldable pub connect_ur : Client → Dial → Client × Bool
connect_ur h d =
    let res = do_connect h.con d.opened d.address d.reached in (record h { con = res.0 }, res.1)
