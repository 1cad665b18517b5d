-- ===== src/Token.antt =====
-- include/urx/rtde_recipe_token.hpp and src/rtde_recipe_token.cpp: one field of a recipe. The
-- closures `tokenStore` and `tokenParser` of a token are functions of its type, its offset and the
-- pointer `t` that they capture. The host is little-endian.
pub mod Laws
pub mod Store
use Prim.Native.String.{String}
use lib_urx.Base.{
  ℕ, zero, suc, ◌+◌, ◌%◌, Bool, true, false, ◌==◌, not, if◌then◌else◌, List, [], ◌∷◌, Option, none,
  some, length, replicate, Run, fault, ret, ◌>>=◌,
}
use lib_urx.Bytes.{Bytes, le_value, le_bytes, bswap}
use lib_urx.Double.{double_be, double_h}
use lib_urx.Helper.{trim}
use lib_urx.Memory.{Ram, peek, poke, load, store, write}
use lib_urx.Magic.Types.{
  DataType, bool, uint8, uint32, uint64, int32, double, vector3d, vector6d, vector6int32,
  vector6uint32, string, in_use, not_found, rtde_datasize, same_type, data_name_to_type,
}
use lib_urx.Magic.Names.{type_at}
use lib_urx.Magic.InputNames.{rtde_input_names}
use lib_urx.Magic.Lookup.{rtde_output_names}

-- The two subclasses.
pub data TokenKind : Type 0 where
  token_in token_out : TokenKind

pub record Token : Type 0 where
  pub kind : TokenKind
  pub name : String
  pub type : DataType
  pub magic_idx : ℕ
  pub datasize : ℕ
  pub offset : ℕ
  pub storage : ℕ

-- The constructor of `RTDE_Recipe_Token_In`. A null pointer makes the type NOT_FOUND.
unfoldable pub new_token_in : String → ℕ → Option ℕ → Token
unfolding rtde_datasize type_at
new_token_in n idx none = record {
  kind = token_in;
  name = n;
  type = not_found;
  magic_idx = idx;
  datasize = 0;
  offset = 0;
  storage = 0;
}
new_token_in n idx (some t) = record {
  kind = token_in;
  name = n;
  type = type_at rtde_input_names idx;
  magic_idx = idx;
  datasize = rtde_datasize (type_at rtde_input_names idx);
  offset = 0;
  storage = t;
}

-- The constructor of `RTDE_Recipe_Token_Out`.
unfoldable pub new_token_out : String → ℕ → ℕ → Token
unfolding rtde_datasize type_at
new_token_out n idx t = record {
  kind = token_out;
  name = n;
  type = type_at rtde_output_names idx;
  magic_idx = idx;
  datasize = rtde_datasize (type_at rtde_output_names idx);
  offset = 0;
  storage = t;
}

-- `num_bytes` returns a uint8_t.
unfoldable pub num_bytes : Token → ℕ
num_bytes k = k.datasize % 256

-- `tokenStore`: the value at `t`, in network order, goes to the buffer.
unfoldable pub token_store : DataType → ℕ → ℕ → Ram → Bytes → Run Bytes
unfolding peek le_value bswap store write double_h
token_store bool offset t ram buf = write buf offset (peek ram t 1)
token_store uint8 offset t ram buf = write buf offset (peek ram t 1)
token_store uint32 offset t ram buf = store 4 buf offset (bswap 4 (le_value (peek ram t 4)))
token_store int32 offset t ram buf = store 4 buf offset (bswap 4 (le_value (peek ram t 4)))
token_store double offset t ram buf = store 8 buf offset (double_h (le_value (peek ram t 8)))
token_store _ offset t ram buf = ret buf

-- `for (c = 0; c < n; ++c) ((T *)t)[c] = betoh(((T *)(buf + offset))[c])` for a type of w bytes.
unfoldable pub parse_elements : ℕ → ℕ → ℕ → ℕ → Ram → Bytes → Run Ram
unfolding load poke le_bytes bswap
parse_elements zero w offset t ram buf = ret ram
parse_elements (suc n) w offset t ram buf = load w buf offset >>= λ v.
    parse_elements n w (offset + w) (t + w) (poke ram t (le_bytes w (bswap w v))) buf

-- `strncpy(dst, src, n)` reads up to the terminating 0 and fills up with zeros.
strncpy : ℕ → Ram → ℕ → Bytes
strncpy zero ram src = []
strncpy (suc n) ram src =
    let more = ram src ∷ strncpy n ram (suc src) in
    if ram src == 0 then replicate (suc n) 0 else more

-- `tokenParser`: the value in the buffer goes to `t`, in host order. For a string the source copies
-- the other way, from `t` to the start of the buffer.
unfoldable pub token_parser : DataType → ℕ → ℕ → Ram → Bytes → Run (Ram × Bytes)
unfolding load poke le_bytes bswap double_be parse_elements strncpy write
token_parser bool offset t ram buf =
    load 1 buf offset >>= λ v. ret (poke ram t (le_bytes 1 (if v == 0 then 0 else 1)), buf)
token_parser uint8 offset t ram buf =
    load 1 buf offset >>= λ v. ret (poke ram t (le_bytes 1 v), buf)
token_parser uint32 offset t ram buf =
    load 4 buf offset >>= λ v. ret (poke ram t (le_bytes 4 (bswap 4 v)), buf)
token_parser uint64 offset t ram buf =
    load 8 buf offset >>= λ v. ret (poke ram t (le_bytes 8 (bswap 8 v)), buf)
token_parser int32 offset t ram buf =
    load 4 buf offset >>= λ v. ret (poke ram t (le_bytes 4 (bswap 4 v)), buf)
token_parser double offset t ram buf =
    load 8 buf offset >>= λ v. ret (poke ram t (le_bytes 8 (double_be v)), buf)
token_parser vector3d offset t ram buf = parse_elements 3 8 offset t ram buf >>= λ m. ret (m, buf)
token_parser vector6d offset t ram buf = parse_elements 6 8 offset t ram buf >>= λ m. ret (m, buf)
token_parser vector6int32 offset t ram buf =
    parse_elements 6 4 offset t ram buf >>= λ m. ret (m, buf)
token_parser vector6uint32 offset t ram buf =
    parse_elements 6 4 offset t ram buf >>= λ m. ret (m, buf)
token_parser string offset t ram buf = write buf 0 (strncpy 32 ram t) >>= λ b. ret (ram, b)
token_parser in_use offset t ram buf = ret (ram, buf)
token_parser not_found offset t ram buf = ret (ram, buf)

-- The virtual `store`: false in the base class, which an output token inherits.
unfoldable pub token_store_in : Token → Ram → Option Bytes → Run (Option Bytes)
token_store_in k ram none = ret none
token_store_in k ram (some buf) = elim k.kind [
  | token_in ↦ token_store k.type k.offset k.storage ram buf >>= λ b. ret (some b)
  | token_out ↦ ret none
]

-- The virtual `parse`: false in the base class, which an input token inherits.
unfoldable pub token_parse : Token → Ram → Option Bytes → Run (Option (Ram × Bytes))
token_parse k ram none = ret none
token_parse k ram (some buf) = elim k.kind [
  | token_in ↦ ret none
  | token_out ↦ token_parser k.type k.offset k.storage ram buf >>= λ r. ret (some r)
]

-- The response names a type; the text may have blanks around it.
unfoldable pub set_response_type : Token → Bytes → Bool
unfolding trim data_name_to_type
set_response_type k resp_type =
    let resp = trim resp_type in same_type k.type (data_name_to_type (some resp) (length resp))
