-- ===== src/Magic/Types.antt =====
-- The enumerations of include/urx/magic.h, and the names and sizes of the data types.
use Prim.Native.Char.{code}
use Prim.Native.String.{String}
use lib_urx.Base.{ℕ, zero, suc, Bool, true, false, ◌==◌, if◌then◌else◌, [], ◌∷◌, Option, none, some}
use lib_urx.Bytes.{Bytes}

-- The bytes of an ASCII text.
abbrev pub codes : String → Bytes
codes String.[] = []
codes (String.◌∷◌ c s) = code c ∷ codes s

abbrev pub supported_protocol_version : ℕ
supported_protocol_version = 2

pub data PackageType : Type 0 where
  request_protocol_version get_urcontrol_version text_message data_package : PackageType
  control_package_setup_outputs control_package_setup_inputs : PackageType
  control_package_start control_package_pause : PackageType

abbrev pub package_code : PackageType → ℕ
package_code request_protocol_version = 86
package_code get_urcontrol_version = 118
package_code text_message = 77
package_code data_package = 85
package_code control_package_setup_outputs = 79
package_code control_package_setup_inputs = 73
package_code control_package_start = 83
package_code control_package_pause = 80

pub data MessageType : Type 0 where
  exception_message error_message warning_message info_message : MessageType

abbrev pub message_code : MessageType → ℕ
message_code exception_message = 0
message_code error_message = 1
message_code warning_message = 2
message_code info_message = 3

pub data DataType : Type 0 where
  bool uint8 uint32 uint64 int32 double vector3d vector6d vector6int32 vector6uint32 : DataType
  string in_use not_found : DataType

-- The value of the enumerator.
abbrev pub type_code : DataType → ℕ
type_code bool = 0
type_code uint8 = 1
type_code uint32 = 2
type_code uint64 = 3
type_code int32 = 4
type_code double = 5
type_code vector3d = 6
type_code vector6d = 7
type_code vector6int32 = 8
type_code vector6uint32 = 9
type_code string = 10
type_code in_use = 11
type_code not_found = 12

-- `a == b` on the enumeration.
abbrev pub same_type : DataType → DataType → Bool
same_type a b = type_code a == type_code b

unfoldable pub rtde_datasize : DataType → ℕ
rtde_datasize bool = 1
rtde_datasize uint8 = 1
rtde_datasize uint32 = 4
rtde_datasize uint64 = 8
rtde_datasize int32 = 4
rtde_datasize double = 8
rtde_datasize vector3d = 24
rtde_datasize vector6d = 48
rtde_datasize vector6int32 = 24
rtde_datasize vector6uint32 = 24
rtde_datasize string = 1
rtde_datasize in_use = 0
rtde_datasize not_found = 0

-- The C library's `strncmp(a, b, n) == 0`. The end of a list reads as the terminating 0.
unfoldable pub strncmp_eq : ℕ → Bytes → Bytes → Bool
strncmp_eq zero a b = true
strncmp_eq (suc n) [] [] = true
strncmp_eq (suc n) [] (y ∷ b) = y == 0
strncmp_eq (suc n) (x ∷ a) [] = x == 0
strncmp_eq (suc n) (x ∷ a) (y ∷ b) =
    let rest = strncmp_eq n a b in if x == y then if x == 0 then true else rest else false

-- The first type in the order of the source whose name agrees in the first sz characters.
unfoldable pub data_name_to_type : Option Bytes → ℕ → DataType
unfolding strncmp_eq
data_name_to_type none sz = not_found
data_name_to_type (some name) sz =
    if strncmp_eq sz name (codes "BOOL")
    then bool
    else if strncmp_eq sz name (codes "UINT8")
    then uint8
    else if strncmp_eq sz name (codes "UINT32")
    then uint32
    else if strncmp_eq sz name (codes "UINT64")
    then uint64
    else if strncmp_eq sz name (codes "INT32")
    then int32
    else if strncmp_eq sz name (codes "DOUBLE")
    then double
    else if strncmp_eq sz name (codes "VECTOR3D")
    then vector3d
    else if strncmp_eq sz name (codes "VECTOR6D")
    then vector6d
    else if strncmp_eq sz name (codes "VECTOR6INT32")
    then vector6int32
    else if strncmp_eq sz name (codes "VECTOR6UINT32")
    then vector6uint32
    else if strncmp_eq sz name (codes "STRING")
    then string
    else if strncmp_eq sz name (codes "IN_USE")
    then in_use
    else not_found
