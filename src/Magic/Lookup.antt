-- ===== src/Magic/Lookup.antt =====
-- The lookups by name in the two tables.
pub mod Laws
use Prim.Native.String.{String}
use lib_urx.Base.{ℕ, List, ◌++◌, Option, none, some}
use lib_urx.Magic.Types.{DataType, not_found}
use lib_urx.Magic.Names.{DataName, name_to_idx_from, type_at}
use lib_urx.Magic.InputNames.{rtde_input_names}
use lib_urx.Magic.OutputNames.{state_names, output_register_names, read_back_names}

unfoldable pub rtde_output_names : List DataName
unfolding state_names output_register_names read_back_names
rtde_output_names = state_names ++ (output_register_names ++ read_back_names)

unfoldable pub input_name_to_idx : String → Option ℕ
unfolding name_to_idx_from rtde_input_names
input_name_to_idx s = name_to_idx_from 0 s rtde_input_names

abbrev type_of_idx : List DataName → Option ℕ → DataType
type_of_idx names none = not_found
type_of_idx names (some i) = type_at names i

unfoldable pub input_name_to_type : String → DataType
unfolding input_name_to_idx type_at
input_name_to_type s = type_of_idx rtde_input_names (input_name_to_idx s)

unfoldable pub output_name_to_idx : String → Option ℕ
unfolding name_to_idx_from rtde_output_names
output_name_to_idx s = name_to_idx_from 0 s rtde_output_names

unfoldable pub output_name_to_type : String → DataType
unfolding output_name_to_idx type_at
output_name_to_type s = type_of_idx rtde_output_names (output_name_to_idx s)
