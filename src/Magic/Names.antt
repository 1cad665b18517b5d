-- ===== src/Magic/Names.antt =====
-- `struct rtde_data_names`, and the search that both tables share.
use Prim.Native.String.{String}
use text.Mathlib.Text.{◌==◌}
use lib_urx.Base.{ℕ, zero, suc, ◌+◌, if◌then◌else◌, List, [], ◌∷◌, Option, none, some}
use lib_urx.Magic.Types.{DataType, not_found}

pub record DataName : Type 0 where
  pub name : String
  pub type : DataType

abbrev pub named : String → DataType → DataName
named s t = record { name = s; type = t }

-- `for (i = 0; i < n; i++) if (strcmp(name, names[i].name) == 0) return i; return -1;`,
-- where -1 is `none`.
unfoldable pub name_to_idx_from : ℕ → String → List DataName → Option ℕ
name_to_idx_from i s [] = none
name_to_idx_from i s (e ∷ es) =
    let rest = name_to_idx_from (i + 1) s es in if s == e.name then some i else rest

-- `names[idx].type`; no caller goes past the end of the table.
unfoldable pub type_at : List DataName → ℕ → DataType
type_at [] i = not_found
type_at (e ∷ es) zero = e.type
type_at (e ∷ es) (suc i) = type_at es i
