-- ===== src/Base/Role.antt =====
-- The role that a token carries: the values of `AuthRoleEnum`, `System`, and any other string.
use mathlib.Core.Bool.{Bool, true, false, ◌||◌}
use mathlib.Core.List.{List, [], ◌∷◌}

pub data Role : Type 0 where
  root super_admin admin staff system other : Role

abbrev pub role_eq : Role → Role → Bool
role_eq root root = true
role_eq super_admin super_admin = true
role_eq admin admin = true
role_eq staff staff = true
role_eq system system = true
role_eq other other = true
role_eq _ _ = false

-- `allowedRoles.includes(role)`
abbrev pub includes : List Role → Role → Bool
includes [] r = false
includes (a ∷ allowed) r = role_eq a r || includes allowed r
