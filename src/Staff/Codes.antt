-- ===== src/Staff/Codes.antt =====
-- `generateUniqueEmployeeCode` and `generateOneTimePassword`
pub mod Termination
use vms_backend_testing.Base.{
  ℕ, ◌+◌, ◌/◌, ◌%◌, Bool, true, false, not, ◌&&◌, Option, none, some, List, [], ◌∷◌, ◌++◌, map,
  ◌==◌, leb, if◌then◌else◌, Ident, ◌-◌,
}
use vms_backend_testing.Base.Text.{Text, text_eq, is_space}
use vms_backend_testing.Base.Table.{any, find_many}
use vms_backend_testing.Staff.Model.{Staff, Organization, Db}

-- `toUpperCase` on one code unit
unfoldable pub upper : ℕ → ℕ
upper c = if leb b'a' c && leb c b'z' then c - 32 else c

-- `substring(0, 3)`
abbrev pub first_three : Text → Text
first_three (a ∷ b ∷ c ∷ s) = a ∷ b ∷ c ∷ []
first_three s = s

-- `org.name.replace(/\s+/g, '').substring(0, 3).toUpperCase()`
unfoldable pub prefix_of : Text → Text
unfolding upper is_space
prefix_of name = map upper (first_three (find_many (λ c. not (is_space c)) name))

-- The digits of a number from 1000 to 9999, and of one from 100 to 999
abbrev pub four_digits : ℕ → Text
four_digits n = (48 + n / 1000) ∷ (48 + n / 100 % 10) ∷ (48 + n / 10 % 10) ∷ (48 + n % 10) ∷ []

abbrev pub three_digits : ℕ → Text
three_digits n = (48 + n / 100) ∷ (48 + n / 10 % 10) ∷ (48 + n % 10) ∷ []

abbrev pub code_of : Text → ℕ → Text
code_of prefix draw = prefix ++ four_digits (1000 + draw)

abbrev pub has_code : Text → Option Text → Bool
has_code code none = false
has_code code (some c) = text_eq c code

abbrev pub is_taken : Ident → Text → List Staff → Bool
is_taken org_id code staff = any (λ s. s.org_id == org_id && has_code code s.employee_code) staff

-- The loop, on the numbers that it draws; none if it goes on after them.
unfoldable pub first_free : Ident → Text → List ℕ → List Staff → Option Text
first_free org_id prefix [] staff = none
first_free org_id prefix (d ∷ draws) staff =
    let rest = first_free org_id prefix draws staff in
    if is_taken org_id (code_of prefix d) staff then rest else some (code_of prefix d)

unfoldable pub generate_unique_employee_code : Organization → List ℕ → List Staff → Option Text
generate_unique_employee_code org draws staff = first_free org.id (prefix_of org.name) draws staff

unfoldable pub generate_one_time_password : Text → ℕ → Text
unfolding upper
generate_one_time_password name digits = map upper (first_three name) ++ three_digits (100 + digits)
