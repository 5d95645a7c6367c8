-- ===== src/Catalog.antt =====
-- The lists of names that an organisation keeps: its departments (src/department/department.service.ts)
-- and the reasons for which it is visited (src/reason/reason.service.ts). The two services have the same
-- code but for their messages, and who may do what; here is what they share.
pub mod Department
pub mod Reason
pub mod Unique
pub mod Counting
pub mod Import
pub mod Access
pub mod Tests
use vms_backend_testing.Base.{
  ℕ, suc, Bool, true, false, not, ◌&&◌, Option, none, some, List, [], ◌∷◌, ◌==◌, ltb, leb,
  if◌then◌else◌, Ident, present, is_ident,
}
use vms_backend_testing.Base.Text.{Text, text_eq, normalize}
use vms_backend_testing.Base.Request.{
  Action, bad_request, unauthorized, not_found, ◌>>=◌, ◌>>◌, pure, gets, or_throw, throw_if, modify,
}
use vms_backend_testing.Base.Role.{Role, root, super_admin, admin, role_eq, includes}
use vms_backend_testing.Base.Table.{any, find_first, create, update_many, delete}
use vms_backend_testing.Auth.Model.{UserCredential}

-- A row of Department or of ReasonOfVisit.
pub record Entry : Type 0 where
  pub id : Ident
  pub org_id : Ident
  pub name : Text
  pub created_at : ℕ

-- The rows that refer to an entry, by what they refer to: Staff.departmentId or Visit.reasonId.
pub record Db : Type 0 where
  pub organizations : List Ident
  pub users : List UserCredential
  pub entries : List Entry
  pub references : List (Option Ident)

-- The clock, and the identifiers that the database makes.
pub record Env : Type 0 where
  pub now : ℕ
  pub fresh : ℕ → Ident

-- Who asks, for which organisation: that of the token, and that of the query.
pub record Caller : Type 0 where
  pub org_id : Option Ident
  pub user_id : Ident
  pub role : Role
  pub q_org_id : Option Ident

-- `q && qOrgId ? qOrgId : orgId`, where it is not empty
abbrev pub chosen : Bool → Option Ident → Option Ident → Option Ident
chosen true (some q) org = if q == 0 then present org else some q
chosen true none org = present org
chosen false q org = present org

abbrev pub target_org : Caller → Option Ident
target_org c = chosen (role_eq root c.role) c.q_org_id c.org_id

abbrev pub editors : List Role
editors = root ∷ super_admin ∷ admin ∷ []

unfoldable pub check_target : Caller → Action Db Ident
check_target c = or_throw (target_org c) (bad_request "Organization ID is required.")

unfoldable pub check_user : Ident → Ident → Action Db Unit
check_user user_id target = do
  found ← gets (λ db. find_first (λ u. u.id == user_id) db.users)
  user ← or_throw found (bad_request "Invalid credentials.")
  throw_if (not (is_ident user.org_id target))
      (unauthorized "User belongs to different organization.")

-- `if (role !== 'Root')`
unfoldable pub check_member : Caller → Ident → Action Db Unit
unfolding check_user
check_member c target = if role_eq root c.role then pure tt else check_user c.user_id target

-- The row of the same name, whose name is compared again without its case
abbrev pub is_named : Ident → Text → Entry → Bool
is_named org name r = r.org_id == org && text_eq r.name name

abbrev pub same_name : Option Entry → Text → Bool
same_name none name = false
same_name (some r) name = text_eq (normalize r.name) (normalize name)

abbrev pub new_entry : Ident → Ident → Text → ℕ → Entry
new_entry id org name now = record { id = id; org_id = org; name = name; created_at = now }

abbrev pub exists_already : Ident → Text → Db → Bool
exists_already org name db = same_name (find_first (is_named org name) db.entries) name

abbrev pub add_entry : Entry → Db → Db
add_entry e db = record db { entries = create e db.entries }

-- One turn of the loop of an import: the row, or the name that is there.
pub data Imported : Type 0 where
  added : Entry → Imported
  already : Text → Imported

abbrev pub is_added : Imported → Bool
is_added (added e) = true
is_added (already name) = false

unfoldable pub import_one : Env → Ident → Text → Action Db Imported
import_one env org name = do
  exists ← gets (exists_already org name)
  modify (λ db. if exists then db else add_entry (new_entry (env.fresh 0) org name env.now) db)
  pure (if exists then already name else added (new_entry (env.fresh 0) org name env.now))

abbrev pub later : Env → Env
later env = record env { fresh = λ k. env.fresh (suc k) }

unfoldable pub import_all : Env → Ident → List Text → Action Db (List Imported)
import_all env org [] = pure []
import_all env org (name ∷ names) = do
  first ← import_one env org name
  rest ← import_all (later env) org names
  pure (first ∷ rest)

abbrev pub has_organization : Ident → Db → Bool
has_organization org db = any (λ o. o == org) db.organizations

-- The row goes; what refers to it does no longer (`onDelete: SetNull`).
abbrev pub forget : Ident → Option Ident → Option Ident
forget id none = none
forget id (some i) = if i == id then none else some i

abbrev pub drop_entry : Ident → Db → Db
drop_entry id db = record db {
  entries = delete (λ r. r.id == id) db.entries;
  references = update_many (λ r. is_ident r id) (λ r. none) db.references;
}

-- The field to sort by, as the query names it.
pub data SortBy : Type 0 where
  by_name by_created_at by_other : SortBy

pub data Order : Type 0 where
  asc desc : Order

abbrev pub text_le : Text → Text → Bool
text_le [] t = true
text_le (a ∷ s) [] = false
text_le (a ∷ s) (b ∷ t) = let rest = text_le s t in if a == b then rest else ltb a b

abbrev pub precedes : SortBy → Entry → Entry → Bool
precedes by_name a b = text_le a.name b.name
precedes _ a b = leb a.created_at b.created_at

abbrev pub in_order : Order → (Entry → Entry → Bool) → Entry → Entry → Bool
in_order asc before a b = before a b
in_order desc before a b = before b a

abbrev pub insert : (Entry → Entry → Bool) → Entry → List Entry → List Entry
insert before e [] = e ∷ []
insert before e (x ∷ xs) =
    let rest = insert before e xs in if before e x then e ∷ x ∷ xs else x ∷ rest

-- `orderBy`
abbrev pub sorted : (Entry → Entry → Bool) → List Entry → List Entry
sorted before [] = []
sorted before (x ∷ xs) = insert before x (sorted before xs)
