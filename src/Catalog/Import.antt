-- ===== src/Catalog/Import.antt =====
-- What an import of a list of names does.
use vms_backend_testing.Base.{ℕ, ◌+◌, true, List, [], ◌∷◌, ◌==◌, Ident, ◌≡◌, ==-refl, arith}
use vms_backend_testing.Base.Text.{Text, text_eq, text_eq_sound, text_eq_refl}
use vms_backend_testing.Base.Request.{Result, ok, err, is_ok}
use vms_backend_testing.Base.Table.{count, any}
use vms_backend_testing.Base.Table.Any.{any-create}
use vms_backend_testing.Base.Table.Counts.{count-create}
use vms_backend_testing.Catalog.{
  Db, Env, is_named, new_entry, Imported, is_added, import_one, import_all, later,
}
use vms_backend_testing.Catalog.Unique.{exists_already-any}

-- The rows of the organisation before and after
abbrev rows : Ident → Db → ℕ
rows org db = count (λ r. r.org_id == org) db.entries

abbrev pub imported : Result (List Imported) → ℕ
imported (ok rs) = count is_added rs
imported (err e) = 0

-- An import never throws, answers one result for each name, and says how many rows it has added:
-- by that number the rows of the organisation have grown.
pub import_all-counts :
    (env : Env) (org : Ident) (names : List Text) (db : Db)
    → (is_ok (import_all env org names db).0 ≡ true)
      × (rows org (import_all env org names db).1
          ≡ rows org db + imported (import_all env org names db).0)
unfolding import_all import_one
import_all-counts env org [] db = ground arith
import_all-counts env org (name ∷ names) db = ground (
  arith,
  import_all-counts (later env) org names (import_one env org name db).1,
  count-create (λ r. r.org_id == org) (new_entry (env.fresh 0) org name env.now) db.entries,
  ==-refl org,
)

has-import_one :
    (env : Env) (org : Ident) (name : Text) (db : Db)
    → any (is_named org name) (import_one env org name db).1.entries ≡ true
unfolding import_one
has-import_one env org name db = ground (
  arith,
  exists_already-any org name db,
  any-create (is_named org name) (new_entry (env.fresh 0) org name env.now) db.entries,
  ==-refl org,
  text_eq_refl name,
)

keeps-import_one :
    (env : Env) (org : Ident) (new name : Text) (db : Db)
    → any (is_named org name) db.entries ≡ true
    → any (is_named org name) (import_one env org new db).1.entries ≡ true
unfolding import_one
keeps-import_one env org new name db h =
    ground
      (arith, any-create (is_named org name) (new_entry (env.fresh 0) org new env.now) db.entries)

keeps-import_all :
    (env : Env) (org : Ident) (names : List Text) (name : Text) (db : Db)
    → any (is_named org name) db.entries ≡ true
    → any (is_named org name) (import_all env org names db).1.entries ≡ true
unfolding import_all import_one
keeps-import_all env org [] name db h = h
keeps-import_all env org (new ∷ names) name db h = ground (
  arith,
  keeps-import_all (later env) org names name (import_one env org new db).1
      (keeps-import_one env org new name db h),
)

-- Afterwards the organisation has a row of each name of the list.
pub import_all-there :
    (env : Env) (org : Ident) (names : List Text) (name : Text) (db : Db)
    → any (text_eq name) names ≡ true
    → any (is_named org name) (import_all env org names db).1.entries ≡ true
unfolding import_all import_one
import_all-there env org [] name db h = cc
import_all-there env org (new ∷ names) name db h = ground (
  arith,
  import_all-there (later env) org names name (import_one env org new db).1,
  keeps-import_all (later env) org names new (import_one env org new db).1
      (has-import_one env org new db),
  text_eq_sound name new,
)
