-- ===== src/Catalog/Unique.antt =====
-- No organisation has two departments, or two reasons, of the same name.
use vms_backend_testing.Base.{
  ◌≤◌, false, List, [], ◌∷◌, ◌==◌, Ident, ◌≡◌, refl, sym, ◌∙◌, Option-cases, Bool-cases, inl, inr,
  arith,
}
use mathlib.Core.Path.{subst}
use vms_backend_testing.Base.Text.{Text, text_eq_sound, text_eq_refl, normalize}
use vms_backend_testing.Base.Table.{count, any, find_first}
use vms_backend_testing.Base.Table.Counts.{
  count-create, count-eq-zero_of_any, count-delete-le, find_first-holds,
}
use vms_backend_testing.Base.Table.Any.{any_of_find_first, any_of_find_first-none}
use vms_backend_testing.Catalog.{
  later, target_org, Entry, Db, Env, Caller, check_target, check_member, check_user, is_named,
  exists_already, new_entry, add_entry, import_one, import_all, drop_entry,
}
use vms_backend_testing.Catalog.Department.{
  create_department, add_department_bulk, delete_department,
}
use vms_backend_testing.Catalog.Reason.{add_reason, add_reason_bulk, delete_reason}

-- The second comparison of the names adds nothing: the row that is found has the very name.
pub exists_already-any :
    (org : Ident) (name : Text) (db : Db)
    → exists_already org name db ≡ any (is_named org name) db.entries
exists_already-any org name db = elim (Option-cases (find_first (is_named org name) db.entries)) [
  | inl n ↦ rw (n, any_of_find_first-none (is_named org name) db.entries n) refl
  | inr (r, e) ↦
      let same : r.name ≡ name =
        text_eq_sound r.name name
          (ground (arith, find_first-holds (is_named org name) db.entries e)) in
      rw (e, same, any_of_find_first (is_named org name) r db.entries e)
        (text_eq_refl (normalize name))
]

abbrev pub Once : Ident → Text → Db → Type 0
Once org name db = count (is_named org name) db.entries ≤ 1

Once-add :
    (e : Entry) (org : Ident) (name : Text) (db : Db)
    → exists_already e.org_id e.name db ≡ false
    → Once org name db
    → Once org name (add_entry e db)
Once-add e org name db h o = elim (Bool-cases (is_named org name e)) [
  | inl t ↦
      let org_is : e.org_id ≡ org = ground arith in
      let name_is : e.name ≡ name = text_eq_sound e.name name (ground arith) in
      let zero : count (is_named org name) db.entries ≡ 0 =
        count-eq-zero_of_any (is_named org name) db.entries (fresh org_is name_is) in
      ground (arith, count-create (is_named org name) e db.entries, zero)
  | inr f ↦ ground (arith, count-create (is_named org name) e db.entries)
]
  where
    fresh : e.org_id ≡ org → e.name ≡ name → any (is_named org name) db.entries ≡ false
    fresh p q =
        subst (λ o. any (is_named o name) db.entries ≡ false) p
          (subst (λ n. any (is_named e.org_id n) db.entries ≡ false) q
            (sym (exists_already-any e.org_id e.name db) ∙ h))

Once-drop :
    (id org : Ident) (name : Text) (db : Db) → Once org name db → Once org name (drop_entry id db)
Once-drop id org name db o =
    ground (arith, count-delete-le (is_named org name) (λ r. r.id == id) db.entries)

Once-import_one :
    (env : Env) (target org : Ident) (new name : Text) (db : Db)
    → Once org name db
    → Once org name (import_one env target new db).1
unfolding import_one
Once-import_one env target org new name db o =
    ground (arith, Once-add (new_entry (env.fresh 0) target new env.now) org name db)

Once-import_all :
    (env : Env) (target org : Ident) (names : List Text) (name : Text) (db : Db)
    → Once org name db
    → Once org name (import_all env target names db).1
unfolding import_all import_one
Once-import_all env target org [] name db o = o
Once-import_all env target org (n ∷ names) name db o = ground (
  arith,
  Once-import_all (later env) target org names name (import_one env target n db).1
      (Once-import_one env target org n name db o),
)

-- The requests of both services that write.
pub data Request : Type 0 where
  new_department new_reason : Text → Request
  new_departments new_reasons : List Text → Request
  drop_department drop_reason : Ident → Request

unfoldable pub handle : Env → Caller → Request → Db → Db
handle env c (new_department name) db = (create_department env c name db).1
handle env c (new_reason name) db = (add_reason env c name db).1
handle env c (new_departments names) db = (add_department_bulk env c names db).1
handle env c (new_reasons names) db = (add_reason_bulk env c names db).1
handle env c (drop_department id) db = (delete_department c id db).1
handle env c (drop_reason id) db = (delete_reason c id db).1

check_member-state : (c : Caller) (target : Ident) (db : Db) → (check_member c target db).1 ≡ db
unfolding check_member check_user
check_member-state c target db = ground arith

Once-handle :
    (env : Env) (c : Caller) (r : Request) (org : Ident) (name : Text) (db : Db)
    → Once org name db
    → Once org name (handle env c r db)
unfolding handle create_department add_department_bulk delete_department add_reason add_reason_bulk
    delete_reason check_target
Once-handle env c (new_department n) org name db o = elim (Option-cases (target_org c)) [
  | inl e ↦ ground arith
  | inr (t, e) ↦
      ground (
        arith,
        check_member-state c t db,
        Once-add (new_entry (env.fresh 0) t n env.now) org name db,
      )
]
Once-handle env c (new_reason n) org name db o = elim (Option-cases (target_org c)) [
  | inl e ↦ ground arith
  | inr (t, e) ↦
      ground (
        arith,
        check_member-state c t db,
        Once-add (new_entry (env.fresh 0) t n env.now) org name db,
      )
]
Once-handle env c (new_departments ns) org name db o = elim (Option-cases (target_org c)) [
  | inl e ↦ ground arith
  | inr (t, e) ↦ ground (arith, Once-import_all env t org ns name db)
]
Once-handle env c (new_reasons ns) org name db o = elim (Option-cases (target_org c)) [
  | inl e ↦ ground arith
  | inr (t, e) ↦ ground (arith, Once-import_all env t org ns name db)
]
Once-handle env c (drop_department id) org name db o = elim (Option-cases (target_org c)) [
  | inl e ↦ ground arith
  | inr (t, e) ↦ ground (arith, check_member-state c t db, Once-drop id org name db)
]
Once-handle env c (drop_reason id) org name db o = elim (Option-cases (target_org c)) [
  | inl e ↦ ground arith
  | inr (t, e) ↦ ground (arith, check_member-state c t db, Once-drop id org name db)
]

unfoldable pub run : List (Env × Caller × Request) → Db → Db
run [] db = db
run ((env, c, r) ∷ rest) db = run rest (handle env c r db)

-- Over any run of requests to the one table or to the other, by whomever, no organisation comes to
-- have two rows of exactly the same name, if it has not two at the beginning.
pub run-Once :
    (requests : List (Env × Caller × Request)) (org : Ident) (name : Text) (db : Db)
    → Once org name db
    → Once org name (run requests db)
unfolding run
run-Once [] org name db o = o
run-Once ((env, c, r) ∷ rest) org name db o =
    run-Once rest org name (handle env c r db) (Once-handle env c r org name db o)
