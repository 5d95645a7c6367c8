-- ===== src/Team/Reporting/Bulk.antt =====
-- `setReportingBulk`: what its summary says of each person holds.
use vms_backend_testing.Base.{
  ℕ, suc, ◌≤◌, Bool, true, false, List, [], ◌∷◌, ◌==◌, Ident, ◌≡◌, Bool-cases, inl, inr, ==→eq,
  arith,
}
use vms_backend_testing.Base.Request.{Action, Exception, Result, ok, err, is_ok}
use vms_backend_testing.Base.Role.{Role}
use vms_backend_testing.Base.Table.{count, any}
use vms_backend_testing.Team.Model.{Db, Fresh}
use vms_backend_testing.Team.Access.{contains, is_member, reports}
use vms_backend_testing.Team.Reporting.Complete.{
  set_reporting-members, set_reporting-keeps, set_reporting-reports,
}
use vms_backend_testing.Base.Table.Any.{any-append}
use mathlib.Core.Path.{sym, subst}
use vms_backend_testing.Team.Reporting.{
  Assigned, Summary, tally, set_reporting, bulk, set_reporting_bulk,
}

abbrev pub failure_of : Ident → Ident × Exception → Bool
failure_of i f = f.0 == i

-- A failure stays in the summary, and what a request does to one person is in it.
failed-tally :
    (i j : Ident) (r : Result Assigned) (s : Summary)
    → any (failure_of i) (tally j r s).failed ≡ false
    → (any (failure_of i) s.failed ≡ false) × ((j == i) ≡ true → is_ok r ≡ true)
failed-tally i j (ok r) s h = ground arith
failed-tally i j (err e) s h = ground (arith, any-append (failure_of i) s.failed ((j, e) ∷ []))

failed-bulk :
    (one : ℕ → Ident → Action Db Assigned) (i : Ident) (is : List Ident) (s : Summary) (db : Db)
    → any (failure_of i) (bulk one is s db).0.failed ≡ false
    → any (failure_of i) s.failed ≡ false
unfolding bulk
failed-bulk one i [] s db h = h
failed-bulk one i (j ∷ js) s db h =
    (failed-tally i j (one 0 j db).0 s
      (failed-bulk (λ k. one (suc k)) i js (tally j (one 0 j db).0 s) (one 0 j db).1 h)).0

-- Requests for one person that add reports only, and those to all managers if they succeed.
record Assigns (t : Ident) (managers : List Ident) (one : ℕ → Ident → Action Db Assigned)
    : Type 0 where
  members : (k : ℕ) (i : Ident) (db : Db) → (one k i db).1.members ≡ db.members
  keeps :
      (k : ℕ) (i a b : Ident) (db : Db)
      → reports t a b db ≡ true
      → reports t a b (one k i db).1 ≡ true
  does :
      (k : ℕ) (i b : Ident) (db : Db)
      → ((a : Ident) → count (is_member t a) db.members ≤ 1)
      → is_ok (one k i db).0 ≡ true
      → contains managers b ≡ true
      → reports t i b (one k i db).1 ≡ true

later :
    {t : Ident} {managers : List Ident} {one : ℕ → Ident → Action Db Assigned}
    → Assigns t managers one
    → Assigns t managers (λ k. one (suc k))
later s = record {
  members = λ k. s.members (suc k);
  keeps = λ k. s.keeps (suc k);
  does = λ k. s.does (suc k);
}

bulk-keeps :
    (t : Ident) (managers : List Ident) (one : ℕ → Ident → Action Db Assigned)
    → Assigns t managers one
    → (a b : Ident) (is : List Ident) (s : Summary) (db : Db) → reports t a b db ≡ true
    → reports t a b (bulk one is s db).1 ≡ true
unfolding bulk
bulk-keeps t managers one w a b [] s db h = h
bulk-keeps t managers one w a b (j ∷ js) s db h =
    bulk-keeps t managers (λ k. one (suc k)) (later w) a b js (tally j (one 0 j db).0 s)
      (one 0 j db).1 (w.keeps 0 j a b db h)

bulk-reports :
    (t : Ident) (managers : List Ident) (one : ℕ → Ident → Action Db Assigned)
    → Assigns t managers one
    → (i b : Ident) (is : List Ident) (s : Summary) (db : Db)
    → ((a : Ident) → count (is_member t a) db.members ≤ 1)
    → contains is i ≡ true
    → any (failure_of i) (bulk one is s db).0.failed ≡ false
    → contains managers b ≡ true
    → reports t i b (bulk one is s db).1 ≡ true
unfolding bulk
bulk-reports t managers one w i b [] s db once h f c = cc
bulk-reports t managers one w i b (j ∷ js) s db once h f c =
    let s' = tally j (one 0 j db).0 s in
    let db' = (one 0 j db).1 in
    elim (Bool-cases (j == i)) [
      | inl same ↦
          let done : is_ok (one 0 j db).0 ≡ true =
            (failed-tally i j (one 0 j db).0 s (failed-bulk (λ k. one (suc k)) i js s' db' f)).1
              same in
          bulk-keeps t managers (λ k. one (suc k)) (later w) i b js s' db'
            (subst (λ x. reports t x b db' ≡ true) (==→eq j i same) (w.does 0 j b db once done c))
      | inr other ↦
          bulk-reports t managers (λ k. one (suc k)) (later w) i b js s' db'
            (subst (λ ms. (a : Ident) → count (is_member t a) ms ≤ 1) (sym (w.members 0 j db)) once)
            (ground arith) f c
    ]

-- When a request for many people has been served, then each of them reports to each of the
-- managers, except those whom the summary lists as failed; nobody is listed in a team twice.
pub set_reporting_bulk-reports :
    (fresh : ℕ → Fresh) (org user : Ident) (role : Role) (id : Ident)
    (staff_ids managers : List Ident) (i b : Ident) (db : Db)
    → ((a : Ident) → count (is_member id a) db.members ≤ 1)
    → contains staff_ids i ≡ true
    → any (failure_of i) (set_reporting_bulk fresh org user role id staff_ids managers db).0.failed
      ≡ false
    → contains managers b ≡ true
    → reports id i b (set_reporting_bulk fresh org user role id staff_ids managers db).1 ≡ true
unfolding set_reporting_bulk
set_reporting_bulk-reports fresh org user role id staff_ids managers i b db once h f c =
    bulk-reports id managers
      (λ k i'.
        set_reporting (fresh k) org user role id (record { staff_id = i'; manager_ids = managers }))
      (record {
        members = λ k i' db'.
            set_reporting-members (fresh k) org user role id
              (record { staff_id = i'; manager_ids = managers }) db';
        keeps = λ k i' a b' db'.
            set_reporting-keeps (fresh k) org user role id
              (record { staff_id = i'; manager_ids = managers }) id a b' db';
        does = λ k i' b' db' once' good c'.
            set_reporting-reports (fresh k) org user role id
              (record { staff_id = i'; manager_ids = managers }) b' db' once' good c';
      })
      i b staff_ids (record { assigned = 0; skipped = 0; failed = [] }) db once h f c
