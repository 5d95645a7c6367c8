-- ===== src/Visit/Finish/CheckOut.antt =====
-- What the check-out by QR code does.
use vms_backend_testing.Base.{◌≡◌, ◌≢◌, refl, true, false, some, List, [], ◌∷◌, arith, ◌==◌, Ident}
use vms_backend_testing.Base.Role.{system}
use vms_backend_testing.Base.Table.{any, find_first, update}
use vms_backend_testing.Base.Table.Counts.{find_first-holds}
use vms_backend_testing.Visit.Model.{Visit, Mail, Db, Env}
use vms_backend_testing.Visit.Access.{find_visit, is_completed, send, update_visit, visits-send}
use vms_backend_testing.Visit.Finish.{complete, complete_visit, find_unfinished, end_visit_qr}

find_first-update :
    (id : Ident) (f : Visit → Visit) (v : Visit) (vs : List Visit)
    → ((w : Visit) → (f w).id ≡ w.id)
    → find_first (λ w. w.id == id) vs ≡ some v
    → find_first (λ w. w.id == id) (update (λ w. w.id == id) f vs) ≡ some (f v)
find_first-update id f v [] h e = cc
find_first-update id f v (w ∷ vs) h e = ground (arith, h w, h v, find_first-update id f v vs h)

-- A System account checks a visit of its organisation out whatever its status but COMPLETED: also
-- one that is still PENDING or was REJECTED. The visit is then COMPLETED as of now, whether or not
-- the mails about it go out.
pub end_visit_qr_completes :
    (env : Env) (org_id id : Ident) (v : Visit) (db : Db)
    → org_id ≢ 0
    → id ≢ 0
    → any (λ o. o == org_id) db.organizations ≡ true
    → find_visit id db ≡ some v
    → v.org_id ≡ org_id
    → is_completed v.status ≡ false
    → find_visit id (end_visit_qr env org_id system id db).1 ≡ some (complete env v)
unfolding end_visit_qr complete_visit find_unfinished
end_visit_qr_completes env org_id id v db ho hi known found own open_one =
    let same = find_first-holds (λ w. w.id == id) db.visits found in
    ground (
      arith,
      same,
      find_first-update id (complete env) v db.visits (λ w. refl) found,
      visits-send env (Mail.visit_end_to_visitor v.id) (update_visit v.id (complete env) db),
      visits-send env (Mail.visit_end_to_host v.id)
          (send env (Mail.visit_end_to_visitor v.id) (update_visit v.id (complete env) db)).1,
    )
