-- ===== src/Visit/Start/Stored.antt =====
-- What a request for a visit leaves in the tables.
use vms_backend_testing.Base.{◌≡◌, Bool, true, false, Option, List, [], ◌∷◌, arith, ◌==◌, Ident}
use vms_backend_testing.Base.Text.{Text, text_eq_refl, normalize}
use vms_backend_testing.Base.Request.{err, internal, is_ok}
use vms_backend_testing.Base.Table.{any, create}
use vms_backend_testing.Visit.Model.{Visit, Staff, Mail, Db, Env, StartVisitDto}
use vms_backend_testing.Visit.Access.{is_active_for, send, visits-send}
use vms_backend_testing.Visit.Start.{new_visit, request_visit, start_visit}

any-create :
    (p : Visit → Bool) (v : Visit) (vs : List Visit) → p v ≡ true → any p (create v vs) ≡ true
any-create p v [] h = ground arith
any-create p v (w ∷ vs) h = ground (arith, any-create p v vs h)

new_visit-active :
    (env : Env) (org_id : Ident) (dto : StartVisitDto) (image : Option Text)
    → is_active_for org_id (normalize dto.email) (new_visit env org_id dto image) ≡ true
unfolding new_visit
new_visit-active env org_id dto image = ground (arith, text_eq_refl (normalize dto.email))

request_visit-active :
    (env : Env) (org_id : Ident) (dto : StartVisitDto) (host : Staff) (image : Option Text)
    (db : Db)
    → is_ok (request_visit env org_id dto host image db).0 ≡ true
    → any
        (is_active_for org_id (normalize dto.email))
        (request_visit env org_id dto host image db).1.visits
      ≡ true
unfolding request_visit
request_visit-active env org_id dto host image db h = grind (
  arith,
  visits-send,
  any-create (is_active_for org_id (normalize dto.email)) (new_visit env org_id dto image) db.visits
      (new_visit-active env org_id dto image),
)

start_visit-active :
    (env : Env) (org_id system_id : Ident) (dto : StartVisitDto) (picture : Option Ident) (db : Db)
    → is_ok (start_visit env org_id system_id dto picture db).0 ≡ true
    → any
        (is_active_for org_id (normalize dto.email))
        (start_visit env org_id system_id dto picture db).1.visits
      ≡ true
unfolding start_visit
start_visit-active env org_id system_id dto picture db h = grind (arith, request_visit-active)

refused :
    (env : Env) (org_id system_id : Ident) (dto : StartVisitDto) (picture : Option Ident) (db : Db)
    → any (is_active_for org_id (normalize dto.email)) db.visits ≡ true
    → (is_ok (start_visit env org_id system_id dto picture db).0 ≡ false)
      × ((start_visit env org_id system_id dto picture db).1 ≡ db)
unfolding start_visit
refused env org_id system_id dto picture db h = ground arith

-- If a visit was requested, then a second request in the organisation with the same e-mail, up to
-- case and outer spaces, is refused and changes nothing, whoever makes it.
pub second_request_refused :
    (env env' : Env) (org_id system_id system_id' : Ident) (dto dto' : StartVisitDto)
    (picture picture' : Option Ident) (db : Db)
    → normalize dto'.email ≡ normalize dto.email
    → is_ok (start_visit env org_id system_id dto picture db).0 ≡ true
    → let db' = (start_visit env org_id system_id dto picture db).1 in
      (is_ok (start_visit env' org_id system_id' dto' picture' db').0 ≡ false)
      × ((start_visit env' org_id system_id' dto' picture' db').1 ≡ db')
second_request_refused env env' org_id system_id system_id' dto dto' picture picture' db same sent =
    let db' : Db = (start_visit env org_id system_id dto picture db).1 in
    let active = start_visit-active env org_id system_id dto picture db sent in
    refused env' org_id system_id' dto' picture' db' (rw same active)

-- A mail that the server refuses fails the request, and the visit stays in the table.
pub failed_mail_keeps_visit :
    (env : Env) (org_id : Ident) (dto : StartVisitDto) (host : Staff) (image : Option Text)
    (db : Db)
    → any (λ r. r == dto.reason_id) db.reasons ≡ true
    → env.mail_works (Mail.visit_request_to_host (env.uuid 0)) ≡ false
    → let (r, db') = request_visit env org_id dto host image db in
      (r ≡ err (internal "mail")) × (db'.visits ≡ create (new_visit env org_id dto image) db.visits)
unfolding request_visit send
failed_mail_keeps_visit env org_id dto host image db known fails = ground arith
