-- ===== src/Visit/Remind/Throttle.antt =====
-- Reminders are at least five minutes apart.
use vms_backend_testing.Base.{
  ℕ, ◌+◌, ◌≤◌, ◌<◌, ◌≡◌, Bool, true, Option, none, some, List, [], ◌∷◌, inl, inr, arith, Ident,
  Option-cases,
}
use vms_backend_testing.Base.Request.{err, bad_request, is_ok}
use vms_backend_testing.Base.Role.{Role}
use vms_backend_testing.Base.Table.{create, find_latest}
use vms_backend_testing.Visit.Model.{Notification, Db, Env}
use vms_backend_testing.Visit.Access.{find_visit, visit_in, push_to}
use vms_backend_testing.Visit.Remind.{
  resend_interval, asks_for, last_request, too_soon, reminder_of, resend_visit_notification,
}

-- The notification, if there is one, is from the time `t` or later.
abbrev Since : ℕ → Option Notification → Type 0
Since t none = ⊥
Since t (some n) = t ≤ n.created_at

latest-Since :
    (p : Notification → Bool) (n : Notification) (xs : List Notification)
    → p n ≡ true
    → Since n.created_at (find_latest (λ m. m.created_at) p (create n xs))
latest-Since p n [] h = ground arith
latest-Since p n (m ∷ xs) h = ground (arith, latest-Since p n xs h)

too_soon-Since :
    (now t : ℕ) (o : Option Notification)
    → Since t o
    → now < t + resend_interval
    → too_soon now o ≡ true
too_soon-Since now t none s h = absurd s
too_soon-Since now t (some n) s h = ground arith

notifications-push_to :
    (user : Option Ident) (id : Ident) (db : Db)
    → (push_to user id db).notifications ≡ db.notifications
unfolding push_to
notifications-push_to none id db = ground arith
notifications-push_to (some u) id db = ground arith

-- Once a reminder of a visit has gone out, the same system account cannot send another one before
-- five minutes have passed.
pub resend_throttled :
    (env env' : Env) (system_id : Ident) (role : Role) (org_id id : Ident) (db : Db)
    → is_ok (resend_visit_notification env system_id role org_id id db).0 ≡ true
    → env'.now < env.now + resend_interval
    → (resend_visit_notification env' system_id role org_id id
        (resend_visit_notification env system_id role org_id id db).1).0
      ≡ err (bad_request "Please wait before resending notification.")
unfolding resend_visit_notification last_request
resend_throttled env env' system_id role org_id id db sent soon =
    elim (Option-cases (visit_in org_id (find_visit id db))) [
      | inl missing ↦ ground arith
      | inr (v, e) ↦
          let n : Notification = reminder_of env org_id v in
          ground (
            arith,
            latest-Since (asks_for v.id) n db.notifications,
            too_soon-Since env'.now env.now
                (find_latest (λ m. m.created_at) (asks_for v.id) (create n db.notifications)),
          )
    ]
