-- ===== src/Organization/Subscriptions/Renewal.antt =====
-- What an organisation may use after its subscription has been changed.
use vms_backend_testing.Base.{
  ℕ, ◌<◌, true, ◌&&◌, Option, none, some, List, ◌==◌, Ident, is_ident, ◌≡◌, refl, ap, ◌∙◌, ◌≢◌,
  ==→eq, ==-refl, Option-cases, Bool-cases, inl, inr, arith,
}
use vms_backend_testing.Base.Request.{ok, is_ok}
use vms_backend_testing.Base.Role.{Role, super_admin}
use vms_backend_testing.Base.Table.{any, find_first}
use vms_backend_testing.Base.Table.Any.{any_of_find_first, any_of_find_first-none}
use vms_backend_testing.Base.Table.Counts.{find_first-holds}
use vms_backend_testing.Base.Table.Rows.{
  find_first-update_self, find_first-update_ne, find_first-create_new, find_first-create_ne,
}
use vms_backend_testing.Plan.{is_feature, SubscriptionStatus, active}
use vms_backend_testing.Auth.Model.{UserCredential}
use vms_backend_testing.Organization.Model.{Subscription, Organization, Db, find_organization}
use vms_backend_testing.Organization.Manage.{new_subscription}
use vms_backend_testing.Organization.Subscriptions.{
  UpdateSubscriptionDto, find_subscription, renewed, upsert_subscription, update_subscription,
  get_my_features,
}

abbrev pub status_of : Option Subscription → SubscriptionStatus
status_of none = active
status_of (some s) = s.status

abbrev pub stored : Ident → Ident → ℕ → ℕ → Option Subscription → Subscription
stored org_id plan_id from to none = new_subscription org_id plan_id from to
stored org_id plan_id from to (some s) = renewed plan_id from to s

find-upsert :
    (org_id plan_id : Ident) (from to : ℕ) (rows : List Subscription)
    → find_first (λ s. s.org_id == org_id) (upsert_subscription org_id plan_id from to rows)
      ≡ some (stored org_id plan_id from to (find_first (λ s. s.org_id == org_id) rows))
find-upsert org_id plan_id from to rows =
    elim (Option-cases (find_first (λ s. s.org_id == org_id) rows)) [
      | inl n ↦
          rw
            (
              any_of_find_first-none (λ s. s.org_id == org_id) rows n,
              find_first-create_new (λ s. s.org_id == org_id)
                  (new_subscription org_id plan_id from to) rows
                  (any_of_find_first-none (λ s. s.org_id == org_id) rows n) (==-refl org_id),
              n,
            )
            refl
      | inr (r, e) ↦
          rw
            (
              any_of_find_first (λ s. s.org_id == org_id) r rows e,
              find_first-update_self (λ s. s.org_id == org_id) (renewed plan_id from to) r rows e
                  (find_first-holds (λ s. s.org_id == org_id) rows e),
              e,
            )
            refl
    ]

find-upsert_ne :
    (i org_id plan_id : Ident) (from to : ℕ) (rows : List Subscription)
    → i ≢ org_id
    → find_first (λ s. s.org_id == i) (upsert_subscription org_id plan_id from to rows)
      ≡ find_first (λ s. s.org_id == i) rows
find-upsert_ne i org_id plan_id from to rows ne =
    elim (Bool-cases (any (λ s. s.org_id == org_id) rows)) [
      | inl t ↦ rw t (
          find_first-update_ne (λ s. s.org_id == i) (λ s. s.org_id == org_id)
            (renewed plan_id from to) rows (λ s t. ground arith) (λ s t. ground arith))
      | inr f ↦ rw f (
          find_first-create_ne (λ s. s.org_id == i) (new_subscription org_id plan_id from to) rows
            (ground arith))
    ]

abbrev renew : Ident → Ident → ℕ → ℕ → Db → Db
renew org_id plan_id from to db = record db {
  subscriptions = upsert_subscription org_id plan_id from to db.subscriptions;
}

update-state :
    (user_id : Ident) (role : Role) (org_id : Ident) (dto : UpdateSubscriptionDto) (from to : ℕ)
    (db : Db)
    → is_ok (update_subscription user_id role org_id dto db).0 ≡ true
    → dto.starts_at ≡ some from
    → dto.ends_at ≡ some to
    → (from < to)
      × (any (λ p. p.id == dto.plan_id && p.is_active) db.plans ≡ true)
      × ((update_subscription user_id role org_id dto db).1 ≡ renew org_id dto.plan_id from to db)
unfolding update_subscription
update-state user_id role org_id dto from to db h f t =
    elim (Option-cases (find_first (λ p. p.id == dto.plan_id && p.is_active) db.plans)) [
      | inl n ↦ absurd (ground arith)
      | inr (p, e) ↦
          ground (arith, any_of_find_first (λ p. p.id == dto.plan_id && p.is_active) p db.plans e)
    ]

stored-fields :
    (org_id plan_id : Ident) (from to : ℕ) (rows : List Subscription)
    → stored org_id plan_id from to (find_first (λ s. s.org_id == org_id) rows) ≡ record {
      org_id = org_id;
      plan_id = plan_id;
      status = status_of (find_first (λ s. s.org_id == org_id) rows);
      starts_at = from;
      ends_at = to;
    }
stored-fields org_id plan_id from to rows =
    elim (Option-cases (find_first (λ s. s.org_id == org_id) rows)) [
      | inl n ↦ rw n refl
      | inr (s, e) ↦
          rw (e, ==→eq s.org_id org_id (find_first-holds (λ s. s.org_id == org_id) rows e)) refl
    ]

-- An accepted change of the subscription is one to a plan that is active and to dates in their
-- order: then the organisation has that plan from the one to the other, with the status that its
-- subscription had, or ACTIVE if it had none; the subscriptions of others stay as they are.
pub update_subscription-stored :
    (user_id : Ident) (role : Role) (org_id : Ident) (dto : UpdateSubscriptionDto) (from to : ℕ)
    (i : Ident) (db : Db)
    → is_ok (update_subscription user_id role org_id dto db).0 ≡ true
    → dto.starts_at ≡ some from
    → dto.ends_at ≡ some to
    → i ≢ org_id
    → let db' = (update_subscription user_id role org_id dto db).1 in
      (from < to)
      × (any (λ p. p.id == dto.plan_id && p.is_active) db.plans ≡ true)
      × (find_subscription org_id db'
          ≡ some (record {
            org_id = org_id;
            plan_id = dto.plan_id;
            status = status_of (find_subscription org_id db);
            starts_at = from;
            ends_at = to;
          }))
      × (find_subscription i db' ≡ find_subscription i db)
update_subscription-stored user_id role org_id dto from to i db h f t ne =
    let done = update-state user_id role org_id dto from to db h f t in
    (
      done.0,
      done.1,
      ap (find_subscription org_id) done.2
          ∙ find-upsert org_id dto.plan_id from to db.subscriptions
          ∙ ap some (stored-fields org_id dto.plan_id from to db.subscriptions),
      ap (find_subscription i) done.2
          ∙ find-upsert_ne i org_id dto.plan_id from to db.subscriptions ne,
    )

features-renew :
    (org_id plan_id : Ident) (from to : ℕ) (o : Organization) (user : UserCredential) (db : Db)
    → find_organization org_id db ≡ some o
    → find_first (λ u. u.id == user.id && is_ident u.org_id org_id) db.users ≡ some user
    → (get_my_features org_id super_admin user.id (renew org_id plan_id from to db)).0
      ≡ ok (λ c. any (is_feature plan_id c) db.features)
unfolding get_my_features
features-renew org_id plan_id from to o user db e u =
    rw
      (
        e,
        u,
        find-upsert org_id plan_id from to db.subscriptions,
        stored-fields org_id plan_id from to db.subscriptions,
      )
      refl

-- Then a user of the organisation is told that it has the features of that plan, and no others,
-- from whichever day to whichever day the subscription runs.
pub update_then_features :
    (user_id : Ident) (role : Role) (org_id : Ident) (dto : UpdateSubscriptionDto) (from to : ℕ)
    (o : Organization) (user : UserCredential) (db : Db)
    → is_ok (update_subscription user_id role org_id dto db).0 ≡ true
    → dto.starts_at ≡ some from
    → dto.ends_at ≡ some to
    → find_organization org_id db ≡ some o
    → find_first (λ u. u.id == user.id && is_ident u.org_id org_id) db.users ≡ some user
    → (get_my_features org_id super_admin user.id
        (update_subscription user_id role org_id dto db).1).0
      ≡ ok (λ c. any (is_feature dto.plan_id c) db.features)
update_then_features user_id role org_id dto from to o user db h f t e u =
    let done = update-state user_id role org_id dto from to db h f t in
    ap (λ x. (get_my_features org_id super_admin user.id x).0) done.2
    ∙ features-renew org_id dto.plan_id from to o user db e u
