-- ===== src/Visit/Decide/Races.antt =====
-- Two decisions on one visit, whose checks may both have passed before either was written.
use vms_backend_testing.Base.{◌≡◌, true, false, Option, arith, Ident}
use vms_backend_testing.Base.Text.{Text}
use vms_backend_testing.Base.Request.{Action, ok, err, conflict}
use vms_backend_testing.Base.Table.Counts.{count-update_many_cleared}
use vms_backend_testing.Visit.Model.{Visit, NotificationAction, Db, Env}
use vms_backend_testing.Visit.Decide.{is_pending_visit, commit_decision, accept, reject}

pub data Decision : Type 0 where
  accepting : Option Text → Decision
  rejecting : Text → Decision

-- The transaction of `acceptVisit` or `rejectVisit`.
abbrev pub decide : Env → Decision → Ident → Action Db Visit
decide env (accepting reason) id =
    commit_decision id (accept env reason) NotificationAction.accepted
decide env (rejecting reason) id =
    commit_decision id (reject env reason) NotificationAction.rejected

second_commit :
    (id : Ident) (f g : Visit → Visit) (a b : NotificationAction) (v : Visit) (db : Db)
    → ((w : Visit) → is_pending_visit id w ≡ true → is_pending_visit id (f w) ≡ false)
    → (commit_decision id f a db).0 ≡ ok v
    → commit_decision id g b (commit_decision id f a db).1
      ≡ (err (conflict "Visit already processed or invalid."), (commit_decision id f a db).1)
unfolding commit_decision
second_commit id f g a b v db h e =
    ground (arith, count-update_many_cleared (is_pending_visit id) f db.visits h)

-- Once one decision on a visit has been written, a second one, of either kind and by anybody,
-- conflicts and changes nothing, also if its checks were made before the first was written.
pub second_decision_conflicts :
    (env env' : Env) (d d' : Decision) (id : Ident) (v : Visit) (db : Db)
    → (decide env d id db).0 ≡ ok v
    → decide env' d' id (decide env d id db).1
      ≡ (err (conflict "Visit already processed or invalid."), (decide env d id db).1)
second_decision_conflicts env env' (accepting r) (accepting r') id v db e =
    second_commit id (accept env r) (accept env' r') _ _ v db (λ w p. ground arith) e
second_decision_conflicts env env' (accepting r) (rejecting r') id v db e =
    second_commit id (accept env r) (reject env' r') _ _ v db (λ w p. ground arith) e
second_decision_conflicts env env' (rejecting r) (accepting r') id v db e =
    second_commit id (reject env r) (accept env' r') _ _ v db (λ w p. ground arith) e
second_decision_conflicts env env' (rejecting r) (rejecting r') id v db e =
    second_commit id (reject env r) (reject env' r') _ _ v db (λ w p. ground arith) e
