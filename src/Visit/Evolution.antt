-- ===== src/Visit/Evolution.antt =====
-- How the status of a visit may change, and what of a visit never does.
use vms_backend_testing.Base.{
  ◌≡◌, refl, ◌∙◌, Bool, true, false, List, [], ◌∷◌, arith, if◌then◌else◌,
}
use vms_backend_testing.Base.Table.{create, update, update_many}
use vms_backend_testing.Visit.Model.{
  MeetingStatus, ongoing, completed, pending, rejected, accepted, Visit,
}

-- PENDING becomes ONGOING or REJECTED, anything becomes COMPLETED, and nothing else happens.
abbrev pub may_become : MeetingStatus → MeetingStatus → Bool
may_become pending pending = true
may_become pending ongoing = true
may_become pending rejected = true
may_become accepted accepted = true
may_become ongoing ongoing = true
may_become rejected rejected = true
may_become s completed = true
may_become _ _ = false

may_become_refl : (s : MeetingStatus) → may_become s s ≡ true
may_become_refl pending = refl
may_become_refl accepted = refl
may_become_refl ongoing = refl
may_become_refl rejected = refl
may_become_refl completed = refl

may_become_trans :
    (s t u : MeetingStatus) → may_become s t ≡ true → may_become t u ≡ true → may_become s u ≡ true
may_become_trans s t u h k = ground arith

-- `w` is the visit `v` at a later time.
pub record Evolved (v w : Visit) : Type 0 where
  pub id : w.id ≡ v.id
  pub org_id : w.org_id ≡ v.org_id
  pub full_name : w.full_name ≡ v.full_name
  pub email : w.email ≡ v.email
  pub staff_id : w.staff_id ≡ v.staff_id
  pub status : may_become v.status w.status ≡ true

-- Every visit of the first table is in the second, at its place; new ones come behind.
abbrev pub Evolves : List Visit → List Visit → Type 0
Evolves [] ws = Unit
Evolves (v ∷ vs) [] = ⊥
Evolves (v ∷ vs) (w ∷ ws) = Evolved v w × Evolves vs ws

Evolved-refl : (v : Visit) → Evolved v v
Evolved-refl v = record {
  id = refl;
  org_id = refl;
  full_name = refl;
  email = refl;
  staff_id = refl;
  status = may_become_refl v.status;
}

Evolved-trans : (u v w : Visit) → Evolved u v → Evolved v w → Evolved u w
Evolved-trans u v w h k = record {
  id = k.id ∙ h.id;
  org_id = k.org_id ∙ h.org_id;
  full_name = k.full_name ∙ h.full_name;
  email = k.email ∙ h.email;
  staff_id = k.staff_id ∙ h.staff_id;
  status = may_become_trans u.status v.status w.status h.status k.status;
}

pub Evolves-refl : (vs : List Visit) → Evolves vs vs
Evolves-refl [] = tt
Evolves-refl (v ∷ vs) = (Evolved-refl v, Evolves-refl vs)

pub Evolves-trans : (us vs ws : List Visit) → Evolves us vs → Evolves vs ws → Evolves us ws
Evolves-trans [] vs ws h k = tt
Evolves-trans (u ∷ us) (v ∷ vs) (w ∷ ws) h k =
    (Evolved-trans u v w h.0 k.0, Evolves-trans us vs ws h.1 k.1)
Evolves-trans (u ∷ us) (v ∷ vs) [] h k = absurd k
Evolves-trans (u ∷ us) [] ws h k = absurd h

pub Evolves-create : (v : Visit) (vs : List Visit) → Evolves vs (create v vs)
Evolves-create v [] = tt
Evolves-create v (w ∷ vs) = (Evolved-refl w, Evolves-create v vs)

Evolved-if : (b : Bool) (v w : Visit) → (b ≡ true → Evolved v w) → Evolved v (if b then w else v)
Evolved-if true v w h = h refl
Evolved-if false v w h = Evolved-refl v

pub Evolves-update_many :
    (q : Visit → Bool) (f : Visit → Visit) (vs : List Visit)
    → ((v : Visit) → q v ≡ true → Evolved v (f v))
    → Evolves vs (update_many q f vs)
Evolves-update_many q f [] h = tt
Evolves-update_many q f (v ∷ vs) h = (Evolved-if (q v) v (f v) (h v), Evolves-update_many q f vs h)

update_first :
    (b : Bool) (v w : Visit) (vs ws : List Visit)
    → Evolved v w
    → Evolves vs ws
    → Evolves (v ∷ vs) (if b then w ∷ vs else v ∷ ws)
update_first true v w vs ws h k = (h, Evolves-refl vs)
update_first false v w vs ws h k = (Evolved-refl v, k)

pub Evolves-update :
    (q : Visit → Bool) (f : Visit → Visit) (vs : List Visit)
    → ((v : Visit) → Evolved v (f v))
    → Evolves vs (update q f vs)
Evolves-update q f [] h = tt
Evolves-update q f (v ∷ vs) h =
    update_first (q v) v (f v) vs (update q f vs) (h v) (Evolves-update q f vs h)
