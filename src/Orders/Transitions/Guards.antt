-- ===== src/Orders/Transitions/Guards.antt =====
-- The guards of a status change, one by one.
use procare_backend.Common.{
  Uuid, ◌↔◌, ◌≡◌, refl, Bool, true, false, not, ◌&&◌, Option, none, some, List, head?, is_some,
}
use procare_backend.Common.Result.{
  HttpException, bad_request, Result, ok, guard, ◌>>=◌, ◌>>◌, guard->>-eq-ok, >>=-eq-ok,
  guard-eq-ok, ok-injective,
}
use procare_backend.Branches.{AdminPayload, mother_branch_id}
use procare_backend.Database.{
  cannot_continue_without_imei, cannot_continue_without_reject_cause,
  cannot_continue_without_agreed_date, cannot_continue_without_service_form,
  RepairOrderStatusPermission, Db,
}
use procare_backend.Orders.{RepairOrder}
use procare_backend.Orders.Statuses.{get_status_details}
use procare_backend.Orders.Transitions.{
  get_transition_rule, get_active_rental, has_service_form, get_target_status_permission_or_throw,
  is_terminal, or_else, is_blank, check_requirements, role_id_of,
  validate_status_transition_or_throw,
}

-- The guards, passed with the permission `p`.
pub record Passes (admin : AdminPayload) (order : RepairOrder) (target : Uuid)
    (permissions : List RepairOrderStatusPermission) (branch_id : Uuid) (db : Db)
    (p : RepairOrderStatusPermission) : Type 0 where
  pub has_rule :
      is_some (
        get_transition_rule order.status_id target mother_branch_id
          (role_id_of (head? admin.roles))
          db)
      ≡ true
  pub no_rental :
      (is_terminal (get_status_details target db) && is_some (get_active_rental order.id db))
      ≡ false
  pub permission : get_target_status_permission_or_throw admin permissions branch_id target ≡ ok p
  pub imei : (p.allows cannot_continue_without_imei && is_blank order.imei) ≡ false
  pub reject_cause :
      (p.allows cannot_continue_without_reject_cause && not (is_some order.reject_cause_id)) ≡ false
  pub agreed_date :
      (p.allows cannot_continue_without_agreed_date && is_blank order.agreed_date) ≡ false
  pub service_form :
      (p.allows cannot_continue_without_service_form && not (has_service_form order.id db)) ≡ false

not-true : {b : Bool} → not b ≡ true → b ≡ false
not-true {b = true} e = cc
not-true {b = false} e = refl

or_else-same {ℓ} : {A : Type ℓ} (a : Option A) → or_else a a ≡ a
or_else-same none = refl
or_else-same (some a) = refl

check_requirements-ok :
    (admin : AdminPayload) (order : RepairOrder) (target : Uuid)
    (permissions : List RepairOrderStatusPermission) (branch_id : Uuid) (db : Db)
    (p : RepairOrderStatusPermission)
    → Passes admin order target permissions branch_id db p
    → check_requirements p order order.id db ≡ ok tt
unfolding check_requirements
check_requirements-ok admin order target permissions branch_id db p may =
    rw (may.imei, may.reject_cause, may.agreed_date, may.service_form)

-- The guards of the requirements, each with its exception.
guards-ok :
    (a b c d : Bool) (ea eb ec ed : HttpException) (u : Unit {0})
    → (guard a ea >> (guard b eb >> (guard c ec >> guard d ed))) ≡ ok u
    → (a ≡ true) × (b ≡ true) × (c ≡ true) × (d ≡ true)
guards-ok a b c d ea eb ec ed u e =
    let (ta, e1) = guard->>-eq-ok a ea (guard b eb >> (guard c ec >> guard d ed)) e in
    let (tb, e2) = guard->>-eq-ok b eb (guard c ec >> guard d ed) e1 in
    let (tc, e3) = guard->>-eq-ok c ec (guard d ed) e2 in (ta, tb, tc, guard-eq-ok d ed e3)

-- Two guards, then a permission with its requirements.
chain-ok :
    (a b : Bool) (ea eb : HttpException) (m : Result RepairOrderStatusPermission)
    (check : RepairOrderStatusPermission → Result (Unit {0})) (p : RepairOrderStatusPermission)
    → (guard a ea >> (guard b eb >> (m >>= λ q. check q >> ok q))) ≡ ok p
    → (a ≡ true) × (b ≡ true) × (m ≡ ok p) × (check p ≡ ok tt)
chain-ok a b ea eb m check p e =
    let (ta, e1) = guard->>-eq-ok a ea (guard b eb >> (m >>= λ q. check q >> ok q)) e in
    let (tb, e2) = guard->>-eq-ok b eb (m >>= λ q. check q >> ok q) e1 in
    let (q, found, e3) = >>=-eq-ok m (λ q. check q >> ok q) e2 in
    let (u, met, e4) = >>=-eq-ok (check q) (λ u. ok q) e3 in
    let same : q ≡ p = ok-injective e4 in (ta, tb, rw same at found, rw same at met)

requirements-Passes :
    (admin : AdminPayload) (order : RepairOrder) (target : Uuid)
    (permissions : List RepairOrderStatusPermission) (branch_id : Uuid) (db : Db)
    (p : RepairOrderStatusPermission)
    → is_some (
        get_transition_rule order.status_id target mother_branch_id
          (role_id_of (head? admin.roles))
          db)
      ≡ true
    → not (is_terminal (get_status_details target db) && is_some (get_active_rental order.id db))
      ≡ true
    → get_target_status_permission_or_throw admin permissions branch_id target ≡ ok p
    → check_requirements p order order.id db ≡ ok tt
    → Passes admin order target permissions branch_id db p
unfolding check_requirements
requirements-Passes admin order target permissions branch_id db p rule rental found met =
    let (i, r, d, f) =
      guards-ok (not (p.allows cannot_continue_without_imei && is_blank order.imei))
        (not (p.allows cannot_continue_without_reject_cause && not (is_some order.reject_cause_id)))
        (not (p.allows cannot_continue_without_agreed_date && is_blank order.agreed_date))
        (not (p.allows cannot_continue_without_service_form && not (has_service_form order.id db)))
        (bad_request "imei") (bad_request "reason_for_rejection") (bad_request "agreed_date")
        (bad_request "service_form") tt met in
    record {
      has_rule = rule;
      no_rental = not-true rental;
      permission = found;
      imei = not-true i;
      reject_cause = not-true r;
      agreed_date = not-true d;
      service_form = not-true f;
    }

pub validate_status_transition_or_throw-Passes :
    (admin : AdminPayload) (order : RepairOrder) (target : Uuid)
    (permissions : List RepairOrderStatusPermission) (branch_id : Uuid) (db : Db)
    (p : RepairOrderStatusPermission)
    → (validate_status_transition_or_throw admin order target permissions order.id
          (get_transition_rule order.status_id target mother_branch_id
            (role_id_of (head? admin.roles))
            db)
          (get_status_details target db)
          (get_active_rental order.id db)
          branch_id
          db
        ≡ ok p)
      ↔ Passes admin order target permissions branch_id db p
unfolding validate_status_transition_or_throw
validate_status_transition_or_throw-Passes admin order target permissions branch_id db p =
    let rule =
      get_transition_rule order.status_id target mother_branch_id (role_id_of (head? admin.roles))
        db in
    let status = get_status_details target db in
    let rental = get_active_rental order.id db in
    (
      λ e.
          let (g1, g2, found, met) =
            chain-ok (is_some (or_else rule rule))
              (not (is_terminal (or_else status status) && is_some (or_else rental rental))) _ _
              (get_target_status_permission_or_throw admin permissions branch_id target)
              (λ q. check_requirements q order order.id db) p e in
          requirements-Passes admin order target permissions branch_id db p
            (rw (or_else-same rule) at g1) (rw (or_else-same status, or_else-same rental) at g2)
            found met,
      λ may. rw (
        or_else-same rule,
        or_else-same (get_status_details target db),
        or_else-same (get_active_rental order.id db),
        may.has_rule,
        may.no_rental,
        may.permission,
        check_requirements-ok admin order target permissions branch_id db p may,
      ),
    )
