-- ===== src/Orders/Transitions/Validation.antt =====
-- What a status change that is let through has passed, read off the tables.
use procare_backend.Common.{Memᴰ, Uuid, ◌↔◌, ◌≡◌, true, ◌&&◌, some, List, Some, find, head?, ◌==◌}
use procare_backend.Common.Result.{ok}
use procare_backend.Branches.{Role, AdminPayload, mother_branch_id}
use procare_backend.Database.{
  cannot_continue_without_imei, cannot_continue_without_reject_cause,
  cannot_continue_without_agreed_date, cannot_continue_without_service_form,
  RepairOrderStatusPermission, StatusTransition, Db,
}
use procare_backend.Orders.{RepairOrder}
use procare_backend.Orders.Statuses.{get_status_details}
use procare_backend.Orders.Transitions.{
  get_transition_rule, get_active_rental, role_id_of, validate_status_transition_or_throw,
}
use procare_backend.Orders.Transitions.Rules.{
  Applies, EndsAt, IsRenting, IsFilled, rule_iff, no_rental_iff, text_iff, cause_iff,
  service_form_iff, permission_iff,
}
use procare_backend.Orders.Transitions.Guards.{Passes, validate_status_transition_or_throw-Passes}

-- What an order needs to go to a status under the permission `p`.
pub record MayMove (admin : AdminPayload) (order : RepairOrder) (target : Uuid)
    (permissions : List RepairOrderStatusPermission) (branch_id : Uuid) (db : Db)
    (p : RepairOrderStatusPermission) (role : Role) : Type 0 where
  pub first_role : head? admin.roles ≡ some role
  pub rule :
      Some
        (λ (t : StatusTransition).
          (t.from_status_id ≡ order.status_id)
          × (t.to_status_id ≡ target)
          × Applies role.id db t.role_id)
        db.transitions
  pub no_rental : EndsAt target db → IsRenting order.id db → ⊥
  pub permission :
      find
        (λ (q : RepairOrderStatusPermission).
          q.role_id == role.id && (q.branch_id == branch_id && q.status_id == target))
        permissions
      ≡ some p
  pub imei : p.allows cannot_continue_without_imei ≡ true → IsFilled order.imei
  pub reject_cause :
      p.allows cannot_continue_without_reject_cause ≡ true
      → (c : Uuid) × (order.reject_cause_id ≡ some c)
  pub agreed_date : p.allows cannot_continue_without_agreed_date ≡ true → IsFilled order.agreed_date
  pub service_form :
      p.allows cannot_continue_without_service_form ≡ true → Memᴰ order.id db.service_forms

Passes-MayMove :
    (admin : AdminPayload) (order : RepairOrder) (target : Uuid)
    (permissions : List RepairOrderStatusPermission) (branch_id : Uuid) (db : Db)
    (p : RepairOrderStatusPermission)
    → Passes admin order target permissions branch_id db p
    → (role : Role) × MayMove admin order target permissions branch_id db p role
Passes-MayMove admin order target permissions branch_id db p h =
    let (role, first, found) =
      (permission_iff admin permissions branch_id target p).0 h.permission in
    (
      role,
      record {
        first_role = first;
        rule = (rule_iff order.status_id target role.id db).0 (rw first at h.has_rule);
        no_rental = (no_rental_iff target order.id db).0 h.no_rental;
        permission = found;
        imei = (text_iff (p.allows cannot_continue_without_imei) order.imei).0 h.imei;
        reject_cause =
            (cause_iff (p.allows cannot_continue_without_reject_cause) order.reject_cause_id).0
              h.reject_cause;
        agreed_date =
            (text_iff (p.allows cannot_continue_without_agreed_date) order.agreed_date).0
              h.agreed_date;
        service_form =
            (service_form_iff (p.allows cannot_continue_without_service_form) order.id db).0
              h.service_form;
      },
    )

MayMove-Passes :
    (admin : AdminPayload) (order : RepairOrder) (target : Uuid)
    (permissions : List RepairOrderStatusPermission) (branch_id : Uuid) (db : Db)
    (p : RepairOrderStatusPermission) (role : Role)
    → MayMove admin order target permissions branch_id db p role
    → Passes admin order target permissions branch_id db p
MayMove-Passes admin order target permissions branch_id db p role h = record {
  has_rule = rw h.first_role ((rule_iff order.status_id target role.id db).1 h.rule);
  no_rental = (no_rental_iff target order.id db).1 h.no_rental;
  permission =
      (permission_iff admin permissions branch_id target p).1 (role, h.first_role, h.permission);
  imei = (text_iff (p.allows cannot_continue_without_imei) order.imei).1 h.imei;
  reject_cause =
      (cause_iff (p.allows cannot_continue_without_reject_cause) order.reject_cause_id).1
        h.reject_cause;
  agreed_date =
      (text_iff (p.allows cannot_continue_without_agreed_date) order.agreed_date).1 h.agreed_date;
  service_form =
      (service_form_iff (p.allows cannot_continue_without_service_form) order.id db).1
        h.service_form;
}

-- With the rows that `move` has read for it, `validateStatusTransitionOrThrow` returns a permission
-- exactly if the administrator has a first role; a transition from the order's status to the target
-- applies to that role (one of its own, if it has any from an open status of the Mother Branch, else
-- one without a role); the target is not completed, cancelled, canceled or invalid while the order has
-- an active rental; the permission is the first one of that role, the branch and the target; and the
-- order has the IMEI, reject cause, agreed date and service form that the permission demands.
pub validate_status_transition_or_throw_iff :
    (admin : AdminPayload) (order : RepairOrder) (target : Uuid)
    (permissions : List RepairOrderStatusPermission) (branch_id : Uuid) (db : Db)
    (p : RepairOrderStatusPermission)
    → (validate_status_transition_or_throw admin order target permissions order.id
          (get_transition_rule order.status_id target mother_branch_id
            (role_id_of (head? admin.roles))
            db)
          (get_status_details target db)
          (get_active_rental order.id db)
          branch_id
          db
        ≡ ok p)
      ↔ ((role : Role) × MayMove admin order target permissions branch_id db p role)
validate_status_transition_or_throw_iff admin order target permissions branch_id db p =
    let passes =
      validate_status_transition_or_throw-Passes admin order target permissions branch_id db p in
    (
      λ e. Passes-MayMove admin order target permissions branch_id db p (passes.0 e),
      λ (role, may).
          passes.1 (MayMove-Passes admin order target permissions branch_id db p role may),
    )
