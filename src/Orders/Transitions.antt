-- ===== src/Orders/Transitions.antt =====
-- src/repair-orders/repair-orders.service.ts: whether an order may go from a status to another one,
-- `getTransitionRule`, `hasRoleScopedTransitions`, `findAllowedStatusTransitions` and
-- `validateStatusTransitionOrThrow`.
mod Tests
pub mod Guards
pub mod Rules
pub mod Validation
pub mod Offers
use procare_backend.Common.{
  ℕ, Uuid, ◌+◌, Bool, true, false, not, ◌&&◌, ◌||◌, Option, none, some, List, [], ◌∷◌, ◌++◌,
  select_where, find, head?, any, includes, is_some, map, ◌==◌, if◌then◌else◌,
}
use procare_backend.Common.Sorting.{order_by}
use procare_backend.Common.Text.{Text}
use procare_backend.Common.Result.{Result, ok, err, bad_request, forbidden, guard, ◌>>=◌, ◌>>◌}
use procare_backend.Branches.{Role, AdminPayload, mother_branch_id}
use procare_backend.Database.{
  StatusType, completed, cancelled, canceled, open_type, invalid, missed, agreed, RepairOrderStatus,
  PermissionField, can_change_status, cannot_continue_without_imei,
  cannot_continue_without_reject_cause, cannot_continue_without_agreed_date,
  cannot_continue_without_service_form, RepairOrderStatusPermission, StatusTransition, RentalPhone,
  Db,
}
use procare_backend.Orders.{RepairOrder}
use procare_backend.Orders.Statuses.{get_status_details}

abbrev pub is_role : Uuid → Option Uuid → Bool
is_role role_id none = false
is_role role_id (some id) = id == role_id

-- An open status of the branch has a transition of this role.
unfoldable pub has_role_scoped_transitions : Uuid → Uuid → Db → Bool
has_role_scoped_transitions branch_id role_id db =
    any
      (λ (t : StatusTransition).
        is_role role_id t.role_id
        && any
            (λ (s : RepairOrderStatus).
              s.id == t.from_status_id && (s.branch_id == branch_id && s.is_open))
            db.statuses)
      db.transitions

-- The role whose transitions apply; `none` is that of the default ones.
unfoldable pub transition_scope : Uuid → Option Uuid → Db → Option Uuid
transition_scope branch_id none db = none
transition_scope branch_id (some role_id) db =
    if has_role_scoped_transitions branch_id role_id db then some role_id else none

abbrev pub in_scope : Option Uuid → Option Uuid → Bool
in_scope none role_id = not (is_some role_id)
in_scope (some role) role_id = is_role role role_id

unfoldable pub get_transition_rule : Uuid → Uuid → Uuid → Option Uuid → Db → Option StatusTransition
unfolding transition_scope
get_transition_rule from_status_id to_status_id branch_id role_id db =
    let scope = transition_scope branch_id role_id db in
    find
      (λ t.
        t.from_status_id == from_status_id
        && (t.to_status_id == to_status_id && in_scope scope t.role_id))
      db.transitions

unfoldable pub get_active_rental : Uuid → Db → Option RentalPhone
get_active_rental order_id db = find (λ r. r.repair_order_id == order_id && r.is_active) db.rentals

unfoldable pub has_service_form : Uuid → Db → Bool
has_service_form order_id db = includes order_id db.service_forms

unfoldable pub get_primary_role_or_throw : AdminPayload → Result Role
get_primary_role_or_throw admin = elim (head? admin.roles) [
  | none ↦ err (forbidden "status_id")
  | some role ↦ ok role
]

abbrev pub is_target_permission : Uuid → Uuid → Uuid → RepairOrderStatusPermission → Bool
is_target_permission role_id branch_id status_id p =
    p.role_id == role_id && (p.branch_id == branch_id && p.status_id == status_id)

unfoldable pub get_target_status_permission_or_throw :
    AdminPayload
    → List RepairOrderStatusPermission
    → Uuid
    → Uuid
    → Result RepairOrderStatusPermission
unfolding get_primary_role_or_throw
get_target_status_permission_or_throw admin permissions branch_id target_status_id = do
  primary_role ← get_primary_role_or_throw admin
  elim (find (is_target_permission primary_role.id branch_id target_status_id) permissions) [
    | none ↦ err (forbidden "status_id")
    | some p ↦ ok p
  ]

-- `terminalStatusTypes`
abbrev pub is_terminal_type : Option StatusType → Bool
is_terminal_type (some completed) = true
is_terminal_type (some cancelled) = true
is_terminal_type (some canceled) = true
is_terminal_type (some invalid) = true
is_terminal_type _ = false

abbrev pub is_terminal : Option RepairOrderStatus → Bool
is_terminal none = false
is_terminal (some s) = is_terminal_type s.type

-- `a ?? b`
abbrev pub or_else {ℓ} : {A : Type ℓ} → Option A → Option A → Option A
or_else none b = b
or_else (some a) b = some a

-- `!text`
abbrev pub is_blank : Option Text → Bool
is_blank none = true
is_blank (some []) = true
is_blank (some (c ∷ s)) = false

-- The columns `cannot_continue_without_…` of the target's permission.
unfoldable pub check_requirements :
    RepairOrderStatusPermission → RepairOrder → Uuid → Db → Result (Unit {0})
unfolding has_service_form
check_requirements p order order_id db = do
  guard (not (p.allows cannot_continue_without_imei && is_blank order.imei)) (bad_request "imei")
  guard (not (p.allows cannot_continue_without_reject_cause && not (is_some order.reject_cause_id)))
      (bad_request "reason_for_rejection")
  guard (not (p.allows cannot_continue_without_agreed_date && is_blank order.agreed_date))
      (bad_request "agreed_date")
  guard (not (p.allows cannot_continue_without_service_form && not (has_service_form order_id db)))
      (bad_request "service_form")

abbrev pub role_id_of : Option Role → Option Uuid
role_id_of none = none
role_id_of (some r) = some r.id

unfoldable pub validate_status_transition_or_throw :
    AdminPayload
    → RepairOrder
    → Uuid
    → List RepairOrderStatusPermission
    → Uuid
    → Option StatusTransition
    → Option RepairOrderStatus
    → Option RentalPhone
    → Uuid
    → Db
    → Result RepairOrderStatusPermission
unfolding check_requirements
validate_status_transition_or_throw admin order target_status_id permissions order_id
      transition_rule target_status active_rental permission_branch_id db =
    do
      let rule = or_else transition_rule (
          get_transition_rule order.status_id target_status_id mother_branch_id
            (role_id_of (head? admin.roles)) db)
      guard (is_some rule) (bad_request "status_id")
      let target = or_else target_status (get_status_details target_status_id db)
      let rental = or_else active_rental (get_active_rental order_id db)
      guard (not (is_terminal target && is_some rental)) (bad_request "status_id")
      p ←
          get_target_status_permission_or_throw admin permissions permission_branch_id
            target_status_id
      check_requirements p order order_id db
      ok p

-- The rows of the join with the target statuses.
unfoldable pub transition_targets :
    Uuid → List Uuid → Option Uuid → List StatusTransition → Db → List RepairOrderStatus
transition_targets from_status_id permitted scope [] db = []
transition_targets from_status_id permitted scope (t ∷ transitions) db =
    let rest = transition_targets from_status_id permitted scope transitions db in
    let targets =
      select_where
        (λ (s : RepairOrderStatus).
          s.id == t.to_status_id && (s.branch_id == mother_branch_id && (s.is_open && s.is_active)))
        db.statuses in
    if t.from_status_id == from_status_id
      && (includes t.to_status_id permitted && in_scope scope t.role_id)
    then targets ++ rest
    else rest

abbrev pub allows_status_change : Option RepairOrderStatusPermission → Bool
allows_status_change none = false
allows_status_change (some p) = p.allows can_change_status

-- The statuses that the admin is offered, by their rows.
unfoldable pub find_allowed_status_transitions :
    AdminPayload
    → Uuid
    → Uuid
    → List RepairOrderStatusPermission
    → Db
    → Result (List RepairOrderStatus)
unfolding get_primary_role_or_throw transition_targets
find_allowed_status_transitions admin from_status_id permission_branch_id permissions db =
    if not (allows_status_change (find (λ p. p.status_id == from_status_id) permissions))
    then ok []
    else do
      primary_role ← get_primary_role_or_throw admin
      let permitted =
          map (λ (p : RepairOrderStatusPermission). p.status_id)
            (select_where (λ p. p.role_id == primary_role.id && p.branch_id == permission_branch_id)
              permissions)
      ok (
          order_by (λ s. s.sort)
            (transition_targets from_status_id permitted
              (transition_scope mother_branch_id (some primary_role.id) db) db.transitions db))
