-- ===== src/Orders/Transitions/Tests.antt =====
-- A status change that is let through, and one that is offered.
use procare_backend.Common.{Uuid, ◌≡◌, refl, true, none, some, List, [], ◌∷◌, is_some, ◌↔◌}
use procare_backend.Common.Text.{codes}
use procare_backend.Common.Sorting.{order_by}
use procare_backend.Common.Result.{ok}
use procare_backend.Branches.{Role, operator, AdminPayload, mother_branch_id}
use procare_backend.Database.{
  StatusType, open_type, invalid, RepairOrderStatus, RepairOrderStatusPermission, Db,
}
use procare_backend.Orders.{RowStatus, open_row, deleted, closed, cancelled, is_open, RepairOrder}
use procare_backend.Orders.Statuses.{get_status_details}
use procare_backend.Orders.Transitions.{
  get_transition_rule, get_active_rental, get_target_status_permission_or_throw,
  validate_status_transition_or_throw, find_allowed_status_transitions, role_id_of,
}
use procare_backend.Orders.Transitions.Validation.{MayMove, validate_status_transition_or_throw_iff}
use procare_backend.Orders.Transitions.Offers.{find_allowed_status_transitions_sound}

abbrev operator_admin : AdminPayload
operator_admin = record {
  id = 7;
  roles = record { id = 3; name = codes "Operator"; type = some operator } ∷ [];
}

abbrev status : Uuid → StatusType → RepairOrderStatus
status id type = record {
  id = id;
  branch_id = mother_branch_id;
  type = some type;
  is_active = true;
  is_protected = true;
  is_open = true;
  sort = id;
}

abbrev permission : Uuid → RepairOrderStatusPermission
permission status_id = record {
  branch_id = mother_branch_id;
  status_id = status_id;
  role_id = 3;
  allows = λ f. true;
}

abbrev permissions : List RepairOrderStatusPermission
permissions = permission 10 ∷ permission 11 ∷ []

abbrev order : RepairOrder
order = record {
  id = 100;
  branch_id = mother_branch_id;
  status_id = 10;
  sort = 1;
  status = open_row;
  user_id = none;
  imei = some (codes "356");
  reject_cause_id = some 5;
  agreed_date = some (codes "8 May");
  customer_no_answer_count = 0;
  last_customer_no_answer_at = none;
  customer_no_answer_due_at = none;
}

abbrev db : Db
db = record {
  branch_tables = record { branches = []; admin_branches = [] };
  roles = [];
  statuses = status 10 open_type ∷ status 11 invalid ∷ [];
  permissions = permissions;
  transitions = record { from_status_id = 10; to_status_id = 11; role_id = some 3 } ∷ [];
  orders = order ∷ [];
  rentals = [];
  service_forms = 100 ∷ [];
  assignments = [];
  histories = [];
  reject_causes = [];
  admins = [];
}

validate_status_transition_or_throw_iff_example :
    (validate_status_transition_or_throw operator_admin order 11 permissions 100
        (get_transition_rule 10 11 mother_branch_id (some 3) db)
        (get_status_details 11 db)
        (get_active_rental 100 db)
        mother_branch_id
        db
      ≡ ok (permission 11))
    ↔ ((role : Role) × MayMove operator_admin order 11 permissions mother_branch_id db
          (permission 11)
          role)
validate_status_transition_or_throw_iff_example =
    validate_status_transition_or_throw_iff operator_admin order 11 permissions mother_branch_id db
      (permission 11)

find_allowed_status_transitions_sound_example :
    (is_some (get_transition_rule 10 11 mother_branch_id (some 3) db) ≡ true)
    × ((p : RepairOrderStatusPermission) × (get_target_status_permission_or_throw operator_admin
            permissions mother_branch_id 11
          ≡ ok p))
unfolding find_allowed_status_transitions order_by
    procare_backend.Orders.Transitions.transition_scope
    procare_backend.Orders.Transitions.has_role_scoped_transitions
find_allowed_status_transitions_sound_example =
    find_allowed_status_transitions_sound operator_admin 10 mother_branch_id permissions db
      (status 11 invalid ∷ []) 11 refl refl
