-- ===== src/Orders/Tests.antt =====
-- The handlers at small tables: two orders in a column of the Mother Branch and one of a child.
use procare_backend.Common.{
  ℕ, Uuid, ◌+◌, ◌≡◌, refl, inl, true, false, none, some, List, [], ◌∷◌, arith, is_some,
}
use procare_backend.Common.Text.{codes}
use procare_backend.Common.Sorting.{insert_by, order_by}
use procare_backend.Common.Result.{Result, ok, err}
use procare_backend.Branches.{
  super_admin, AdminPayload, BranchTables, mother_branch_id, is_mother_branch, is_super_admin,
  get_child_branch_ids, get_visible_branch_ids, get_writable_branch_ids, assert_writable_branch,
  assert_child_branch,
}
use procare_backend.Database.{
  StatusType, open_type, invalid, missed, RepairOrderStatus, RepairOrderStatusPermission,
  branch_id_field, uuid, Db, can_update, can_delete,
}
use procare_backend.Permissions.{is_granted, find_by_roles_and_branch, check_permissions_or_throw}
use procare_backend.Orders.{open_row, RepairOrder}
use procare_backend.Orders.Access.{
  assert_repair_order_writable, get_permission_branch_id_for_order, get_order_or_throw,
  log_if_changed,
}
use procare_backend.Orders.Board.{in_column, move_order_to_status_at_top}
use procare_backend.Orders.Handlers.{
  update_sort, soft_delete, take, was_taken_from_mother, restore_to_mother, move_to_top_by_id,
}
use procare_backend.Orders.Statuses.{
  get_status_details, is_type, is_no_answer_trackable_status, required_status_key,
  is_required_status, get_required_status_by_type,
}
use procare_backend.Orders.NoAnswer.{
  customer_no_answer_limit, log_system_changes, record_customer_no_answer, mark_missed, is_due,
  process_due_customer_no_answer,
}
use procare_backend.Orders.Board.Counting.{here, in_group, at_sort, size, occurrences}
use procare_backend.Orders.Board.Contiguity.{IsContiguous}
use procare_backend.Orders.Board.Columns.{IsBoard, find_open}
use procare_backend.Orders.Handlers.Authorization.{
  IsAuthorized, update_sort-IsAuthorized, soft_delete-IsAuthorized,
}
use procare_backend.Orders.Handlers.Contiguity.{
  move_to_top_by_id-IsBoard, update_sort-IsBoard, soft_delete-IsBoard,
}
use procare_backend.Orders.Handlers.BranchMoves.{
  restore_to_mother-IsBoard, take-leaves_hole, take-IsContiguous,
}
use procare_backend.Orders.NoAnswer.Contiguity.{
  record_customer_no_answer-IsBoard, process_due_customer_no_answer-IsBoard,
}
use procare_backend.Orders.NoAnswer.Calls.{record_calls, calls-invalid}

abbrev admin : AdminPayload
admin = record {
  id = 7;
  roles = record { id = 3; name = codes "Super Admin"; type = some super_admin } ∷ [];
}

abbrev tables : BranchTables
tables = record {
  branches =
      record {
        id = mother_branch_id;
        parent_branch_id = none;
        is_open = true;
        is_active = true;
        sort = 1;
      }
      ∷ record {
        id = 1;
        parent_branch_id = some mother_branch_id;
        is_open = true;
        is_active = true;
        sort = 2;
      }
      ∷ [];
  admin_branches = [];
}

abbrev order : Uuid → Uuid → ℕ → RepairOrder
order id branch_id sort = record {
  id = id;
  branch_id = branch_id;
  status_id = 10;
  sort = sort;
  status = open_row;
  user_id = none;
  imei = none;
  reject_cause_id = none;
  agreed_date = none;
  customer_no_answer_count = 0;
  last_customer_no_answer_at = none;
  customer_no_answer_due_at = none;
}

abbrev rows : List RepairOrder
rows = order 100 mother_branch_id 1 ∷ order 101 mother_branch_id 2 ∷ order 102 1 1 ∷ []

abbrev status : Uuid → StatusType → RepairOrderStatus
status id type = record {
  id = id;
  branch_id = mother_branch_id;
  type = some type;
  is_active = true;
  is_protected = true;
  is_open = true;
  sort = id;
}

abbrev permission : Uuid → RepairOrderStatusPermission
permission branch_id = record {
  branch_id = branch_id;
  status_id = 10;
  role_id = 3;
  allows = λ f. true;
}

abbrev db : Db
db = record {
  branch_tables = tables;
  roles = record { id = 3; is_open = true; is_active = true; type = some super_admin } ∷ [];
  statuses = status 10 open_type ∷ status 11 invalid ∷ status 12 missed ∷ [];
  permissions = permission mother_branch_id ∷ permission 1 ∷ [];
  transitions = record { from_status_id = 10; to_status_id = 11; role_id = none } ∷ [];
  orders = rows;
  rentals = [];
  service_forms = [];
  assignments = [];
  histories =
      record {
        repair_order_id = 102;
        field = branch_id_field;
        old_value = uuid mother_branch_id;
        new_value = uuid 1;
        created_by = 7;
        is_system = false;
      }
      ∷ [];
  reject_causes = [];
  admins = record { id = 7; is_open = true; created_at = 5 } ∷ [];
}

rows-IsBoard : IsBoard rows
unfolding at_sort size here in_group in_column occurrences
rows-IsBoard = record {
  unique = λ i. ground arith;
  contiguous = λ b s. record { none_at_zero = ground arith; one_each = λ k. ground arith };
}

-- The tables after a handler, where it succeeds.
abbrev after : Result Db → Db
after (ok d) = d
after (err e) = db

update_sort-IsBoard_example : IsBoard (after (update_sort 101 1 admin db)).orders
unfolding update_sort get_order_or_throw size in_group in_column assert_repair_order_writable
    get_visible_branch_ids is_super_admin is_mother_branch check_permissions_or_throw
    find_by_roles_and_branch order_by is_granted get_permission_branch_id_for_order
update_sort-IsBoard_example =
    update_sort-IsBoard db (after (update_sort 101 1 admin db)) (order 101 mother_branch_id 2) 101 1
      admin rows-IsBoard refl (omega arith) (ground arith) refl

soft_delete-IsBoard_example : IsBoard (after (soft_delete admin 100 db)).orders
unfolding soft_delete get_order_or_throw assert_repair_order_writable get_visible_branch_ids
    is_super_admin is_mother_branch check_permissions_or_throw find_by_roles_and_branch order_by
    is_granted get_permission_branch_id_for_order
soft_delete-IsBoard_example =
    soft_delete-IsBoard db (after (soft_delete admin 100 db)) (order 100 mother_branch_id 1) 100
      admin rows-IsBoard refl refl

restore_to_mother-IsBoard_example : IsBoard (after (restore_to_mother 102 admin db)).orders
unfolding restore_to_mother size in_group in_column get_order_or_throw is_mother_branch
    assert_repair_order_writable get_visible_branch_ids is_super_admin get_child_branch_ids order_by
    check_permissions_or_throw find_by_roles_and_branch is_granted
    get_permission_branch_id_for_order was_taken_from_mother
restore_to_mother-IsBoard_example =
    restore_to_mother-IsBoard db (after (restore_to_mother 102 admin db)) (order 102 1 1) 102 admin
      rows-IsBoard refl (ground arith) refl

take-leaves_hole_example : ¬ IsContiguous (after (take 100 1 admin db)).orders mother_branch_id 10
unfolding take size in_group in_column assert_child_branch assert_writable_branch
    get_writable_branch_ids is_super_admin get_child_branch_ids order_by get_order_or_throw
    is_mother_branch check_permissions_or_throw find_by_roles_and_branch is_granted
take-leaves_hole_example =
    take-leaves_hole db (after (take 100 1 admin db)) (order 100 mother_branch_id 1) 100 1 admin
      rows-IsBoard refl (ground arith) (ground arith) refl

take-IsContiguous_example : IsContiguous (after (take 100 1 admin db)).orders 1 10
unfolding take size in_group in_column assert_child_branch assert_writable_branch
    get_writable_branch_ids is_super_admin get_child_branch_ids order_by get_order_or_throw
    is_mother_branch check_permissions_or_throw find_by_roles_and_branch is_granted
take-IsContiguous_example =
    take-IsContiguous db (after (take 100 1 admin db)) (order 100 mother_branch_id 1) 100 1 admin
      rows-IsBoard refl (ground arith) (ground arith) refl 1 10 (inl (ground arith))

record_customer_no_answer-IsBoard_example :
    IsBoard (after (record_customer_no_answer 101 50 200 db)).orders
unfolding record_customer_no_answer get_status_details is_no_answer_trackable_status
record_customer_no_answer-IsBoard_example =
    record_customer_no_answer-IsBoard db (after (record_customer_no_answer 101 50 200 db)) 101 50
      200 rows-IsBoard refl

-- An order with one unanswered call that is due.
abbrev due_order : RepairOrder
due_order = record (order 101 mother_branch_id 2) {
  customer_no_answer_count = 1;
  customer_no_answer_due_at = some 60;
}

abbrev due_db : Db
due_db = record db { orders = order 100 mother_branch_id 1 ∷ due_order ∷ order 102 1 1 ∷ [] }

due_rows-IsBoard : IsBoard due_db.orders
unfolding at_sort size here in_group in_column occurrences
due_rows-IsBoard = record {
  unique = λ i. ground arith;
  contiguous = λ b s. record { none_at_zero = ground arith; one_each = λ k. ground arith };
}

process_due_customer_no_answer-IsBoard_example :
    IsBoard (after (process_due_customer_no_answer 101 70 200 due_db)).orders
unfolding process_due_customer_no_answer get_status_details is_no_answer_trackable_status is_due
    mark_missed get_required_status_by_type is_required_status required_status_key order_by
    insert_by is_type log_system_changes log_if_changed move_order_to_status_at_top
process_due_customer_no_answer-IsBoard_example =
    process_due_customer_no_answer-IsBoard due_db
      (after (process_due_customer_no_answer 101 70 200 due_db)) 101 70 200 due_rows-IsBoard refl

calls-invalid_example :
    (db' : Db) × (o' : RepairOrder) × (record_calls 101 200 (51 ∷ 52 ∷ 53 ∷ 54 ∷ []) db ≡ ok db')
    × (find_open 101 db'.orders ≡ some o')
    × (o'.status_id ≡ 11)
    × (o'.sort ≡ 1)
    × (o'.customer_no_answer_count ≡ customer_no_answer_limit + 1)
    × (is_some o'.reject_cause_id ≡ true)
    × (o'.last_customer_no_answer_at ≡ some 54)
    × (o'.customer_no_answer_due_at ≡ none)
unfolding get_status_details is_no_answer_trackable_status get_required_status_by_type
    is_required_status required_status_key order_by insert_by is_type occurrences
calls-invalid_example =
    calls-invalid db (order 101 mother_branch_id 2) (status 11 invalid) 200 (51 ∷ 52 ∷ 53 ∷ []) 54
      (record { row = record { once = refl; found = refl }; open_order = refl; trackable = refl })
      refl refl

move_to_top_by_id-IsBoard_example : IsBoard (move_to_top_by_id 101 db).orders
move_to_top_by_id-IsBoard_example = move_to_top_by_id-IsBoard db 101 rows-IsBoard

update_sort-IsAuthorized_example : IsAuthorized admin (order 101 mother_branch_id 2) can_update db
unfolding update_sort get_order_or_throw size in_group in_column assert_repair_order_writable
    get_visible_branch_ids is_super_admin is_mother_branch check_permissions_or_throw
    find_by_roles_and_branch order_by is_granted get_permission_branch_id_for_order
update_sort-IsAuthorized_example =
    update_sort-IsAuthorized db (after (update_sort 101 1 admin db)) (order 101 mother_branch_id 2)
      101 1 admin refl refl

soft_delete-IsAuthorized_example : IsAuthorized admin (order 100 mother_branch_id 1) can_delete db
unfolding soft_delete get_order_or_throw assert_repair_order_writable get_visible_branch_ids
    is_super_admin is_mother_branch check_permissions_or_throw find_by_roles_and_branch order_by
    is_granted get_permission_branch_id_for_order
soft_delete-IsAuthorized_example =
    soft_delete-IsAuthorized db (after (soft_delete admin 100 db)) (order 100 mother_branch_id 1)
      100 admin refl refl
