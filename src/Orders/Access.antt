-- ===== src/Orders/Access.antt =====
-- src/repair-orders/repair-orders.service.ts: who may write to a repair order, which branch's
-- permissions apply, and what a write records (change history, automatic assignment).
use procare_backend.Common.{
  Uuid, Bool, true, false, not, ◌&&◌, ◌||◌, Option, none, some, List, [], ◌∷◌, ◌++◌, find, any,
  is_some, update_where, includes, ◌==◌, if◌then◌else◌,
}
use procare_backend.Common.Result.{Result, ok, err, forbidden, not_found, guard, ◌>>◌}
use procare_backend.Branches.{
  RoleType, specialist, master, Role, AdminPayload, mother_branch_id, is_mother_branch,
  is_super_admin, get_admin_assigned_branch_ids, get_visible_branch_ids,
}
use procare_backend.Orders.{RepairOrder}
use procare_backend.Orders.Board.Columns.{find_open}
use procare_backend.Database.{
  RoleRow, AssignmentSource, telephony_auto, role_update_auto, Assignment, HistoryField,
  HistoryValue, null, number, uuid, time, open_word, deleted_word, Db,
}

unfoldable pub assert_repair_order_visible : AdminPayload → RepairOrder → Db → Result (Unit {0})
assert_repair_order_visible admin order db =
    guard (includes order.branch_id (get_visible_branch_ids admin db.branch_tables))
      (forbidden "repair_order")

unfoldable pub assert_repair_order_writable : AdminPayload → RepairOrder → Db → Result (Unit {0})
unfolding assert_repair_order_visible
assert_repair_order_writable admin order db = do
  assert_repair_order_visible admin order db
  let assigned = get_admin_assigned_branch_ids admin.id db.branch_tables
  guard
      (not (is_mother_branch order.branch_id)
        || (is_super_admin admin || includes mother_branch_id assigned))
      (forbidden "repair_order")

abbrev or_mother : Option Uuid → Uuid
or_mother none = mother_branch_id
or_mother (some id) = id

unfoldable pub get_permission_branch_id_for_order : AdminPayload → Uuid → Db → Uuid
get_permission_branch_id_for_order admin order_branch_id db =
    let assigned = get_admin_assigned_branch_ids admin.id db.branch_tables in
    if not (is_mother_branch order_branch_id)
    then order_branch_id
    else if is_super_admin admin
    then mother_branch_id
    else if includes mother_branch_id assigned
    then mother_branch_id
    else or_mother (find (λ id. not (id == mother_branch_id)) assigned)

-- `getOrderOrThrow`, and the same read in the other handlers
unfoldable pub get_order_or_throw : Uuid → Db → Result RepairOrder
get_order_or_throw order_id db = elim (find_open order_id db.orders) [
  | none ↦ err (not_found "repair_order")
  | some order ↦ ok order
]

-- `JSON.stringify(oldValue ?? null) === JSON.stringify(newValue ?? null)`
unfoldable pub value_eq : HistoryValue → HistoryValue → Bool
value_eq null null = true
value_eq (number a) (number b) = a == b
value_eq (uuid a) (uuid b) = a == b
value_eq (time a) (time b) = a == b
value_eq open_word open_word = true
value_eq deleted_word deleted_word = true
value_eq _ _ = false

-- `logIfChanged` of repair-order-change-logger.service.ts: the row of
-- `repair_order_change_histories`. The comment and the global event made from it are left out.
unfoldable pub log_if_changed :
    Uuid → HistoryField → HistoryValue → HistoryValue → Uuid → Bool → Db → Db
unfolding value_eq
log_if_changed order_id field old_value new_value admin_id is_system db =
    if value_eq old_value new_value then db else record db {
      histories =
          db.histories
          ++ record {
            repair_order_id = order_id;
            field = field;
            old_value = old_value;
            new_value = new_value;
            created_by = admin_id;
            is_system = is_system;
          }
            ∷ [];
    }

abbrev is_worker_type : Option RoleType → Bool
is_worker_type (some specialist) = true
is_worker_type (some master) = true
is_worker_type _ = false

-- Whether `getRepairWorkerRoleTypesForAdmin` finds a type: a role's own, or that of the role's row
-- where the payload has none.
unfoldable pub is_repair_worker : AdminPayload → Db → Bool
is_repair_worker admin db =
    any
      (λ (r : Role).
        is_worker_type r.type
        || (not (is_some r.type)
            && any
                (λ (q : RoleRow).
                  q.id == r.id && (q.is_open && (q.is_active && is_worker_type q.type)))
                db.roles))
      admin.roles

abbrev is_telephony_auto : AssignmentSource → Bool
is_telephony_auto telephony_auto = true
is_telephony_auto _ = false

abbrev is_pair : Uuid → Uuid → Assignment → Bool
is_pair order_id admin_id a = a.repair_order_id == order_id && a.admin_id == admin_id

-- `INSERT … ON CONFLICT DO NOTHING`, then a replaceable source is overwritten.
unfoldable pub assign_admin_to_order_if_needed :
    Uuid → Uuid → AssignmentSource → List Assignment → List Assignment
assign_admin_to_order_if_needed order_id admin_id source rows =
    let inserted =
      if any (is_pair order_id admin_id) rows
      then rows
      else rows
        ++ record { repair_order_id = order_id; admin_id = admin_id; assignment_source = source }
          ∷ [] in
    if is_telephony_auto source
    then inserted
    else update_where (λ a. is_pair order_id admin_id a && is_telephony_auto a.assignment_source)
        (λ a. record a { assignment_source = source }) inserted

unfoldable pub auto_assign_repair_worker_from_update_if_needed : Uuid → AdminPayload → Db → Db
auto_assign_repair_worker_from_update_if_needed order_id admin db =
    if is_repair_worker admin db
    then record db {
      assignments =
          assign_admin_to_order_if_needed order_id admin.id role_update_auto db.assignments;
    }
    else db
