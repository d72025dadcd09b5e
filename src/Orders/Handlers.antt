-- ===== src/Orders/Handlers.antt =====
-- src/repair-orders/repair-orders.service.ts: `updateSort`, `softDelete`, `take`,
-- `restoreToMother` and `moveToTopById`. A handler that throws rolls its transaction back, so an
-- error carries no tables. Notifications and Redis flushes after the commit are left out.
pub mod Effects
pub mod Contiguity
pub mod Authorization
pub mod TopOfBranch
pub mod BranchMoves
use procare_backend.Common.{
  String, ℕ, Uuid, Bool, true, false, not, ◌&&◌, Option, none, some, List, [], ◌∷◌, find, any,
  update_where, ltb, ◌==◌, if◌then◌else◌,
}
use procare_backend.Common.Result.{
  Result, ok, err, forbidden, not_found, bad_request, guard, ◌>>=◌, ◌>>◌,
}
use procare_backend.Branches.{
  AdminPayload, mother_branch_id, is_mother_branch, assert_child_branch, assert_writable_branch,
}
use procare_backend.Database.{
  can_update, can_delete, PermissionField, HistoryField, branch_id_field, status_field, sort_field,
  HistoryValue, number, uuid, open_word, deleted_word, ChangeHistory, Db,
}
use procare_backend.Permissions.{find_by_roles_and_branch, check_permissions_or_throw}
use procare_backend.Orders.{RepairOrder, deleted, is_open}
use procare_backend.Orders.Board.{has_id, close_gap, handle_same_status_reordering, move_to_top}
use procare_backend.Orders.Access.{
  assert_repair_order_writable, get_permission_branch_id_for_order, get_order_or_throw,
  log_if_changed, auto_assign_repair_worker_from_update_if_needed,
}

-- The permission check that these handlers make on the order's branch.
unfoldable pub check_order_permission :
    AdminPayload → RepairOrder → PermissionField → String → Db → Result (Unit {0})
check_order_permission admin order field location db =
    let branch_id = get_permission_branch_id_for_order admin order.branch_id db in
    let permissions = find_by_roles_and_branch admin.roles branch_id db in
    check_permissions_or_throw admin.roles branch_id order.status_id (field ∷ []) location
      permissions db

-- The UPDATEs of `updateSort`.
unfoldable pub update_sort_rows : RepairOrder → ℕ → List RepairOrder → List RepairOrder
update_sort_rows order new_sort rows =
    update_where (has_id order.id) (λ r. record r { sort = new_sort })
      (handle_same_status_reordering order new_sort rows)

unfoldable pub update_sort : Uuid → ℕ → AdminPayload → Db → Result Db
unfolding check_order_permission update_sort_rows
update_sort order_id new_sort admin db = do
  order ← get_order_or_throw order_id db
  assert_repair_order_writable admin order db
  check_order_permission admin order can_update "repair_order_update" db
  ok (
      if new_sort == order.sort
      then db
      else auto_assign_repair_worker_from_update_if_needed order_id admin (
          log_if_changed order_id sort_field (number order.sort) (number new_sort) admin.id false
            (record db { orders = update_sort_rows order new_sort db.orders })))

unfoldable pub soft_delete : AdminPayload → Uuid → Db → Result Db
unfolding check_order_permission
soft_delete admin order_id db = do
  order ← get_order_or_throw order_id db
  assert_repair_order_writable admin order db
  check_order_permission admin order can_delete "repair_order_delete" db
  let logged = log_if_changed order_id status_field open_word deleted_word admin.id false db
  ok (record logged {
    orders =
        close_gap order
          (update_where (has_id order_id) (λ r. record r { status = deleted }) logged.orders);
  })

-- `update({ branch_id, sort: 999999 }).returning('*')`, then `moveToTop` of the returned row.
unfoldable pub put_on_top_of_branch : Uuid → RepairOrder → List RepairOrder → List RepairOrder
put_on_top_of_branch branch_id order rows =
    move_to_top (record order { branch_id = branch_id; sort = 999999 })
      (update_where (has_id order.id) (λ r. record r { branch_id = branch_id; sort = 999999 }) rows)

unfoldable pub take : Uuid → Uuid → AdminPayload → Db → Result Db
unfolding put_on_top_of_branch
take order_id target_branch_id admin db = do
  assert_child_branch target_branch_id db.branch_tables
  assert_writable_branch admin target_branch_id false db.branch_tables
  order ← get_order_or_throw order_id db
  guard (is_mother_branch order.branch_id) (bad_request "branch_id")
  check_permissions_or_throw admin.roles target_branch_id order.status_id (can_update ∷ [])
      "repair_order_take" (find_by_roles_and_branch admin.roles target_branch_id db) db
  ok (
      auto_assign_repair_worker_from_update_if_needed order_id admin (
        log_if_changed order_id branch_id_field (uuid order.branch_id) (uuid target_branch_id)
          admin.id false
          (record db { orders = put_on_top_of_branch target_branch_id order db.orders })))

abbrev is_branch_field : HistoryField → Bool
is_branch_field branch_id_field = true
is_branch_field _ = false

abbrev is_uuid : Uuid → HistoryValue → Bool
is_uuid id (uuid a) = a == id
is_uuid id _ = false

-- `new_value <> ?`: false on `null`
abbrev is_other_uuid : Uuid → HistoryValue → Bool
is_other_uuid id (uuid a) = not (a == id)
is_other_uuid id _ = false

unfoldable pub was_taken_from_mother : Uuid → Db → Bool
was_taken_from_mother order_id db =
    any
      (λ (h : ChangeHistory).
        h.repair_order_id == order_id
        && (is_branch_field h.field
            && (is_uuid mother_branch_id h.old_value
                && is_other_uuid mother_branch_id h.new_value)))
      db.histories

unfoldable pub restore_to_mother : Uuid → AdminPayload → Db → Result Db
unfolding check_order_permission put_on_top_of_branch
restore_to_mother order_id admin db = do
  order ← get_order_or_throw order_id db
  guard (not (is_mother_branch order.branch_id)) (bad_request "branch_id")
  assert_repair_order_writable admin order db
  check_order_permission admin order can_update "repair_order_restore" db
  guard (was_taken_from_mother order_id db) (bad_request "repair_order")
  ok (
      log_if_changed order_id branch_id_field (uuid order.branch_id) (uuid mother_branch_id)
        admin.id false
        (record db {
          orders = put_on_top_of_branch mother_branch_id order (close_gap order db.orders);
        }))

-- The call counters are reset too; an order that is not open is left alone.
unfoldable pub move_to_top_by_id : Uuid → Db → Db
move_to_top_by_id order_id db = elim (find (has_id order_id) db.orders) [
  | none ↦ db
  | some order ↦
      if is_open order.status
      then record db {
        orders =
            update_where (has_id order.id)
              (λ r. record r {
                customer_no_answer_count = 0;
                last_customer_no_answer_at = none;
                customer_no_answer_due_at = none;
              })
              (move_to_top order db.orders);
      }
      else db
]
