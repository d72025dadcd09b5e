-- ===== src/Orders/Handlers/Authorization.antt =====
-- Who a handler that succeeds has let through.
use procare_backend.Common.{ℕ, Uuid, ◌≡◌, true, ◌||◌, not, some, [], ◌∷◌, includes, String}
use procare_backend.Common.Result.{ok, guard-eq-ok, >>=-eq-ok, guard->>-eq-ok}
use procare_backend.Branches.{
  AdminPayload, mother_branch_id, is_mother_branch, is_super_admin, get_admin_assigned_branch_ids,
  get_visible_branch_ids,
}
use procare_backend.Database.{PermissionField, can_update, can_delete, Db}
use procare_backend.Permissions.Soundness.{has_grant, check_permissions_or_throw_sound}
use procare_backend.Orders.{RepairOrder}
use procare_backend.Orders.Board.Columns.{find_open}
use procare_backend.Orders.Access.{
  assert_repair_order_visible, assert_repair_order_writable, get_permission_branch_id_for_order,
}
use procare_backend.Orders.Handlers.{check_order_permission, update_sort, soft_delete}
use procare_backend.Orders.Handlers.Effects.{get_order_or_throw-ok}

-- The administrator sees the branch of the order, writes to the Mother Branch only if unrestricted,
-- and holds a role with the permission for the order's status.
pub record IsAuthorized (admin : AdminPayload) (order : RepairOrder) (field : PermissionField)
    (db : Db) : Type 0 where
  pub visible : includes order.branch_id (get_visible_branch_ids admin db.branch_tables) ≡ true
  pub writable :
      (not (is_mother_branch order.branch_id)
        || (is_super_admin admin
            || includes mother_branch_id (get_admin_assigned_branch_ids admin.id db.branch_tables)))
      ≡ true
  pub granted :
      has_grant admin.roles
        (get_permission_branch_id_for_order admin order.branch_id db)
        order.status_id
        (field ∷ [])
        db
      ≡ true

checked-IsAuthorized :
    (admin : AdminPayload) (order : RepairOrder) (field : PermissionField) (location : String)
    (db : Db) (u v : Unit {0})
    → assert_repair_order_writable admin order db ≡ ok u
    → check_order_permission admin order field location db ≡ ok v
    → IsAuthorized admin order field db
unfolding assert_repair_order_writable assert_repair_order_visible check_order_permission
checked-IsAuthorized admin order field location db u v writes permits =
    let (sees, writes') =
      guard->>-eq-ok (includes order.branch_id (get_visible_branch_ids admin db.branch_tables)) _ _
        writes in
    record {
      visible = sees;
      writable = guard-eq-ok _ _ writes';
      granted =
          check_permissions_or_throw_sound admin.roles
            (get_permission_branch_id_for_order admin order.branch_id db) order.status_id
            (field ∷ []) location db v permits;
    }

-- If `updateSort` succeeds on an open order, the administrator sees the order's branch, is
-- unrestricted or assigned to the Mother Branch where the order stands there, and holds a grant of
-- `can_update` for the order's status.
pub update_sort-IsAuthorized :
    (db db' : Db) (order : RepairOrder) (order_id : Uuid) (new_sort : ℕ) (admin : AdminPayload)
    → find_open order_id db.orders ≡ some order
    → update_sort order_id new_sort admin db ≡ ok db'
    → IsAuthorized admin order can_update db
unfolding update_sort
update_sort-IsAuthorized db db' order order_id new_sort admin found e =
    let read = get_order_or_throw-ok order_id db order found in
    let (u, writes, rest) =
      >>=-eq-ok (assert_repair_order_writable admin order db) _ (rw (read, update_sort) at e) in
    let (v, permits, _) =
      >>=-eq-ok (check_order_permission admin order can_update "repair_order_update" db) _ rest in
    checked-IsAuthorized admin order can_update "repair_order_update" db u v writes permits

-- If `softDelete` succeeds on an open order, the administrator sees the order's branch, is
-- unrestricted or assigned to the Mother Branch where the order stands there, and holds a grant of
-- `can_delete` for the order's status.
pub soft_delete-IsAuthorized :
    (db db' : Db) (order : RepairOrder) (order_id : Uuid) (admin : AdminPayload)
    → find_open order_id db.orders ≡ some order
    → soft_delete admin order_id db ≡ ok db'
    → IsAuthorized admin order can_delete db
unfolding soft_delete
soft_delete-IsAuthorized db db' order order_id admin found e =
    let read = get_order_or_throw-ok order_id db order found in
    let (u, writes, rest) =
      >>=-eq-ok (assert_repair_order_writable admin order db) _ (rw (read, soft_delete) at e) in
    let (v, permits, _) =
      >>=-eq-ok (check_order_permission admin order can_delete "repair_order_delete" db) _ rest in
    checked-IsAuthorized admin order can_delete "repair_order_delete" db u v writes permits
