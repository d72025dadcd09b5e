-- ===== src/Permissions.antt =====
-- src/repair-order-status-permission/repair-order-status-permissions.service.ts:
-- `findByRolesAndBranch`, read from the tables (its Redis cache holds the same rows), and
-- `checkPermissionsOrThrow`.
mod Tests
pub mod Soundness
use procare_backend.Common.{
  String, ℕ, Uuid, ◌+◌, ◌*◌, ◌^◌, Bool, true, false, ◌&&◌, Option, none, some, List, [], ◌∷◌,
  select_where, find, any, ◌==◌, if◌then◌else◌,
}
use procare_backend.Common.Sorting.{order_by}
use procare_backend.Common.Result.{Result, ok, err, forbidden, guard, ◌>>◌}
use procare_backend.Branches.{Role, Branch}
use procare_backend.Database.{
  RepairOrderStatus, RepairOrderStatusPermission, PermissionField, RoleRow, Db,
}

-- `roleOrder.get(role_id)`: the map keeps the last index of a role.
unfoldable pub role_order : ℕ → Uuid → List Role → Option ℕ
role_order i role_id [] = none
role_order i role_id (r ∷ roles) = elim (role_order (i + 1) role_id roles) [
  | some j ↦ some j
  | none ↦ if r.id == role_id then some i else none
]

abbrev max_safe_integer : ℕ
max_safe_integer = 9007199254740991

abbrev get_or_max : Option ℕ → ℕ
get_or_max none = max_safe_integer
get_or_max (some i) = i

-- First by the role, then by the status: a UUID is below 2 ^ 128, and its text sorts as its number.
unfoldable pub permission_key : List Role → RepairOrderStatusPermission → ℕ
permission_key roles p = get_or_max (role_order 0 p.role_id roles) * 2 ^ 128 + p.status_id

abbrev pub branch_is_open : Uuid → Db → Bool
branch_is_open id db = any (λ (b : Branch). b.id == id && b.is_open) db.branch_tables.branches

abbrev pub role_is_open : Uuid → Db → Bool
role_is_open id db = any (λ (r : RoleRow). r.id == id && r.is_open) db.roles

abbrev pub status_is_open : Uuid → Db → Bool
status_is_open id db = any (λ (s : RepairOrderStatus). s.id == id && s.is_open) db.statuses

abbrev pub has_role : Uuid → List Role → Bool
has_role id roles = any (λ (r : Role). r.id == id) roles

-- The rows of these roles at this branch, under the joins of the query.
unfoldable pub is_granted : List Role → Uuid → Db → RepairOrderStatusPermission → Bool
is_granted roles branch_id db p =
    has_role p.role_id roles
    && (p.branch_id == branch_id
        && (branch_is_open p.branch_id db
            && (role_is_open p.role_id db && status_is_open p.status_id db)))

unfoldable pub find_by_roles_and_branch : List Role → Uuid → Db → List RepairOrderStatusPermission
find_by_roles_and_branch roles branch_id db =
    order_by (permission_key roles) (select_where (is_granted roles branch_id db) db.permissions)

-- The loop over `requiredFields`.
unfoldable pub allows_all : List PermissionField → RepairOrderStatusPermission → Bool
allows_all [] p = true
allows_all (f ∷ fields) p = p.allows f && allows_all fields p

unfoldable pub check_matched :
    List PermissionField → String → Option RepairOrderStatusPermission → Result (Unit {0})
unfolding allows_all
check_matched fields location none = err (forbidden location)
check_matched fields location (some p) = guard (allows_all fields p) (forbidden location)

-- Every handler passes the rows that it has just read; an empty list is read again.
unfoldable pub check_permissions_or_throw :
    List Role
    → Uuid
    → Uuid
    → List PermissionField
    → String
    → List RepairOrderStatusPermission
    → Db
    → Result (Unit {0})
unfolding check_matched
check_permissions_or_throw roles branch_id status_id fields location [] db =
    check_matched fields location
      (find (λ p. p.status_id == status_id) (find_by_roles_and_branch roles branch_id db))
check_permissions_or_throw roles branch_id status_id fields location (p ∷ permissions) db =
    check_matched fields location (find (λ p. p.status_id == status_id) (p ∷ permissions))
