-- ===== src/Branches.antt =====
-- src/branches/branch-hierarchy.service.ts: which branches an administrator sees and may write to.
-- The tables `branches` and `admin_branches` are lists; a query keeps the order of its table where
-- it has no ORDER BY.
mod Tests
pub mod Access
pub mod Membership
use procare_backend.Common.{
  ℕ, Uuid, Bool, true, false, ◌&&◌, ◌||◌, Option, none, some, List, [], ◌∷◌, map, select_where,
  find, any, includes, ◌==◌, if◌then◌else◌,
}
use procare_backend.Common.Sorting.{order_by}
use procare_backend.Common.Text.{Text, codes, text_eq, trim, to_lower}
use procare_backend.Common.Result.{Result, ok, err, forbidden, guard, ◌>>◌}

-- src/common/types/role-type.enum.ts
pub data RoleType : Type 0 where
  super_admin operator specialist master courier : RoleType

-- src/common/types/admin-payload.interface.ts
pub record Role : Type 0 where
  pub id : Uuid
  pub name : Text
  pub type : Option RoleType

pub record AdminPayload : Type 0 where
  pub id : Uuid
  pub roles : List Role

-- src/common/types/branch.interface.ts; `is_open` is `status = 'Open'`
pub record Branch : Type 0 where
  pub id : Uuid
  pub parent_branch_id : Option Uuid
  pub is_open : Bool
  pub is_active : Bool
  pub sort : ℕ

pub record BranchTables : Type 0 where
  pub branches : List Branch
  -- `admin_branches`: the administrator and the branch
  pub admin_branches : List (Uuid × Uuid)

-- '00000000-0000-4000-8000-000000000000'
abbrev pub mother_branch_id : Uuid
mother_branch_id = 0x40008000000000000000

unfoldable pub is_mother_branch : Uuid → Bool
is_mother_branch branch_id = branch_id == mother_branch_id

abbrev is_super_type : Option RoleType → Bool
is_super_type (some super_admin) = true
is_super_type _ = false

unfoldable pub is_super_admin : AdminPayload → Bool
is_super_admin admin =
    any (λ r. is_super_type r.type || text_eq (to_lower (trim r.name)) (codes "super admin"))
      admin.roles

abbrev pub is_parent : Option Uuid → Uuid → Bool
is_parent none id = false
is_parent (some p) id = p == id

unfoldable pub is_live_child : Branch → Bool
is_live_child b = is_parent b.parent_branch_id mother_branch_id && b.is_open && b.is_active

unfoldable pub get_child_branch_ids : BranchTables → List Uuid
unfolding is_live_child
get_child_branch_ids t =
    map (λ b. b.id) (order_by (λ (b : Branch). b.sort) (select_where is_live_child t.branches))

-- `admin_branches` joined with the live branches
unfoldable pub get_admin_assigned_branch_ids : Uuid → BranchTables → List Uuid
get_admin_assigned_branch_ids admin_id t =
    map (λ p. p.1)
      (select_where
        (λ p. p.0 == admin_id && any (λ b. b.id == p.1 && b.is_open && b.is_active) t.branches)
        t.admin_branches)

-- `[...new Set(ids)]`
unfoldable pub unique : List Uuid → List Uuid
unique [] = []
unique (x ∷ xs) = x ∷ select_where (λ y. if y == x then false else true) (unique xs)

abbrev pub is_empty : List Uuid → Bool
is_empty [] = true
is_empty (x ∷ xs) = false

unfoldable pub get_visible_branch_ids : AdminPayload → BranchTables → List Uuid
get_visible_branch_ids admin t =
    let child_ids = get_child_branch_ids t in
    let assigned_ids = get_admin_assigned_branch_ids admin.id t in
    let assigned_child_ids = select_where (λ id. includes id child_ids) assigned_ids in
    if is_super_admin admin
    then mother_branch_id ∷ child_ids
    else if includes mother_branch_id assigned_ids
    then mother_branch_id ∷ child_ids
    else if is_empty assigned_child_ids
    then []
    else unique (mother_branch_id ∷ assigned_child_ids)

unfoldable pub get_writable_branch_ids : AdminPayload → Bool → BranchTables → List Uuid
get_writable_branch_ids admin include_mother t =
    let child_ids = get_child_branch_ids t in
    let assigned_ids = get_admin_assigned_branch_ids admin.id t in
    let all_ids = if include_mother then mother_branch_id ∷ child_ids else child_ids in
    if is_super_admin admin
    then all_ids
    else if includes mother_branch_id assigned_ids
    then all_ids
    else select_where (λ id. includes id child_ids) assigned_ids

unfoldable pub assert_visible_branch : AdminPayload → Uuid → BranchTables → Result (Unit {0})
assert_visible_branch admin branch_id t =
    guard (includes branch_id (get_visible_branch_ids admin t)) (forbidden "branch_id")

unfoldable pub assert_writable_branch :
    AdminPayload → Uuid → Bool → BranchTables → Result (Unit {0})
assert_writable_branch admin branch_id include_mother t =
    guard (includes branch_id (get_writable_branch_ids admin include_mother t))
      (forbidden "branch_id")

unfoldable pub assert_child_branch : Uuid → BranchTables → Result (Unit {0})
unfolding is_live_child
assert_child_branch branch_id t =
    guard (any (λ b. b.id == branch_id && is_live_child b) t.branches) (forbidden "branch_id")
