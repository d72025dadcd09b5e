-- ===== src/Branches/Tests.antt =====
-- Visible and writable branches at small tables.
use procare_backend.Common.{
  ℕ, Uuid, ◌≡◌, ◌||◌, ◌&&◌, ◌==◌, true, false, Option, none, some, [], ◌∷◌, includes,
}
use procare_backend.Common.Text.{codes}
use procare_backend.Branches.{
  courier, AdminPayload, Branch, BranchTables, mother_branch_id, get_visible_branch_ids,
  get_writable_branch_ids,
}
use procare_backend.Branches.Access.{
  is_child, is_assigned, is_unrestricted, has_child, includes-get_visible_branch_ids,
  includes-get_writable_branch_ids,
}

abbrev pub courier_admin : AdminPayload
courier_admin = record {
  id = 7;
  roles = record { id = 3; name = codes "Courier"; type = some courier } ∷ [];
}

abbrev branch : Uuid → Option Uuid → ℕ → Branch
branch id parent sort = record {
  id = id;
  parent_branch_id = parent;
  is_open = true;
  is_active = true;
  sort = sort;
}

abbrev pub tables : BranchTables
tables = record {
  branches =
      branch mother_branch_id none 1
      ∷ branch 1 (some mother_branch_id) 3
      ∷ branch 2 (some mother_branch_id) 2
      ∷ [];
  admin_branches = (7, 1) ∷ [];
}

includes-get_visible_branch_ids_example :
    includes 1 (get_visible_branch_ids courier_admin tables) ≡ (
      1 == mother_branch_id
        && (is_unrestricted courier_admin tables || has_child courier_admin tables)
      || (is_child 1 tables && (is_unrestricted courier_admin tables || is_assigned 7 1 tables)))
includes-get_visible_branch_ids_example = includes-get_visible_branch_ids courier_admin 1 tables

includes-get_writable_branch_ids_example :
    includes 2 (get_writable_branch_ids courier_admin false tables)
    ≡ (is_child 2 tables && (is_unrestricted courier_admin tables || is_assigned 7 2 tables))
includes-get_writable_branch_ids_example = includes-get_writable_branch_ids courier_admin 2 tables
