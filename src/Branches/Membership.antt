-- ===== src/Branches/Membership.antt =====
-- src/branches/branches.service.ts: `assignAdmins` and `removeAdmins`, with the history of the links
-- (src/history/history.service.ts: `recordRelationChanged`), here the kind of the action, both rows
-- and the administrator. The cached lists that they flush
-- and the foreign keys of `admin_branches` are left out: BranchExistGuard stands before both.
mod Tests
pub mod RoundTrip
pub mod Rights
use procare_backend.Common.{
  ℕ, Uuid, Bool, true, false, not, ◌&&◌, Option, List, [], ◌∷◌, ◌++◌, map, select_where,
  delete_where, any, includes, length, ◌==◌,
}
use procare_backend.Common.Result.{Result, ok, bad_request, not_found, guard, ◌>>=◌, ◌>>◌}
use procare_backend.Branches.{BranchTables, unique}

-- `is_open` is `status = 'Open'`
pub record AdminRow : Type 0 where
  pub id : Uuid
  pub is_open : Bool
  pub is_active : Bool

pub data LinkKind : Type 0 where
  link unlink : LinkKind

pub record LinkEvent : Type 0 where
  pub action_kind : LinkKind
  pub actor : Option Uuid
  pub from : Uuid
  pub to : Uuid

pub record Membership : Type 0 where
  pub admins : List AdminRow
  pub tables : BranchTables
  pub events : List LinkEvent

abbrev pub link_events : LinkKind → Option Uuid → Uuid → List Uuid → List LinkEvent
link_events kind actor branch_id admin_ids =
    map (λ id. record { action_kind = kind; actor = actor; from = branch_id; to = id }) admin_ids

-- `whereIn('admin_id', adminIds).andWhere('branch_id', branchId)`
unfoldable pub is_listed : Uuid → List Uuid → Uuid × Uuid → Bool
is_listed branch_id admin_ids row = includes row.0 admin_ids && row.1 == branch_id

-- The administrators that may be assigned.
unfoldable pub is_valid_admin : List Uuid → AdminRow → Bool
is_valid_admin admin_ids a = includes a.id admin_ids && (a.is_open && a.is_active)

abbrev pub insert_rows : Uuid → List Uuid → List (Uuid × Uuid)
insert_rows branch_id admin_ids = map (λ id. (id, branch_id)) admin_ids

-- The tables with other rows in `admin_branches`.
abbrev pub with_admin_branches : List (Uuid × Uuid) → List LinkEvent → Membership → Membership
with_admin_branches rows new_events s = record s {
  tables = record (s.tables) { admin_branches = rows };
  events = s.events ++ new_events;
}

abbrev pub are_valid : List Uuid → List AdminRow → Bool
are_valid admin_ids admins =
    length (select_where (is_valid_admin admin_ids) admins) == length admin_ids

abbrev pub are_distinct : List Uuid → Bool
are_distinct admin_ids = length (unique admin_ids) == length admin_ids

unfoldable pub assign_admins : Uuid → List Uuid → Option Uuid → Membership → Result Membership
unfolding unique is_listed is_valid_admin
assign_admins branch_id admin_ids actor s = do
  guard (are_valid admin_ids s.admins) (not_found "admin_ids")
  guard (are_distinct admin_ids) (bad_request "admin_ids")
  guard (not (any (is_listed branch_id (unique admin_ids)) s.tables.admin_branches))
      (bad_request "admin_ids")
  ok (
      with_admin_branches (s.tables.admin_branches ++ insert_rows branch_id (unique admin_ids))
        (link_events link actor branch_id (unique admin_ids)) s)

unfoldable pub remove_admins : Uuid → List Uuid → Option Uuid → Membership → Result Membership
unfolding is_listed
remove_admins branch_id admin_ids actor s = do
  let existing = select_where (is_listed branch_id admin_ids) s.tables.admin_branches
  guard (not (length existing == 0)) (not_found "admin_ids")
  ok (
      with_admin_branches (delete_where (is_listed branch_id admin_ids) s.tables.admin_branches)
        (link_events unlink actor branch_id (map (λ row. row.0) existing)) s)
