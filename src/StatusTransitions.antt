-- ===== src/StatusTransitions.antt =====
-- src/repair-order-status-transitions/repair-order-status-transitions.service.ts, `create`: the
-- transitions of a status for one role, or the default ones, are replaced. The status that
-- `getOrLoadStatusById` (repair-order-statuses.service.ts) reads is taken from the table.
mod Tests
pub mod Replacement
use procare_backend.Common.{
  ℕ, Uuid, Bool, true, false, not, ◌&&◌, Option, none, some, List, [], ◌∷◌, ◌++◌, map, find, any,
  includes, delete_where, is_some, ◌==◌, if◌then◌else◌,
}
use procare_backend.Common.Result.{Result, ok, err, bad_request, guard, ◌>>=◌, ◌>>◌}
use procare_backend.Database.{RepairOrderStatus, RoleRow, StatusTransition, Db}

unfoldable pub get_or_load_status_by_id : Uuid → Db → Result RepairOrderStatus
get_or_load_status_by_id status_id db =
    elim (find (λ (s : RepairOrderStatus). s.id == status_id && s.is_open) db.statuses) [
      | none ↦ err (bad_request "status_id")
      | some s ↦ ok s
    ]

-- The roles that may have transitions of their own; `none` is no role.
unfoldable pub is_valid_role : Option Uuid → Db → Bool
is_valid_role none db = true
is_valid_role (some role_id) db = any (λ (r : RoleRow). r.id == role_id && r.is_open) db.roles

unfoldable pub is_valid_target : Uuid → Db → Uuid → Bool
is_valid_target branch_id db id =
    any (λ (s : RepairOrderStatus). s.id == id && (s.branch_id == branch_id && s.is_open))
      db.statuses

-- The loop over `to_status_ids`.
unfoldable pub are_valid_targets : Uuid → List Uuid → Db → Bool
are_valid_targets branch_id [] db = true
are_valid_targets branch_id (id ∷ ids) db =
    is_valid_target branch_id db id && are_valid_targets branch_id ids db

abbrev pub same_role : Option Uuid → Option Uuid → Bool
same_role none none = true
same_role (some a) (some b) = a == b
same_role _ _ = false

abbrev pub transition : Uuid → Option Uuid → Uuid → StatusTransition
transition from_status_id role_id to_status_id = record {
  from_status_id = from_status_id;
  to_status_id = to_status_id;
  role_id = role_id;
}

-- The DELETE and the INSERT.
unfoldable pub replace_transitions :
    Uuid → Option Uuid → List Uuid → List StatusTransition → List StatusTransition
replace_transitions from_status_id role_id to_status_ids rows =
    delete_where
      (λ (t : StatusTransition). t.from_status_id == from_status_id && same_role t.role_id role_id)
      rows
    ++ map (transition from_status_id role_id) to_status_ids

unfoldable pub create : Uuid → List Uuid → Option Uuid → Db → Result Db
unfolding is_valid_role are_valid_targets replace_transitions
create from_status_id to_status_ids role_id db = do
  from_status ← get_or_load_status_by_id from_status_id db
  guard (is_valid_role role_id db) (bad_request "role_id")
  guard (are_valid_targets from_status.branch_id to_status_ids db) (bad_request "to_status_ids")
  ok (record db {
    transitions = replace_transitions from_status_id role_id to_status_ids db.transitions;
  })
