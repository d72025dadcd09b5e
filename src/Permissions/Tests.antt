-- ===== src/Permissions/Tests.antt =====
-- A permission check that passes, at small tables.
use procare_backend.Common.{◌≡◌, refl, true, some, List, [], ◌∷◌}
use procare_backend.Common.Text.{codes}
use procare_backend.Common.Sorting.{order_by}
use procare_backend.Branches.{operator, Role, mother_branch_id}
use procare_backend.Database.{open_type, can_update, can_delete, Db}
use procare_backend.Permissions.{is_granted, find_by_roles_and_branch, check_permissions_or_throw}
use procare_backend.Permissions.Soundness.{has_grant, check_permissions_or_throw_sound}

abbrev roles : List Role
roles = record { id = 3; name = codes "Operator"; type = some operator } ∷ []

abbrev db : Db
db = record {
  branch_tables = record {
    branches =
        record {
          id = 1;
          parent_branch_id = some mother_branch_id;
          is_open = true;
          is_active = true;
          sort = 1;
        }
        ∷ [];
    admin_branches = [];
  };
  roles = record { id = 3; is_open = true; is_active = true; type = some operator } ∷ [];
  statuses =
      record {
        id = 10;
        branch_id = mother_branch_id;
        type = some open_type;
        is_active = true;
        is_protected = true;
        is_open = true;
        sort = 1;
      }
      ∷ [];
  permissions = record { branch_id = 1; status_id = 10; role_id = 3; allows = λ f. true } ∷ [];
  transitions = [];
  orders = [];
  rentals = [];
  service_forms = [];
  assignments = [];
  histories = [];
  reject_causes = [];
  admins = [];
}

check_permissions_or_throw_sound_example :
    has_grant roles 1 10 (can_update ∷ can_delete ∷ []) db ≡ true
unfolding check_permissions_or_throw find_by_roles_and_branch order_by is_granted
check_permissions_or_throw_sound_example =
    check_permissions_or_throw_sound roles 1 10 (can_update ∷ can_delete ∷ []) "order" db tt refl
