-- ===== src/StatusTransitions/Tests.antt =====
-- The default transitions of a status are replaced.
use procare_backend.Common.{Uuid, true, false, none, some, [], ◌∷◌}
use procare_backend.Common.Result.{Result, ok, err}
use procare_backend.Branches.{mother_branch_id}
use procare_backend.Database.{open_type, RepairOrderStatus, Db}
use procare_backend.StatusTransitions.{transition, create}

abbrev status : Uuid → RepairOrderStatus
status id = record {
  id = id;
  branch_id = mother_branch_id;
  type = some open_type;
  is_active = true;
  is_protected = false;
  is_open = true;
  sort = id;
}

abbrev db : Db
db = record {
  branch_tables = record { branches = []; admin_branches = [] };
  roles = [];
  statuses = status 10 ∷ status 11 ∷ status 12 ∷ [];
  permissions = [];
  transitions = transition 10 none 12 ∷ transition 11 none 12 ∷ [];
  orders = [];
  rentals = [];
  service_forms = [];
  assignments = [];
  histories = [];
  reject_causes = [];
  admins = [];
}

abbrev after : Result Db → Db
after (ok d) = d
after (err e) = db

abbrev replaced : Db
replaced = after (create 10 (11 ∷ []) none db)
