-- ===== src/OrderProblems/Tests.antt =====
-- A child of a problem that is linked to a phone category, with one part.
use procare_backend.Common.{
  ℕ, Uuid, ◌+◌, ◌≡◌, ap, sym, map, refl, true, none, some, Option, List, [], ◌∷◌, length,
}
use procare_backend.Branches.{mother_branch_id, super_admin}
use procare_backend.Common.Text.{codes}
use procare_backend.Common.Result.{Result, ok, ok-injective}
use procare_backend.Database.{Db, RepairOrderStatusPermission, can_change_initial_problems}
use procare_backend.Permissions.{check_permissions_or_throw}
use procare_backend.Catalogue.Categories.{Names, ProblemCategory}
use procare_backend.OrderProblems.{
  OrderPart, ProblemWithParts, initial_problems, problem_id_of, ProblemTables, Place, problem_path,
  validate_and_insert_problems,
}
use procare_backend.OrderProblems.Paths.{parents_first, IsPath, problem_path-IsPath}

abbrev names : Names
names = record { name_uz = []; name_ru = []; name_en = [] }

abbrev problem : Uuid → Option Uuid → ProblemCategory
problem id parent_id = record {
  id = id;
  names = names;
  parent_id = parent_id;
  sort = id;
  is_open = true;
  is_active = true;
}

abbrev categories : List ProblemCategory
categories = problem 10 none ∷ problem 11 (some 10) ∷ []

abbrev tables : ProblemTables
tables = record {
  categories = categories;
  mappings = record { phone_category_id = 3; problem_category_id = 10 } ∷ [];
  part_assignments = (20, 11) ∷ [];
  order_problems = [];
  order_parts = [];
}

abbrev permission : RepairOrderStatusPermission
permission = record {
  branch_id = mother_branch_id;
  status_id = 10;
  role_id = 3;
  allows = λ f. true;
}

abbrev place : Place
place = record {
  admin = record {
    id = 7;
    roles = record { id = 3; name = codes "Super Admin"; type = some super_admin } ∷ [];
  };
  status_id = 10;
  branch_id = mother_branch_id;
  order_id = 100;
  permissions = permission ∷ [];
  permission_key = can_change_initial_problems ∷ [];
  location = "initial_problems";
  table = initial_problems;
}

abbrev db : Db
db = record {
  branch_tables = record { branches = []; admin_branches = [] };
  roles = [];
  statuses = [];
  permissions = [];
  transitions = [];
  orders = [];
  rentals = [];
  service_forms = [];
  assignments = [];
  histories = [];
  reject_causes = [];
  admins = [];
}

abbrev request : ProblemWithParts
request = record {
  problem_category_id = 11;
  price = 90;
  estimated_minutes = 30;
  parts = record { id = 20; part_price = 40; quantity = 1 } ∷ [];
}

abbrev new_id : ℕ → Uuid
new_id k = k + 1000

-- The request of this file succeeds.
abbrev inserted : Result ProblemTables
inserted = validate_and_insert_problems (request ∷ []) (some 3) new_id place db tables

parts_inserted :
    (t : ProblemTables)
    → inserted ≡ ok t
    → map (λ (r : OrderPart). r.repair_part_id) t.order_parts ≡ 20 ∷ []
unfolding validate_and_insert_problems check_permissions_or_throw problem_id_of
parts_inserted t e =
    ap (λ (x : ProblemTables). map (λ (r : OrderPart). r.repair_part_id) x.order_parts)
      (sym (ok-injective e))

problem_path-IsPath_example : IsPath categories 11 (problem_path (length categories) categories 11)
unfolding parents_first
problem_path-IsPath_example = problem_path-IsPath categories 11 refl
