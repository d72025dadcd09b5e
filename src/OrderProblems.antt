-- ===== src/OrderProblems.antt =====
-- src/common/utils/problem.util.ts: `validateAndInsertProblems`, the problems of a repair order with
-- their parts. `none` for an id of a new row does not occur: every problem is inserted first.
-- The problems are inserted before the parts are checked, in the transaction of the caller, which a
-- thrown exception rolls back. The recursive query walks from a problem to its ancestors; here it has fuel.
pub mod Paths
pub mod Written
pub mod Accepted
pub mod Soundness
mod Tests
use procare_backend.Common.{
  String, ℕ, Uuid, suc, zero, ◌+◌, Bool, true, false, not, ◌&&◌, ◌||◌, Option, none, some, List, [],
  ◌∷◌, ◌++◌, map, find, any, select_where, includes, length, ◌==◌, if◌then◌else◌,
}
use procare_backend.Common.Result.{Result, ok, err, bad_request, guard, ◌>>=◌, ◌>>◌}
use procare_backend.Branches.{AdminPayload}
use procare_backend.Database.{PermissionField, RepairOrderStatusPermission, Db}
use procare_backend.Permissions.{check_permissions_or_throw}
use procare_backend.Catalogue.Categories.{ProblemCategory, Mapping, is_link_of}

pub record PartDto : Type 0 where
  pub id : Uuid
  pub part_price : ℕ
  pub quantity : ℕ

-- src/common/types/problem-with-parts.ts; no parts are the empty list.
pub record ProblemWithParts : Type 0 where
  pub problem_category_id : Uuid
  pub price : ℕ
  pub estimated_minutes : ℕ
  pub parts : List PartDto

-- The tables `repair_order_initial_problems` and `repair_order_final_problems`.
pub data ProblemTable : Type 0 where
  initial_problems final_problems : ProblemTable

pub record OrderProblem : Type 0 where
  pub id : Uuid
  pub table : ProblemTable
  pub repair_order_id : Uuid
  pub problem_category_id : Uuid
  pub price : ℕ
  pub estimated_minutes : ℕ
  pub created_by : Uuid

pub record OrderPart : Type 0 where
  pub repair_order_id : Uuid
  pub repair_order_initial_problem_id : Option Uuid
  pub repair_order_final_problem_id : Option Uuid
  pub repair_part_id : Uuid
  pub part_price : ℕ
  pub quantity : ℕ
  pub created_by : Uuid

pub record ProblemTables : Type 0 where
  pub categories : List ProblemCategory
  pub mappings : List Mapping
  -- `repair_part_assignments`: the part and the problem category
  pub part_assignments : List (Uuid × Uuid)
  pub order_problems : List OrderProblem
  pub order_parts : List OrderPart

abbrev pub has_id : Uuid → ProblemCategory → Bool
has_id id p = p.id == id

-- The ids that the recursive query has for one start.
unfoldable pub problem_path : ℕ → List ProblemCategory → Uuid → List Uuid
problem_path zero categories id = []
problem_path (suc fuel) categories id = elim (find (has_id id) categories) [
  | none ↦ []
  | some p ↦ p.id ∷ elim p.parent_id [ none ↦ [] | some up ↦ problem_path fuel categories up ]
]

abbrev pub submitted_ids : List ProblemWithParts → List Uuid
submitted_ids = map (λ p. p.problem_category_id)

abbrev pub is_usable : List Uuid → ProblemCategory → Bool
is_usable ids p = includes p.id ids && (p.is_open && p.is_active)

-- A problem, or one of its ancestors, is linked to the phone category.
unfoldable pub is_allowed : Uuid → ProblemTables → Uuid → Bool
unfolding problem_path
is_allowed phone_id tables id =
    any (λ step. any (λ m. is_link_of phone_id m && m.problem_category_id == step) tables.mappings)
      (problem_path (length tables.categories) tables.categories id)

-- `every`
abbrev pub every {ℓ} : {A : Type ℓ} → (A → Bool) → List A → Bool
every p [] = true
every p (x ∷ xs) = p x && every p xs

-- The rows of the INSERT; `new_id k` is the default id of the k-th.
unfoldable pub problem_rows :
    ProblemTable → Uuid → Uuid → (ℕ → Uuid) → ℕ → List ProblemWithParts → List OrderProblem
problem_rows table order_id admin_id new_id k [] = []
problem_rows table order_id admin_id new_id k (p ∷ problems) =
    record {
      id = new_id k;
      table = table;
      repair_order_id = order_id;
      problem_category_id = p.problem_category_id;
      price = p.price;
      estimated_minutes = p.estimated_minutes;
      created_by = admin_id;
    }
    ∷ problem_rows table order_id admin_id new_id (suc k) problems

-- `problemCategoryToIdMap[id]`: of two entries the last one counts.
unfoldable pub problem_id_of : Uuid → List OrderProblem → Option Uuid
problem_id_of category_id [] = none
problem_id_of category_id (r ∷ rows) = elim (problem_id_of category_id rows) [
  | some id ↦ some id
  | none ↦ if r.problem_category_id == category_id then some r.id else none
]

abbrev pub part_ids : List ProblemWithParts → List Uuid
part_ids [] = []
part_ids (p ∷ problems) = map (λ (t : PartDto). t.id) p.parts ++ part_ids problems

-- An id stands twice in the list.
unfoldable pub has_duplicates : List Uuid → Bool
has_duplicates [] = false
has_duplicates (id ∷ ids) = includes id ids || has_duplicates ids

abbrev pub is_assigned : Uuid → List (Uuid × Uuid) → PartDto → Bool
is_assigned category_id assignments t =
    any (λ (a : Uuid × Uuid). a.0 == t.id && a.1 == category_id) assignments

abbrev pub parts_are_assigned : List (Uuid × Uuid) → ProblemWithParts → Bool
parts_are_assigned assignments p = every (is_assigned p.problem_category_id assignments) p.parts

abbrev pub when_initial : ProblemTable → Option Uuid → Option Uuid
when_initial initial_problems id = id
when_initial final_problems id = none

abbrev pub when_final : ProblemTable → Option Uuid → Option Uuid
when_final initial_problems id = none
when_final final_problems id = id

abbrev pub part_row :
    ProblemTable → Uuid → Uuid → List OrderProblem → ProblemWithParts → PartDto → OrderPart
part_row table order_id admin_id inserted p t = record {
  repair_order_id = order_id;
  repair_order_initial_problem_id =
      when_initial table (problem_id_of p.problem_category_id inserted);
  repair_order_final_problem_id = when_final table (problem_id_of p.problem_category_id inserted);
  repair_part_id = t.id;
  part_price = t.part_price;
  quantity = t.quantity;
  created_by = admin_id;
}

unfoldable pub part_rows :
    ProblemTable → Uuid → Uuid → List OrderProblem → List ProblemWithParts → List OrderPart
part_rows table order_id admin_id inserted [] = []
part_rows table order_id admin_id inserted (p ∷ problems) =
    map (part_row table order_id admin_id inserted p) p.parts
    ++ part_rows table order_id admin_id inserted problems

-- The checks of the parts; without parts there are none.
unfoldable pub check_parts : String → List ProblemWithParts → List (Uuid × Uuid) → Result (Unit {0})
unfolding has_duplicates
check_parts location problems assignments = do
  guard (not (has_duplicates (part_ids problems))) (bad_request location)
  guard (every (parts_are_assigned assignments) problems) (bad_request location)

abbrev pub check_phone_category : String → Option Uuid → Result Uuid
check_phone_category location none = err (bad_request location)
check_phone_category location (some id) = ok id

unfoldable pub insert_problems :
    ProblemTable → Uuid → Uuid → (ℕ → Uuid) → List ProblemWithParts → ProblemTables → ProblemTables
unfolding problem_rows part_rows
insert_problems table order_id admin_id new_id problems tables =
    let inserted = problem_rows table order_id admin_id new_id 0 problems in
    record tables {
      order_problems = tables.order_problems ++ inserted;
      order_parts = tables.order_parts ++ part_rows table order_id admin_id inserted problems;
    }

-- Where the checks of one request are made, and what they are called.
pub record Place : Type 0 where
  pub admin : AdminPayload
  pub status_id : Uuid
  pub branch_id : Uuid
  pub order_id : Uuid
  pub permissions : List RepairOrderStatusPermission
  pub permission_key : List PermissionField
  pub location : String
  pub table : ProblemTable

unfoldable pub check_problems :
    List ProblemWithParts → Option Uuid → Place → Db → ProblemTables → Result (Unit {0})
unfolding is_allowed check_parts
check_problems problems phone_category_id place db tables = do
  phone_id ← check_phone_category place.location phone_category_id
  check_permissions_or_throw place.admin.roles place.branch_id place.status_id place.permission_key
      place.location place.permissions db
  guard
      (length (select_where (is_usable (submitted_ids problems)) tables.categories)
        == length problems)
      (bad_request place.location)
  guard (every (is_allowed phone_id tables) (submitted_ids problems)) (bad_request place.location)
  check_parts place.location problems tables.part_assignments

unfoldable pub validate_and_insert_problems :
    List ProblemWithParts
    → Option Uuid
    → (ℕ → Uuid)
    → Place
    → Db
    → ProblemTables
    → Result ProblemTables
unfolding check_problems insert_problems
validate_and_insert_problems [] phone_category_id new_id place db tables = ok tables
validate_and_insert_problems (p ∷ problems) phone_category_id new_id place db tables = do
  check_problems (p ∷ problems) phone_category_id place db tables
  ok (insert_problems place.table place.order_id place.admin.id new_id (p ∷ problems) tables)
