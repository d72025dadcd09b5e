-- ===== src/OrderProblems/Soundness.antt =====
-- Which requests `validateAndInsertProblems` accepts, and what it writes for them.
use procare_backend.Common.{Uuid, ◌≡◌, true, List, any, All, Some}
use procare_backend.Catalogue.Categories.{Mapping}
use procare_backend.OrderProblems.{ProblemWithParts, ProblemTables, submitted_ids, part_ids}
use procare_backend.OrderProblems.Paths.{IsPath}
use procare_backend.OrderProblems.Written.{AreAssigned}
use procare_backend.OrderProblems.Accepted.{is_live, AreSingle}

-- A step of the walk from the problem to its root is linked to the phone category.
abbrev pub IsLinked : Uuid → ProblemTables → Uuid → Type 0
IsLinked phone_id tables id =
    (steps : List Uuid) × IsPath tables.categories id steps
    × Some
        (λ (step : Uuid).
          Some (λ (m : Mapping). (m.phone_category_id ≡ phone_id) × (m.problem_category_id ≡ step))
            tables.mappings)
        steps

-- What a request has to be.
pub record IsAccepted (problems : List ProblemWithParts) (phone_id : Uuid) (tables : ProblemTables)
    : Type 0 where
  pub live : All (λ id. any (is_live id) tables.categories ≡ true) (submitted_ids problems)
  pub single_problems : AreSingle (submitted_ids problems)
  pub linked : All (IsLinked phone_id tables) (submitted_ids problems)
  pub assigned : All (AreAssigned tables.part_assignments) problems
  pub single_parts : AreSingle (part_ids problems)
