-- ===== src/OrderProblems/Written.antt =====
-- The rows that `validateAndInsertProblems` writes.
use procare_backend.Common.{
  ℕ, Uuid, suc, ◌≡◌, refl, sym, ap, ◌∙◌, subst, inl, inr, true, false, Option, none, some, List, [],
  ◌∷◌, ◌++◌, map, includes, All, Memᴰ, ◌==◌, ==_iff, arith, Bool-cases,
}
use procare_backend.OrderProblems.{
  PartDto, ProblemWithParts, ProblemTable, initial_problems, final_problems, OrderProblem,
  OrderPart, ProblemTables, Place, submitted_ids, problem_rows, problem_id_of, part_row, part_rows,
  insert_problems,
}

-- The parts of all the problems, in their order.
abbrev pub parts_of : List ProblemWithParts → List PartDto
parts_of [] = []
parts_of (p ∷ problems) = p.parts ++ parts_of problems

-- The problem that a row of a part belongs to.
abbrev pub problem_of : ProblemTable → OrderPart → Option Uuid
problem_of initial_problems t = t.repair_order_initial_problem_id
problem_of final_problems t = t.repair_order_final_problem_id

-- The row is of this request.
abbrev pub IsProblemOf : Place → OrderProblem → Type 0
IsProblemOf place r =
    (r.table ≡ place.table) × (r.repair_order_id ≡ place.order_id) × (r.created_by ≡ place.admin.id)

-- The row is of this request, its problem is among the new ones, and its part is assigned to that.
abbrev pub IsPartOf : Place → List (Uuid × Uuid) → List OrderProblem → OrderPart → Type 0
IsPartOf place assignments rows t =
    (t.repair_order_id ≡ place.order_id)
    × (t.created_by ≡ place.admin.id)
    × ((r : OrderProblem) × Memᴰ r rows
        × (problem_of place.table t ≡ some r.id)
        × Memᴰ (t.repair_part_id, r.problem_category_id) assignments)

-- The request's problems and parts, and nothing else, are new in the tables.
pub record AreWritten (place : Place) (problems : List ProblemWithParts)
    (tables tables' : ProblemTables) : Type 0 where
  pub rows : List OrderProblem
  pub parts : List OrderPart
  pub others : tables' ≡ record tables {
    order_problems = tables.order_problems ++ rows;
    order_parts = tables.order_parts ++ parts;
  }
  pub categories : map (λ (r : OrderProblem). r.problem_category_id) rows ≡ submitted_ids problems
  pub prices :
      map (λ (r : OrderProblem). r.price) rows ≡ map (λ (p : ProblemWithParts). p.price) problems
  pub minutes :
      map (λ (r : OrderProblem). r.estimated_minutes) rows
      ≡ map (λ (p : ProblemWithParts). p.estimated_minutes) problems
  pub problems_of : All (IsProblemOf place) rows
  pub same_parts :
      map
        (λ (t : OrderPart). record {
          id = t.repair_part_id;
          part_price = t.part_price;
          quantity = t.quantity;
        })
        parts
      ≡ parts_of problems
  pub belong : All (IsPartOf place tables.part_assignments rows) parts

abbrev new_rows : Place → (ℕ → Uuid) → ℕ → List ProblemWithParts → List OrderProblem
new_rows place new_id k problems =
    problem_rows place.table place.order_id place.admin.id new_id k problems

rows-categories :
    (place : Place) (new_id : ℕ → Uuid) (k : ℕ) (problems : List ProblemWithParts)
    → map (λ (r : OrderProblem). r.problem_category_id) (new_rows place new_id k problems)
      ≡ submitted_ids problems
unfolding problem_rows
rows-categories place new_id k [] = refl
rows-categories place new_id k (p ∷ problems) =
    ap (λ l. p.problem_category_id ∷ l) (rows-categories place new_id (suc k) problems)

rows-prices :
    (place : Place) (new_id : ℕ → Uuid) (k : ℕ) (problems : List ProblemWithParts)
    → map (λ (r : OrderProblem). r.price) (new_rows place new_id k problems)
      ≡ map (λ (p : ProblemWithParts). p.price) problems
unfolding problem_rows
rows-prices place new_id k [] = refl
rows-prices place new_id k (p ∷ problems) =
    ap (λ l. p.price ∷ l) (rows-prices place new_id (suc k) problems)

rows-minutes :
    (place : Place) (new_id : ℕ → Uuid) (k : ℕ) (problems : List ProblemWithParts)
    → map (λ (r : OrderProblem). r.estimated_minutes) (new_rows place new_id k problems)
      ≡ map (λ (p : ProblemWithParts). p.estimated_minutes) problems
unfolding problem_rows
rows-minutes place new_id k [] = refl
rows-minutes place new_id k (p ∷ problems) =
    ap (λ l. p.estimated_minutes ∷ l) (rows-minutes place new_id (suc k) problems)

rows-All :
    (place : Place) (new_id : ℕ → Uuid) (k : ℕ) (problems : List ProblemWithParts)
    → All (IsProblemOf place) (new_rows place new_id k problems)
unfolding problem_rows
rows-All place new_id k [] = tt
rows-All place new_id k (p ∷ problems) =
    ((refl, refl, refl), rows-All place new_id (suc k) problems)

problem_id_of-none :
    (category_id : Uuid) (rows : List OrderProblem)
    → includes category_id (map (λ (r : OrderProblem). r.problem_category_id) rows) ≡ false
    → problem_id_of category_id rows ≡ none
unfolding problem_id_of
problem_id_of-none category_id [] e = refl
problem_id_of-none category_id (r ∷ rows) e =
    let later = problem_id_of-none category_id rows (ground (arith, e)) in
    let here : (r.problem_category_id == category_id) ≡ false = ground (arith, e) in
    rw (later, here) refl

-- The id of a problem that was inserted.
problem_id_of-found :
    (category_id : Uuid) (rows : List OrderProblem)
    → includes category_id (map (λ (r : OrderProblem). r.problem_category_id) rows) ≡ true
    → (r : OrderProblem) × Memᴰ r rows
      × (problem_id_of category_id rows ≡ some r.id)
      × (r.problem_category_id ≡ category_id)
unfolding problem_id_of
problem_id_of-found category_id [] e = cc
problem_id_of-found category_id (r ∷ rows) e =
    elim (Bool-cases
      (includes category_id (map (λ (r : OrderProblem). r.problem_category_id) rows))) [
        | inl later ↦
            let (q, at, found, same) = problem_id_of-found category_id rows later in
            (q, Memᴰ.tail at, rw found refl, same)
        | inr never ↦
            let here : (r.problem_category_id == category_id) ≡ true = ground (arith, e, never) in
            (
              r,
              Memᴰ.head refl,
              rw (problem_id_of-none category_id rows never, here) refl,
              (==_iff r.problem_category_id category_id).0 here,
            )
      ]

All-append {ℓ κ} :
    {A : Type ℓ} (P : A → Type κ) (xs ys : List A) → All P xs → All P ys → All P (xs ++ ys)
All-append P [] ys h k = k
All-append P (x ∷ xs) ys h k = (h.0, All-append P xs ys h.1 k)

map-append {ℓ κ} :
    {A : Type ℓ} {B : Type κ} (f : A → B) (xs ys : List A) → map f (xs ++ ys) ≡ map f xs ++ map f ys
map-append f [] ys = refl
map-append f (x ∷ xs) ys = ap (λ l. f x ∷ l) (map-append f xs ys)

-- Every part is assigned to its problem.
abbrev pub AreAssigned : List (Uuid × Uuid) → ProblemWithParts → Type 0
AreAssigned assignments p =
    All (λ (t : PartDto). Memᴰ (t.id, p.problem_category_id) assignments) p.parts

problem_of-part_row :
    (table : ProblemTable) (order_id admin_id : Uuid) (rows : List OrderProblem)
    (p : ProblemWithParts) (t : PartDto)
    → problem_of table (part_row table order_id admin_id rows p t)
      ≡ problem_id_of p.problem_category_id rows
problem_of-part_row initial_problems order_id admin_id rows p t = refl
problem_of-part_row final_problems order_id admin_id rows p t = refl

part_row-All :
    (place : Place) (assignments : List (Uuid × Uuid)) (rows : List OrderProblem)
    (p : ProblemWithParts) (parts : List PartDto)
    → includes p.problem_category_id (map (λ (r : OrderProblem). r.problem_category_id) rows) ≡ true
    → All (λ (t : PartDto). Memᴰ (t.id, p.problem_category_id) assignments) parts
    → All
        (IsPartOf place assignments rows)
        (map (part_row place.table place.order_id place.admin.id rows p) parts)
part_row-All place assignments rows p [] e h = tt
part_row-All place assignments rows p (t ∷ parts) e h =
    let (r, at, found, same) = problem_id_of-found p.problem_category_id rows e in
    (
      (
        refl,
        refl,
        (
          r,
          at,
          problem_of-part_row place.table place.order_id place.admin.id rows p t ∙ found,
          subst (λ (x : Uuid). Memᴰ (t.id, x) assignments) (sym same) h.0,
        ),
      ),
      part_row-All place assignments rows p parts e h.1,
    )

-- The problems of the request whose parts are still to be written are among those inserted.
part_rows-All :
    (place : Place) (assignments : List (Uuid × Uuid)) (rows : List OrderProblem)
    (problems : List ProblemWithParts)
    → All
        (λ (p : ProblemWithParts).
          includes p.problem_category_id (map (λ (r : OrderProblem). r.problem_category_id) rows)
          ≡ true)
        problems
    → All (AreAssigned assignments) problems
    → All
        (IsPartOf place assignments rows)
        (part_rows place.table place.order_id place.admin.id rows problems)
unfolding part_rows
part_rows-All place assignments rows [] e h = tt
part_rows-All place assignments rows (p ∷ problems) e h =
    All-append (IsPartOf place assignments rows)
      (map (part_row place.table place.order_id place.admin.id rows p) p.parts)
      (part_rows place.table place.order_id place.admin.id rows problems)
      (part_row-All place assignments rows p p.parts e.0 h.0)
      (part_rows-All place assignments rows problems e.1 h.1)

abbrev part_of : OrderPart → PartDto
part_of t = record { id = t.repair_part_id; part_price = t.part_price; quantity = t.quantity }

map-part_row :
    (place : Place) (rows : List OrderProblem) (p : ProblemWithParts) (parts : List PartDto)
    → map part_of (map (part_row place.table place.order_id place.admin.id rows p) parts) ≡ parts
map-part_row place rows p [] = refl
map-part_row place rows p (t ∷ parts) = ap (λ l. t ∷ l) (map-part_row place rows p parts)

map-part_rows :
    (place : Place) (rows : List OrderProblem) (problems : List ProblemWithParts)
    → map part_of (part_rows place.table place.order_id place.admin.id rows problems)
      ≡ parts_of problems
unfolding part_rows
map-part_rows place rows [] = refl
map-part_rows place rows (p ∷ problems) =
    map-append part_of (map (part_row place.table place.order_id place.admin.id rows p) p.parts)
      (part_rows place.table place.order_id place.admin.id rows problems)
    ∙ (ap
          (λ l.
            l ++ map part_of (part_rows place.table place.order_id place.admin.id rows problems))
          (map-part_row place rows p p.parts)
        ∙ ap (λ l. p.parts ++ l) (map-part_rows place rows problems))

-- Every problem of a list is in its list of ids, and in any list that has them.
all_included :
    (problems : List ProblemWithParts) (ids : List Uuid)
    → ((id : Uuid) → includes id (submitted_ids problems) ≡ true → includes id ids ≡ true)
    → All (λ (p : ProblemWithParts). includes p.problem_category_id ids ≡ true) problems
all_included [] ids h = tt
all_included (p ∷ problems) ids h = (
  h p.problem_category_id (ground arith),
  all_included problems ids (λ id e. h id (ground (arith, e))),
)

pub insert_problems-AreWritten :
    (place : Place) (new_id : ℕ → Uuid) (problems : List ProblemWithParts) (tables : ProblemTables)
    → All (AreAssigned tables.part_assignments) problems
    → AreWritten place problems tables
        (insert_problems place.table place.order_id place.admin.id new_id problems tables)
unfolding insert_problems
insert_problems-AreWritten place new_id problems tables assigned =
    let rows = new_rows place new_id 0 problems in
    let categories = rows-categories place new_id 0 problems in
    record {
      rows = rows;
      parts = part_rows place.table place.order_id place.admin.id rows problems;
      others = refl;
      categories = categories;
      prices = rows-prices place new_id 0 problems;
      minutes = rows-minutes place new_id 0 problems;
      problems_of = rows-All place new_id 0 problems;
      same_parts = map-part_rows place rows problems;
      belong =
          part_rows-All place tables.part_assignments rows problems
            (all_included problems (map (λ (r : OrderProblem). r.problem_category_id) rows)
              (λ id e. rw categories e))
            assigned;
    }
