-- ===== src/Orders/Handlers/BranchMoves.antt =====
-- `restoreToMother` keeps every column of the board contiguous; `take` leaves a hole.
use procare_backend.Common.{
  Uuid, ◌-◌, ◌<◌, ◌≡◌, ◌∙◌, ◌≢◌, ◌⊎◌, inl, inr, true, ◌&&◌, some, List, ltb, arith,
}
use procare_backend.Common.Result.{ok}
use procare_backend.Branches.{AdminPayload, mother_branch_id, is_mother_branch}
use procare_backend.Database.{Db}
use procare_backend.Orders.{RepairOrder}
use procare_backend.Orders.Board.{in_column, close_gap}
use procare_backend.Orders.Board.Counting.{size}
use procare_backend.Orders.Board.Rows.{size-resort, occurrences-resort}
use procare_backend.Orders.Board.Contiguity.{
  IsContiguous, IsRow, sort_bounds, close_gap-IsContiguousBut,
}
use procare_backend.Orders.Board.Columns.{
  IsBoard, find_open, find_open-IsRow, column_cases, resort-IsContiguous_other, resort-IsRow,
}
use procare_backend.Orders.Handlers.{take, put_on_top_of_branch, restore_to_mother}
use procare_backend.Orders.Handlers.Effects.{orders-take, orders-restore_to_mother}
use procare_backend.Orders.Handlers.TopOfBranch.{
  put_on_top-occurrences, put_on_top-IsContiguous_target, put_on_top-IsContiguous_other,
  put_on_top-IsContiguous_old, put_on_top-at_sort, put_on_top-size,
}

restore_rows-IsBoard :
    (rows : List RepairOrder)
    → IsBoard rows
    → (o : RepairOrder) → IsRow rows o
    → in_column o.branch_id o.status_id o ≡ true
    → mother_branch_id ≢ o.branch_id
    → size mother_branch_id o.status_id rows < 999999
    → IsBoard (put_on_top_of_branch mother_branch_id o (close_gap o rows))
unfolding close_gap in_column
restore_rows-IsBoard rows board o row live away small =
    let p = λ (r : RepairOrder). in_column o.branch_id o.status_id r && ltb o.sort r.sort in
    let closed = close_gap o rows in
    let row' = resort-IsRow p (λ r. r.sort - 1) rows o (ground arith) row in
    record {
      unique = λ i.
          rw
            (put_on_top-occurrences closed o row' live mother_branch_id away i
              ∙ occurrences-resort p (λ r. r.sort - 1) i rows)
            (board.unique i);
      contiguous = λ b s. elim (column_cases b s o.branch_id o.status_id) [
        | inl (same_b, same_s) ↦
            rw (same_b, same_s)
              (put_on_top-IsContiguous_old closed o row' live mother_branch_id away
                (close_gap-IsContiguousBut rows o row live (board.contiguous _ _)))
        | inr not_old ↦
            let kept =
              resort-IsContiguous_other p (λ r. r.sort - 1) rows b s (λ r h. ground arith)
                (board.contiguous b s) in
            elim (column_cases b s mother_branch_id o.status_id) [
              | inl (same_b, same_s) ↦
                  rw (same_b, same_s)
                    (put_on_top-IsContiguous_target closed o row' live mother_branch_id away
                      (resort-IsContiguous_other p (λ r. r.sort - 1) rows mother_branch_id
                        o.status_id (λ r h. ground arith) (board.contiguous _ _))
                      (rw (size-resort p (λ r. r.sort - 1) mother_branch_id o.status_id rows)
                        small))
              | inr not_target ↦
                  put_on_top-IsContiguous_other closed o row' live mother_branch_id away b s
                    not_target not_old kept
            ]
      ];
    }

-- After a successful `restoreToMother`, ids are unique and every column of the board is contiguous,
-- if they were so before and the Mother Branch column that the order comes back to has fewer than
-- 999999 orders.
pub restore_to_mother-IsBoard :
    (db db' : Db) (o : RepairOrder) (order_id : Uuid) (admin : AdminPayload)
    → IsBoard db.orders
    → find_open order_id db.orders ≡ some o
    → size mother_branch_id o.status_id db.orders < 999999
    → restore_to_mother order_id admin db ≡ ok db'
    → IsBoard db'.orders
unfolding is_mother_branch
restore_to_mother-IsBoard db db' o order_id admin board found small e =
    let (row, same, live) = find_open-IsRow order_id db.orders o board found in
    let (orders, away, taken) = orders-restore_to_mother db db' o order_id admin found e in
    rw orders (restore_rows-IsBoard db.orders board o row live (ground arith) small)

-- A successful `take` of an order that is not the last of its Mother Branch column leaves that
-- column with a hole, on any board with unique ids and contiguous columns.
pub take-leaves_hole :
    (db db' : Db) (o : RepairOrder) (order_id target : Uuid) (admin : AdminPayload)
    → IsBoard db.orders
    → find_open order_id db.orders ≡ some o
    → target ≢ mother_branch_id
    → o.sort < size mother_branch_id o.status_id db.orders
    → take order_id target admin db ≡ ok db'
    → ¬ IsContiguous db'.orders mother_branch_id o.status_id
take-leaves_hole db db' o order_id target admin board found away behind e =
    let (row, same, live) = find_open-IsRow order_id db.orders o board found in
    let (orders, mother) = orders-take db db' o order_id admin found target e in
    let home : o.branch_id ≡ mother_branch_id = unfold is_mother_branch in ground arith in
    let old = board.contiguous o.branch_id o.status_id in
    λ c.
      let after = put_on_top-at_sort db.orders o row live target (λ d. away (d ∙ home)) o.sort in
      let smaller = put_on_top-size db.orders o row live target (λ d. away (d ∙ home)) in
      let bounds = sort_bounds db.orders row live old in
      let c' = (rw orders at c).one_each (o.sort - 1) in
      ground (arith, bounds, home, after, smaller, old.one_each (o.sort - 1), c')

-- After a successful `take` every other column is contiguous, the one that the order comes to
-- among them, if the board was contiguous with unique ids and that column has fewer than 999999
-- orders.
pub take-IsContiguous :
    (db db' : Db) (o : RepairOrder) (order_id target : Uuid) (admin : AdminPayload)
    → IsBoard db.orders
    → find_open order_id db.orders ≡ some o
    → target ≢ mother_branch_id
    → size target o.status_id db.orders < 999999
    → take order_id target admin db ≡ ok db'
    → (b s : Uuid) → (b ≢ mother_branch_id) ⊎ (s ≢ o.status_id)
    → IsContiguous db'.orders b s
take-IsContiguous db db' o order_id target admin board found away small e b s other =
    let (row, same, live) = find_open-IsRow order_id db.orders o board found in
    let (orders, mother) = orders-take db db' o order_id admin found target e in
    let home : o.branch_id ≡ mother_branch_id = unfold is_mother_branch in ground arith in
    let away' : target ≢ o.branch_id = λ d. away (d ∙ home) in
    rw orders (elim (column_cases b s target o.status_id) [
      | inl (same_b, same_s) ↦
          rw (same_b, same_s)
            (put_on_top-IsContiguous_target db.orders o row live target away' (board.contiguous _ _)
              small)
      | inr not_target ↦
          put_on_top-IsContiguous_other db.orders o row live target away' b s not_target
            (rw home other) (board.contiguous b s)
    ])
