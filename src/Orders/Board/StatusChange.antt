-- ===== src/Orders/Board/StatusChange.antt =====
-- `handleStatusChangeReordering` and `moveOrderToStatusAtTop` with the write of the row that follows
-- them keep the board.
use procare_backend.Common.{
  ℕ, Uuid, ◌+◌, ◌-◌, ◌≤◌, ◌<◌, ◌≡◌, refl, subst, ◌∙◌, ◌≢◌, inl, inr, true, ◌&&◌, Option, some, List,
  update_where, ltb, leb, ◌==◌, arith, Bool-cases,
}
use procare_backend.Orders.{RepairOrder}
use procare_backend.Orders.Board.{
  in_column, has_id, close_gap, make_room, sort_or_one, handle_status_change_reordering,
  move_to_top, push_down_above, move_order_to_status_at_top,
}
use procare_backend.Orders.Board.Counting.{at_sort, size}
use procare_backend.Orders.Board.Rows.{size-resort, occurrences-resort, occurrences-update_row}
use procare_backend.Orders.Board.Contiguity.{IsRow, close_gap-IsContiguousBut, vacate-IsContiguous}
use procare_backend.Orders.Board.Moves.{enter-IsContiguous}
use procare_backend.Orders.Board.Top.{move_to_top-IsContiguous}
use procare_backend.Orders.Board.Columns.{
  IsBoard, column_cases, resort-IsContiguous_other, resort-IsContiguousBut, resort-IsRow,
  update_row-IsContiguous_other, update_row-IsContiguous_same, rewritten-IsRow,
  move_to_top-IsContiguous_other, occurrences-move_to_top,
}

module _ (rows : List RepairOrder) (board : IsBoard rows) (o : RepairOrder) (row : IsRow rows o)
    (live : in_column o.branch_id o.status_id o ≡ true) (f : RepairOrder → RepairOrder)
    (keep : (r : RepairOrder) → (f r).id ≡ r.id) (target : Uuid)
    (lands : in_column o.branch_id target (f o) ≡ true) where
  -- The row goes to another status of its branch, at a position for which room was made.
  pub status_change-IsBoard :
      (sort : Option ℕ)
      → (target ≢ o.status_id)
      → (f o).sort ≡ sort_or_one sort
      → sort_or_one sort ≤ size o.branch_id target rows + 1
      → IsBoard (update_where (has_id o.id) f (handle_status_change_reordering o target sort rows))
  unfolding handle_status_change_reordering close_gap make_room in_column
  status_change-IsBoard sort away at_sort fits =
      let t = sort_or_one sort in
      let pos : 0 < t = ground arith in
      let up = λ (r : RepairOrder). in_column o.branch_id o.status_id r && ltb o.sort r.sort in
      let down = λ (r : RepairOrder). in_column o.branch_id target r && leb t r.sort in
      let closed = close_gap o rows in
      let roomy = make_room o.branch_id target t closed in
      let row1 = resort-IsRow up (λ r. r.sort - 1) rows o (ground arith) row in
      let row2 = resort-IsRow down (λ r. r.sort + 1) closed o (ground arith) row1 in
      let n = size-resort up (λ r. r.sort - 1) o.branch_id target rows in
      record {
        unique = λ i.
            rw
              (occurrences-update_row o.id f keep i roomy
                ∙ occurrences-resort down (λ r. r.sort + 1) i closed
                ∙ occurrences-resort up (λ r. r.sort - 1) i rows)
              (board.unique i);
        contiguous = λ b s. elim (column_cases b s o.branch_id o.status_id) [
          | inl (same_b, same_s) ↦
              rw (same_b, same_s)
                (vacate-IsContiguous roomy o f row2 live (ground arith) (
                  resort-IsContiguousBut down (λ r. r.sort + 1) closed o (λ r h. ground arith)
                    (close_gap-IsContiguousBut rows o row live (board.contiguous _ _))))
          | inr not_old ↦
              let kept =
                resort-IsContiguous_other up (λ r. r.sort - 1) rows b s (λ r h. ground arith)
                  (board.contiguous b s) in
              elim (column_cases b s o.branch_id target) [
                | inl (same_b, same_s) ↦
                    rw (same_b, same_s)
                      (enter-IsContiguous closed o row1 o.branch_id target (ground arith)
                        (resort-IsContiguous_other up (λ r. r.sort - 1) rows o.branch_id target
                          (λ r h. ground arith) (board.contiguous _ _))
                        f t lands at_sort pos (rw n fits))
                | inr not_target ↦
                    update_row-IsContiguous_other f roomy o row2 b s (ground arith) (ground arith) (
                      resort-IsContiguous_other down (λ r. r.sort + 1) closed b s
                        (λ r h. ground arith) kept)
              ]
        ];
      }

-- The row that `moveToTop` leaves.
pub topped-IsRow :
    (rows : List RepairOrder) (o : RepairOrder)
    → IsRow rows o
    → IsRow (move_to_top o rows) (record o { sort = 1 })
unfolding move_to_top push_down_above
topped-IsRow rows o row =
    let p = λ (r : RepairOrder). in_column o.branch_id o.status_id r && ltb r.sort o.sort in
    elim (Bool-cases (o.sort == 1)) [
      | inl first ↦
          let one : o.sort ≡ 1 = ground arith in
          rw first (subst (λ n. IsRow rows (record o { sort = n })) one row)
      | inr later ↦ rw later (
          rewritten-IsRow (push_down_above o rows) o (λ r. record r { sort = 1 }) (λ r. refl)
            (resort-IsRow p (λ r. r.sort + 1) rows o (ground arith) row))
    ]

pub move_to_top-IsBoard :
    (rows : List RepairOrder) (o : RepairOrder)
    → IsBoard rows
    → IsRow rows o
    → in_column o.branch_id o.status_id o ≡ true
    → IsBoard (move_to_top o rows)
move_to_top-IsBoard rows o board row live = record {
  unique = λ i. rw (occurrences-move_to_top o i rows) (board.unique i);
  contiguous = λ b s. elim (column_cases b s o.branch_id o.status_id) [
    | inl (same_b, same_s) ↦
        rw (same_b, same_s) (move_to_top-IsContiguous rows o row live (board.contiguous _ _))
    | inr other ↦ move_to_top-IsContiguous_other rows o row live b s other (board.contiguous b s)
  ];
}

-- A write that keeps the columns of a row.
pub update_row-IsBoard :
    (rows : List RepairOrder) (o : RepairOrder) (f : RepairOrder → RepairOrder)
    → IsBoard rows
    → IsRow rows o
    → ((r : RepairOrder) → (f r).id ≡ r.id)
    → (f o).sort ≡ o.sort
    → ((b s : Uuid) → in_column b s (f o) ≡ in_column b s o)
    → IsBoard (update_where (has_id o.id) f rows)
update_row-IsBoard rows o f board row keep sort same = record {
  unique = λ i. rw (occurrences-update_row o.id f keep i rows) (board.unique i);
  contiguous =
      λ b s. update_row-IsContiguous_same f rows o row b s sort (same b s) (board.contiguous b s);
}

-- `moveOrderToStatusAtTop`, then the write of the row at the top of the status.
pub move_order_to_status_at_top-IsBoard :
    (rows : List RepairOrder) (o : RepairOrder) (f : RepairOrder → RepairOrder) (target : Uuid)
    → IsBoard rows
    → IsRow rows o
    → in_column o.branch_id o.status_id o ≡ true
    → ((r : RepairOrder) → (f r).id ≡ r.id)
    → ((r : RepairOrder) (b s : Uuid)
        → in_column b s (f r) ≡ in_column b s (record r { status_id = target }))
    → ((r : RepairOrder) → (f r).sort ≡ 1)
    → IsBoard (update_where (has_id o.id) f (move_order_to_status_at_top o target rows))
unfolding move_order_to_status_at_top in_column
move_order_to_status_at_top-IsBoard rows o f target board row live keep lands top =
    elim (Bool-cases (o.status_id == target)) [
      | inl still ↦
          let home : o.status_id ≡ target = ground arith in
          rw still (
            update_row-IsBoard (move_to_top o rows) (record o { sort = 1 }) f
              (move_to_top-IsBoard rows o board row live) (topped-IsRow rows o row) keep (top _)
              (λ b s. lands _ b s ∙ ground arith))
      | inr moves ↦ rw moves (
          status_change-IsBoard rows board o row live f keep target (lands o _ _ ∙ ground arith)
            (some 1) (ground arith) (top o) (omega arith))
    ]
