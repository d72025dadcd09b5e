-- ===== src/Orders/Handlers/Contiguity.antt =====
-- The handlers keep every column of the board contiguous, and `take` does not.
use procare_backend.Common.{
  ℕ, Uuid, ◌+◌, ◌-◌, ◌≤◌, ◌<◌, ◌≡◌, refl, ◌∙◌, ◌≢◌, ◌⊎◌, inl, inr, true, ◌&&◌, some, List,
  update_where, ltb, leb, ◌==◌, arith, Bool-cases, none, [], ◌∷◌, find, Option-cases,
}
use procare_backend.Common.Result.{ok}
use procare_backend.Branches.{AdminPayload}
use procare_backend.Database.{Db}
use procare_backend.Orders.{RepairOrder, deleted, is_open}
use procare_backend.Orders.Board.{
  in_column, has_id, close_gap, shift_up, shift_down, handle_same_status_reordering, move_to_top,
}
use procare_backend.Orders.Board.Counting.{size, occurrences}
use procare_backend.Orders.Board.Rows.{occurrences-resort, occurrences-update_row}
use procare_backend.Orders.Board.Contiguity.{IsContiguous, IsRow, remove-IsContiguous}
use procare_backend.Orders.Board.Moves.{reorder-IsContiguous}
use procare_backend.Orders.Board.Columns.{
  IsBoard, find_open, find_open-IsRow, column_cases, resort-IsContiguous_other, resort-IsRow,
  update_row-IsContiguous_other,
}
use procare_backend.Orders.Handlers.{update_sort, update_sort_rows, soft_delete, move_to_top_by_id}
use procare_backend.Orders.Handlers.Effects.{orders-update_sort, orders-soft_delete}
use procare_backend.Orders.Board.StatusChange.{
  update_row-IsBoard, move_to_top-IsBoard, topped-IsRow,
}

-- The UPDATEs of each handler on a board, at a row of it.
module _ (rows : List RepairOrder) (board : IsBoard rows) (o : RepairOrder) (row : IsRow rows o)
    (live : in_column o.branch_id o.status_id o ≡ true) where
  remove-IsBoard :
      IsBoard (close_gap o (update_where (has_id o.id) (λ r. record r { status = deleted }) rows))
  unfolding close_gap in_column
  remove-IsBoard =
      let f = λ (r : RepairOrder). record r { status = deleted } in
      let p = λ (r : RepairOrder). in_column o.branch_id o.status_id r && ltb o.sort r.sort in
      let left = update_where (has_id o.id) f rows in
      record {
        unique = λ i.
            rw
              (occurrences-resort p (λ r. r.sort - 1) i left
                ∙ occurrences-update_row o.id f (λ r. refl) i rows)
              (board.unique i);
        contiguous = λ b s. elim (column_cases b s o.branch_id o.status_id) [
          | inl (same_b, same_s) ↦
              rw (same_b, same_s)
                (remove-IsContiguous rows o row live (board.contiguous _ _) f (ground arith))
          | inr other ↦
              resort-IsContiguous_other p (λ r. r.sort - 1) left b s (λ r h. ground arith)
                (update_row-IsContiguous_other f rows o row b s (ground arith) (ground arith)
                  (board.contiguous b s))
        ];
      }

  -- `handleSameStatusReordering` is one UPDATE of `sort` within the column of `o`.
  reordered-IsRow : (n : ℕ) → IsRow (handle_same_status_reordering o n rows) o
  unfolding handle_same_status_reordering shift_up shift_down
  reordered-IsRow n =
      let up = λ (r : RepairOrder).
        in_column o.branch_id o.status_id r && (leb n r.sort && ltb r.sort o.sort) in
      let down = λ (r : RepairOrder).
        in_column o.branch_id o.status_id r && (leb r.sort n && ltb o.sort r.sort) in
      elim (Bool-cases (ltb n o.sort)) [
        | inl e ↦ rw e (resort-IsRow up (λ r. r.sort + 1) rows o (ground arith) row)
        | inr e ↦ rw e (resort-IsRow down (λ r. r.sort - 1) rows o (ground arith) row)
      ]

  reordered-IsContiguous_other :
      (n : ℕ) (b s : Uuid)
      → (b ≢ o.branch_id) ⊎ (s ≢ o.status_id)
      → IsContiguous (handle_same_status_reordering o n rows) b s
  unfolding handle_same_status_reordering shift_up shift_down in_column
  reordered-IsContiguous_other n b s other =
      let up = λ (r : RepairOrder).
        in_column o.branch_id o.status_id r && (leb n r.sort && ltb r.sort o.sort) in
      let down = λ (r : RepairOrder).
        in_column o.branch_id o.status_id r && (leb r.sort n && ltb o.sort r.sort) in
      elim (Bool-cases (ltb n o.sort)) [
        | inl e ↦ rw e (
            resort-IsContiguous_other up (λ r. r.sort + 1) rows b s (λ r h. ground arith)
              (board.contiguous b s))
        | inr e ↦ rw e (
            resort-IsContiguous_other down (λ r. r.sort - 1) rows b s (λ r h. ground arith)
              (board.contiguous b s))
      ]

  occurrences-reordered :
      (n : ℕ) (i : Uuid)
      → occurrences i (handle_same_status_reordering o n rows) ≡ occurrences i rows
  unfolding handle_same_status_reordering shift_up shift_down
  occurrences-reordered n i = elim (Bool-cases (ltb n o.sort)) [
    | inl e ↦ rw e (occurrences-resort _ _ i rows)
    | inr e ↦ rw e (occurrences-resort _ _ i rows)
  ]

  update_sort_rows-IsBoard :
      (n : ℕ) → 0 < n → n ≤ size o.branch_id o.status_id rows → IsBoard (update_sort_rows o n rows)
  unfolding update_sort_rows in_column
  update_sort_rows-IsBoard n pos fits =
      let shifted = handle_same_status_reordering o n rows in
      record {
        unique = λ i.
            rw (occurrences-resort (has_id o.id) (λ r. n) i shifted ∙ occurrences-reordered n i)
              (board.unique i);
        contiguous = λ b s. elim (column_cases b s o.branch_id o.status_id) [
          | inl (same_b, same_s) ↦
              rw (same_b, same_s)
                (reorder-IsContiguous rows o row live (board.contiguous _ _) n pos fits)
          | inr other ↦
              update_row-IsContiguous_other (λ r. record r { sort = n }) shifted o
                (reordered-IsRow n) b s (ground arith) (ground arith)
                (reordered-IsContiguous_other n b s other)
        ];
      }

-- After a successful `updateSort` to a position inside the column, ids are unique and every column
-- of the board is contiguous, if they were so before.
pub update_sort-IsBoard :
    (db db' : Db) (o : RepairOrder) (order_id : Uuid) (new_sort : ℕ) (admin : AdminPayload)
    → IsBoard db.orders
    → find_open order_id db.orders ≡ some o
    → 0 < new_sort
    → new_sort ≤ size o.branch_id o.status_id db.orders
    → update_sort order_id new_sort admin db ≡ ok db'
    → IsBoard db'.orders
update_sort-IsBoard db db' o order_id new_sort admin board found pos fits e =
    let (row, same, live) = find_open-IsRow order_id db.orders o board found in
    rw (orders-update_sort db db' o order_id admin found new_sort e)
      (elim (Bool-cases (new_sort == o.sort)) [
        | inl still ↦ rw still board
        | inr moved ↦
            rw moved (update_sort_rows-IsBoard db.orders board o row live new_sort pos fits)
      ])

-- After a successful `softDelete`, ids are unique and every column of the board is contiguous, if
-- they were so before.
pub soft_delete-IsBoard :
    (db db' : Db) (o : RepairOrder) (order_id : Uuid) (admin : AdminPayload)
    → IsBoard db.orders
    → find_open order_id db.orders ≡ some o
    → soft_delete admin order_id db ≡ ok db'
    → IsBoard db'.orders
soft_delete-IsBoard db db' o order_id admin board found e =
    let (row, same, live) = find_open-IsRow order_id db.orders o board found in
    rw (orders-soft_delete db db' o order_id admin found e, ← same)
      (remove-IsBoard db.orders board o row live)

find-find_open :
    (id : Uuid) (rows : List RepairOrder) (o : RepairOrder)
    → find (has_id id) rows ≡ some o
    → is_open o.status ≡ true
    → find_open id rows ≡ some o
find-find_open id [] o e h = cc
find-find_open id (r ∷ rows) o e h = ground (arith, find-find_open id rows o)

-- The writes of `moveToTopById`, once the open row is found.
topped-IsBoard :
    (rows : List RepairOrder) (o : RepairOrder)
    → IsBoard rows
    → IsRow rows o
    → in_column o.branch_id o.status_id o ≡ true
    → IsBoard (
        update_where
          (has_id o.id)
          (λ r. record r {
            customer_no_answer_count = 0;
            last_customer_no_answer_at = none;
            customer_no_answer_due_at = none;
          })
          (move_to_top o rows))
unfolding in_column
topped-IsBoard rows o board row live =
    update_row-IsBoard (move_to_top o rows) (record o { sort = 1 }) _
      (move_to_top-IsBoard rows o board row live) (topped-IsRow rows o row) (λ r. refl) refl
      (λ b s. refl)

-- After `moveToTopById`, of any id, ids are unique and every column of the board is contiguous, if
-- they were so before.
pub move_to_top_by_id-IsBoard :
    (db : Db) (order_id : Uuid) → IsBoard db.orders → IsBoard (move_to_top_by_id order_id db).orders
unfolding move_to_top_by_id
move_to_top_by_id-IsBoard db order_id board =
    elim (Option-cases (find (has_id order_id) db.orders)) [
      | inl missing ↦ rw (missing, move_to_top_by_id) board
      | inr (o, found) ↦ elim (Bool-cases (is_open o.status)) [
        | inl opened ↦
            let (row, same, live) =
              find_open-IsRow order_id db.orders o board
                (find-find_open order_id db.orders o found opened) in
            rw (found, move_to_top_by_id, opened) (topped-IsBoard db.orders o board row live)
        | inr shut ↦ rw (found, move_to_top_by_id, shut) board
      ]
    ]
