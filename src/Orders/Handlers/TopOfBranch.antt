-- ===== src/Orders/Handlers/TopOfBranch.antt =====
-- `put_on_top_of_branch`, the writes that `take` and `restoreToMother` share, column by column.
use procare_backend.Common.{
  ℕ, Uuid, suc, ◌+◌, ◌<◌, ◌≡◌, refl, sym, ◌∙◌, ◌≢◌, ◌⊎◌, inl, true, List, update_where, ◌==◌,
  if◌then◌else◌, arith,
}
use procare_backend.Orders.{RepairOrder}
use procare_backend.Orders.Board.{in_column, has_id}
use procare_backend.Orders.Board.Counting.{here, in_group, at_sort, size, occurrences}
use procare_backend.Orders.Board.Rows.{at_sort-update_row, size-update_row, occurrences-update_row}
use procare_backend.Orders.Board.Contiguity.{
  IsContiguous, IsContiguousBut, IsRow, vacate-IsContiguous,
}
use procare_backend.Orders.Board.Top.{enter_top-IsContiguous}
use procare_backend.Orders.Board.Columns.{
  update_row-IsContiguous_other, move_to_top-IsContiguous_other, at_sort-move_to_top_other,
  size-move_to_top_other, rewritten-IsRow, occurrences-move_to_top,
}
use procare_backend.Orders.Handlers.{put_on_top_of_branch}

-- `put_on_top_of_branch` in another branch, once the old column does without `o`.
module _ (rows : List RepairOrder) (o : RepairOrder) (row : IsRow rows o)
    (live : in_column o.branch_id o.status_id o ≡ true) (branch_id : Uuid)
    (away : branch_id ≢ o.branch_id) where
  pub put_on_top-occurrences :
      (i : Uuid) → occurrences i (put_on_top_of_branch branch_id o rows) ≡ occurrences i rows
  unfolding put_on_top_of_branch
  put_on_top-occurrences i =
      occurrences-move_to_top _ i _ ∙ occurrences-update_row o.id _ (λ r. refl) i rows

  pub put_on_top-IsContiguous_target :
      IsContiguous rows branch_id o.status_id
      → size branch_id o.status_id rows < 999999
      → IsContiguous (put_on_top_of_branch branch_id o rows) branch_id o.status_id
  unfolding put_on_top_of_branch in_column
  put_on_top-IsContiguous_target c small =
      enter_top-IsContiguous rows o row (λ r. record r { branch_id = branch_id; sort = 999999 })
        (λ r. refl) (ground arith) (ground arith) c small (omega arith)

  pub put_on_top-IsContiguous_other :
      (b s : Uuid)
      → (b ≢ branch_id) ⊎ (s ≢ o.status_id)
      → (b ≢ o.branch_id) ⊎ (s ≢ o.status_id)
      → IsContiguous rows b s
      → IsContiguous (put_on_top_of_branch branch_id o rows) b s
  unfolding put_on_top_of_branch in_column
  put_on_top-IsContiguous_other b s not_target not_old c =
      let f = λ (r : RepairOrder). record r { branch_id = branch_id; sort = 999999 } in
      move_to_top-IsContiguous_other (update_where (has_id o.id) f rows) (f o)
        (rewritten-IsRow rows o f (λ r. refl) row) (ground arith) b s not_target
        (update_row-IsContiguous_other f rows o row b s (ground arith) (ground arith) c)

  pub put_on_top-IsContiguous_old :
      IsContiguousBut rows o
      → IsContiguous (put_on_top_of_branch branch_id o rows) o.branch_id o.status_id
  unfolding put_on_top_of_branch in_column
  put_on_top-IsContiguous_old c =
      let f = λ (r : RepairOrder). record r { branch_id = branch_id; sort = 999999 } in
      move_to_top-IsContiguous_other (update_where (has_id o.id) f rows) (f o)
        (rewritten-IsRow rows o f (λ r. refl) row) (ground arith) o.branch_id o.status_id
        (inl (λ e. away (sym e))) (vacate-IsContiguous rows o f row live (ground arith) c)

  -- The column that the order leaves, with no gap closed.
  pub put_on_top-at_sort :
      (k : ℕ)
      → at_sort o.branch_id o.status_id k (put_on_top_of_branch branch_id o rows)
          + (if k == o.sort then 1 else 0)
        ≡ at_sort o.branch_id o.status_id k rows
  unfolding put_on_top_of_branch in_column here
  put_on_top-at_sort k =
      let f = λ (r : RepairOrder). record r { branch_id = branch_id; sort = 999999 } in
      ground (
        arith,
        at_sort-move_to_top_other (update_where (has_id o.id) f rows) (f o)
            (rewritten-IsRow rows o f (λ r. refl) row) (ground arith) o.branch_id o.status_id
            (inl (λ e. away (sym e))) k,
        at_sort-update_row o.id f o.branch_id o.status_id k o rows row.once row.found,
      )

  pub put_on_top-size :
      suc (size o.branch_id o.status_id (put_on_top_of_branch branch_id o rows))
      ≡ size o.branch_id o.status_id rows
  unfolding put_on_top_of_branch in_column in_group
  put_on_top-size =
      let f = λ (r : RepairOrder). record r { branch_id = branch_id; sort = 999999 } in
      ground (
        arith,
        size-move_to_top_other (update_where (has_id o.id) f rows) (f o)
            (rewritten-IsRow rows o f (λ r. refl) row) (ground arith) o.branch_id o.status_id
            (inl (λ e. away (sym e))),
        size-update_row o.id f o.branch_id o.status_id o rows row.once row.found,
      )
