-- ===== src/Orders/Board/Moves.antt =====
-- A row that enters a column at a position, or moves within it, keeps it contiguous.
use procare_backend.Common.{
  ℕ, Uuid, zero, suc, ◌+◌, ◌-◌, ◌≤◌, ◌<◌, ◌≡◌, ◌∙◌, inl, inr, true, false, ◌&&◌, List, update_where,
  ltb, leb, if◌then◌else◌, arith, Bool-cases,
}
use procare_backend.Orders.{RepairOrder}
use procare_backend.Orders.Board.{
  in_column, has_id, make_room, shift_up, shift_down, handle_same_status_reordering,
}
use procare_backend.Orders.Board.Counting.{
  here, in_group, at_sort, size, occurrences, at_sort-shift_down, at_sort-shift_up,
  at_sort-shift_up_zero, at_sort-make_room_zero, at_sort-make_room,
}
use procare_backend.Orders.Board.Contiguity.{IsContiguous, IsRow, sort_bounds}
use procare_backend.Orders.Board.Rows.{
  size-resort, occurrences-resort, find-resort, at_sort-update_row, size-update_row,
}

-- A row enters a column at a position where room was made for it.
module _ (rows : List RepairOrder) (o : RepairOrder) (row : IsRow rows o) (b s : Uuid)
    (outside : in_column b s o ≡ false) (c : IsContiguous rows b s) where
  pub enter-IsContiguous :
      (f : RepairOrder → RepairOrder) (t : ℕ)
      → in_column b s (f o) ≡ true
      → (f o).sort ≡ t
      → 0 < t
      → t ≤ size b s rows + 1
      → IsContiguous (update_where (has_id o.id) f (make_room b s t rows)) b s
  unfolding make_room here in_group
  enter-IsContiguous f t inside at_t pos fits =
      let down = λ (r : RepairOrder). in_column b s r && leb t r.sort in
      let roomy = make_room b s t rows in
      let f1 = find-resort down (λ r. r.sort + 1) o.id o rows (ground arith) row.found in
      let once : occurrences o.id roomy ≡ 1 =
        occurrences-resort down (λ r. r.sort + 1) o.id rows ∙ row.once in
      let at = λ (k : ℕ). at_sort-update_row o.id f b s k o roomy once f1 in
      let n = size-update_row o.id f b s o roomy once f1 in
      let n1 = size-resort down (λ r. r.sort + 1) b s rows in
      record {
        none_at_zero = ground (arith, at 0, at_sort-make_room_zero b s t rows pos, c.none_at_zero);
        one_each = λ k.
            elim k
              as (λ k.
                at_sort b s (suc k) (update_where (has_id o.id) f roomy)
                ≡ (if ltb k (size b s (update_where (has_id o.id) f roomy)) then 1 else 0)) [
                  | zero ↦ ground (
                    arith,
                    n,
                    n1,
                    at 1,
                    at_sort-make_room b s t 0 rows,
                    c.none_at_zero,
                    c.one_each 0,
                  )
                  | suc k ↦ ground (
                    arith,
                    n,
                    n1,
                    at (suc (suc k)),
                    at_sort-make_room b s t (suc k) rows,
                    c.one_each k,
                    c.one_each (suc k),
                  )
                ];
      }

-- A row moves within its column.
module _ (rows : List RepairOrder) (o : RepairOrder) (row : IsRow rows o)
    (live : in_column o.branch_id o.status_id o ≡ true)
    (c : IsContiguous rows o.branch_id o.status_id) where
  reorder_up :
      (n : ℕ)
      → 0 < n
      → ltb n o.sort ≡ true
      → IsContiguous
          (update_where (has_id o.id) (λ r. record r { sort = n }) (shift_up o n rows))
          o.branch_id
          o.status_id
  unfolding shift_up here in_group in_column
  reorder_up n pos up =
      let b = o.branch_id in
      let s = o.status_id in
      let p = λ (r : RepairOrder). in_column b s r && (leb n r.sort && ltb r.sort o.sort) in
      let shifted = shift_up o n rows in
      let f1 = find-resort p (λ r. r.sort + 1) o.id o rows (ground arith) row.found in
      let once : occurrences o.id shifted ≡ 1 =
        occurrences-resort p (λ r. r.sort + 1) o.id rows ∙ row.once in
      let at =
        λ (k : ℕ). at_sort-update_row o.id (λ r. record r { sort = n }) b s k o shifted once f1 in
      let size1 = size-resort (has_id o.id) (λ r. n) b s shifted in
      let size2 = size-resort p (λ r. r.sort + 1) b s rows in
      let bounds = sort_bounds rows row live c in
      record {
        none_at_zero = ground (arith, bounds, at 0, at_sort-shift_up_zero o n rows, c.none_at_zero);
        one_each = λ k.
            elim k
              as (λ k.
                at_sort b s (suc k)
                  (update_where (has_id o.id) (λ r. record r { sort = n }) shifted)
                ≡ (if ltb k
                      (size b s (update_where (has_id o.id) (λ r. record r { sort = n }) shifted))
                    then 1
                    else 0)) [
                      | zero ↦ ground (
                        arith,
                        bounds,
                        size1,
                        size2,
                        at 1,
                        at_sort-shift_up o 0 n rows,
                        c.none_at_zero,
                        c.one_each 0,
                      )
                      | suc k ↦ ground (
                        arith,
                        bounds,
                        size1,
                        size2,
                        at (suc (suc k)),
                        at_sort-shift_up o (suc k) n rows,
                        c.one_each k,
                        c.one_each (suc k),
                      )
                    ];
      }

  reorder_down :
      (n : ℕ)
      → ltb n o.sort ≡ false
      → n ≤ size o.branch_id o.status_id rows
      → IsContiguous
          (update_where (has_id o.id) (λ r. record r { sort = n }) (shift_down o n rows))
          o.branch_id
          o.status_id
  unfolding shift_down here in_group in_column
  reorder_down n down fits =
      let b = o.branch_id in
      let s = o.status_id in
      let p = λ (r : RepairOrder). in_column b s r && (leb r.sort n && ltb o.sort r.sort) in
      let shifted = shift_down o n rows in
      let f1 = find-resort p (λ r. r.sort - 1) o.id o rows (ground arith) row.found in
      let once : occurrences o.id shifted ≡ 1 =
        occurrences-resort p (λ r. r.sort - 1) o.id rows ∙ row.once in
      let at =
        λ (k : ℕ). at_sort-update_row o.id (λ r. record r { sort = n }) b s k o shifted once f1 in
      let size1 = size-resort (has_id o.id) (λ r. n) b s shifted in
      let size2 = size-resort p (λ r. r.sort - 1) b s rows in
      let bounds = sort_bounds rows row live c in
      record {
        none_at_zero = ground (arith, bounds, at 0, at_sort-shift_down o 0 n rows, c.none_at_zero);
        one_each = λ k. ground (
          arith,
          bounds,
          size1,
          size2,
          at (suc k),
          at_sort-shift_down o (suc k) n rows,
          c.one_each k,
          c.one_each (suc k),
        );
      }

  pub reorder-IsContiguous :
      (n : ℕ)
      → 0 < n
      → n ≤ size o.branch_id o.status_id rows
      → IsContiguous
          (update_where
            (has_id o.id)
            (λ r. record r { sort = n })
            (handle_same_status_reordering o n rows))
          o.branch_id
          o.status_id
  unfolding handle_same_status_reordering
  reorder-IsContiguous n pos fits = elim (Bool-cases (ltb n o.sort)) [
    | inl up ↦ rw up (reorder_up n pos up)
    | inr down ↦ rw down (reorder_down n down fits)
  ]
