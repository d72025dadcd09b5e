-- ===== src/Orders/Board/Top.antt =====
-- `moveToTop` keeps a column contiguous, for a row of it and for a row that just came in.
use procare_backend.Common.{
  ℕ, zero, suc, ◌+◌, ◌-◌, ◌<◌, ◌≡◌, ◌∙◌, inl, inr, true, false, ◌&&◌, List, update_where, ltb, ◌==◌,
  if◌then◌else◌, arith, Bool-cases,
}
use procare_backend.Orders.{RepairOrder}
use procare_backend.Orders.Board.{in_column, has_id, push_down_above, move_to_top}
use procare_backend.Orders.Board.Counting.{
  here, in_group, at_sort, size, occurrences, at_sort-push_down_above, at_sort-push_down_above_zero,
}
use procare_backend.Orders.Board.Contiguity.{IsContiguous, IsRow, sort_bounds}
use procare_backend.Orders.Board.Rows.{
  size-resort, occurrences-resort, find-resort, at_sort-update_row, size-update_row,
  occurrences-update_row, find-update_row,
}

-- A row is moved to the top of its column, which need not be contiguous with it.
module _ (rows : List RepairOrder) (o : RepairOrder) (row : IsRow rows o)
    (live : in_column o.branch_id o.status_id o ≡ true) where
  -- The number of orders at each position once the rows above `o` have made room.
  topped : ℕ → ℕ → ℕ
  topped k before =
      (if k == 0 then 0 else if k == 1 then 1 else 0)
      + (if ltb o.sort k
          then at_sort o.branch_id o.status_id k rows
          else if k == o.sort
          then at_sort o.branch_id o.status_id k rows + before - 1
          else before)

  at_sort-move_to_top_zero : 1 < o.sort → at_sort o.branch_id o.status_id 0 (move_to_top o rows) ≡ 0
  unfolding move_to_top push_down_above here
  at_sort-move_to_top_zero above =
      let b = o.branch_id in
      let s = o.status_id in
      let up = λ (r : RepairOrder). in_column b s r && ltb r.sort o.sort in
      let pushed = push_down_above o rows in
      let f1 = find-resort up (λ r. r.sort + 1) o.id o rows (ground arith) row.found in
      let once : occurrences o.id pushed ≡ 1 =
        occurrences-resort up (λ r. r.sort + 1) o.id rows ∙ row.once in
      let top = λ (r : RepairOrder). record r { sort = 1 } in
      ground (
        arith,
        at_sort-update_row o.id top b s 0 o pushed once f1,
        at_sort-push_down_above_zero o rows,
      )

  at_sort-move_to_top :
      (k : ℕ)
      → 1 < o.sort
      → at_sort o.branch_id o.status_id (suc k) (move_to_top o rows)
        ≡ topped (suc k) (at_sort o.branch_id o.status_id k rows)
  unfolding move_to_top push_down_above here topped
  at_sort-move_to_top k above =
      let b = o.branch_id in
      let s = o.status_id in
      let up = λ (r : RepairOrder). in_column b s r && ltb r.sort o.sort in
      let pushed = push_down_above o rows in
      let f1 = find-resort up (λ r. r.sort + 1) o.id o rows (ground arith) row.found in
      let once : occurrences o.id pushed ≡ 1 =
        occurrences-resort up (λ r. r.sort + 1) o.id rows ∙ row.once in
      let top = λ (r : RepairOrder). record r { sort = 1 } in
      ground (
        arith,
        at_sort-update_row o.id top b s (suc k) o pushed once f1,
        at_sort-push_down_above o k rows,
      )

  size-move_to_top :
      size o.branch_id o.status_id (move_to_top o rows) ≡ size o.branch_id o.status_id rows
  unfolding move_to_top push_down_above in_group in_column
  size-move_to_top =
      let b = o.branch_id in
      let s = o.status_id in
      let up = λ (r : RepairOrder). in_column b s r && ltb r.sort o.sort in
      let pushed = push_down_above o rows in
      let mine = λ (r : RepairOrder). has_id o.id r in
      ground
        (arith, size-resort mine (λ r. 1) b s pushed, size-resort up (λ r. r.sort + 1) b s rows)

-- A row enters a column behind all of its rows, and is then moved to the top.
module _ (rows : List RepairOrder) (o : RepairOrder) (row : IsRow rows o)
    (f : RepairOrder → RepairOrder) (keep : (r : RepairOrder) → (f r).id ≡ r.id)
    (outside : in_column (f o).branch_id (f o).status_id o ≡ false)
    (inside : in_column (f o).branch_id (f o).status_id (f o) ≡ true)
    (c : IsContiguous rows (f o).branch_id (f o).status_id) where
  pub moved-IsRow : IsRow (update_where (has_id o.id) f rows) (f o)
  moved-IsRow = record {
    once = rw (keep o) (occurrences-update_row o.id f keep o.id rows ∙ row.once);
    found = simp (keep o) (find-update_row o.id f keep o rows row.found);
  }

  at_sort-moved_zero :
      0 < (f o).sort
      → at_sort (f o).branch_id (f o).status_id 0 (update_where (has_id o.id) f rows) ≡ 0
  unfolding here
  at_sort-moved_zero pos =
      let b = (f o).branch_id in
      let s = (f o).status_id in
      ground (arith, at_sort-update_row o.id f b s 0 o rows row.once row.found, c.none_at_zero)

  at_sort-moved :
      (k : ℕ)
      → at_sort (f o).branch_id (f o).status_id (suc k) (update_where (has_id o.id) f rows)
        ≡ (if ltb k (size (f o).branch_id (f o).status_id rows) then 1 else 0)
          + (if suc k == (f o).sort then 1 else 0)
  unfolding here
  at_sort-moved k =
      let b = (f o).branch_id in
      let s = (f o).status_id in
      ground (arith, at_sort-update_row o.id f b s (suc k) o rows row.once row.found, c.one_each k)

  size-moved :
      size (f o).branch_id (f o).status_id (update_where (has_id o.id) f rows)
      ≡ suc (size (f o).branch_id (f o).status_id rows)
  unfolding in_group
  size-moved =
      let b = (f o).branch_id in
      let s = (f o).status_id in
      ground (arith, size-update_row o.id f b s o rows row.once row.found)

  pub enter_top-IsContiguous :
      size (f o).branch_id (f o).status_id rows < (f o).sort
      → 1 < (f o).sort
      → IsContiguous
          (move_to_top (f o) (update_where (has_id o.id) f rows))
          (f o).branch_id
          (f o).status_id
  unfolding topped
  enter_top-IsContiguous far pos =
      let u = f o in
      let b = u.branch_id in
      let s = u.status_id in
      let moved = update_where (has_id o.id) f rows in
      let n = size-move_to_top moved u moved-IsRow inside ∙ size-moved in
      record {
        none_at_zero = at_sort-move_to_top_zero moved u moved-IsRow inside pos;
        one_each = λ k.
            elim k
              as (λ k.
                at_sort b s (suc k) (move_to_top u moved)
                ≡ (if ltb k (size b s (move_to_top u moved)) then 1 else 0)) [
                  | zero ↦ ground (
                    arith,
                    n,
                    at_sort-moved_zero (omega arith),
                    at_sort-moved 0,
                    at_sort-move_to_top moved u moved-IsRow inside 0 pos,
                  )
                  | suc k ↦ ground (
                    arith,
                    n,
                    at_sort-moved k,
                    at_sort-moved (suc k),
                    at_sort-move_to_top moved u moved-IsRow inside (suc k) pos,
                  )
                ];
      }

-- A row moves within its column.
module _ (rows : List RepairOrder) (o : RepairOrder) (row : IsRow rows o)
    (live : in_column o.branch_id o.status_id o ≡ true)
    (c : IsContiguous rows o.branch_id o.status_id) where
  pub move_to_top-IsContiguous : IsContiguous (move_to_top o rows) o.branch_id o.status_id
  unfolding topped
  move_to_top-IsContiguous = elim (Bool-cases (o.sort == 1)) [
    | inl first ↦ unfold move_to_top in rw first c
    | inr later ↦
        let bounds = sort_bounds rows row live c in
        let above : 1 < o.sort = ground arith in
        let n = size-move_to_top rows o row live in
        record {
          none_at_zero = at_sort-move_to_top_zero rows o row live above;
          one_each = λ k.
              elim k
                as (λ k.
                  at_sort o.branch_id o.status_id (suc k) (move_to_top o rows)
                  ≡ (if ltb k (size o.branch_id o.status_id (move_to_top o rows)) then 1 else 0)) [
                    | zero ↦ ground (
                      arith,
                      n,
                      bounds,
                      at_sort-move_to_top rows o row live 0 above,
                      c.none_at_zero,
                      c.one_each 0,
                    )
                    | suc k ↦ ground (
                      arith,
                      n,
                      bounds,
                      at_sort-move_to_top rows o row live (suc k) above,
                      c.one_each k,
                      c.one_each (suc k),
                    )
                  ];
        }
  ]
