-- ===== src/Orders/Board/Contiguity.antt =====
-- The order of the board: in every column the open orders stand at positions 1, 2, … with no hole
-- and no position taken twice. What the row operations make of such a table.
use procare_backend.Common.{
  ℕ, Uuid, suc, ◌+◌, ◌-◌, ◌≤◌, ◌<◌, ◌≡◌, true, false, ◌&&◌, some, List, [], ◌∷◌, update_where, find,
  ltb, ◌==◌, if◌then◌else◌, arith,
}
use procare_backend.Orders.{RepairOrder}
use procare_backend.Orders.Board.{in_column, has_id, close_gap}
use procare_backend.Orders.Board.Counting.{
  here, in_group, at_sort, size, occurrences, at_sort-close_gap,
}
use procare_backend.Orders.Board.Rows.{size-resort, at_sort-update_row, size-update_row}

-- Exactly one open order at each position from 1 to the size of the column, and none elsewhere.
pub record IsContiguous (rows : List RepairOrder) (b s : Uuid) : Type 0 where
  pub none_at_zero : at_sort b s 0 rows ≡ 0
  pub one_each : (k : ℕ) → at_sort b s (suc k) rows ≡ (if ltb k (size b s rows) then 1 else 0)

-- A row of the table, under the table's primary key.
pub record IsRow (rows : List RepairOrder) (o : RepairOrder) : Type 0 where
  pub once : occurrences o.id rows ≡ 1
  pub found : find (has_id o.id) rows ≡ some o

-- An open order of a contiguous column stands between 1 and the size of the column.
module _ {o : RepairOrder} where
  at_sort_pos :
      (rows : List RepairOrder)
      → in_column o.branch_id o.status_id o ≡ true
      → find (has_id o.id) rows ≡ some o
      → 0 < at_sort o.branch_id o.status_id o.sort rows
  unfolding at_sort here
  at_sort_pos [] h e = cc
  at_sort_pos (r ∷ rows) h e = ground (arith, at_sort_pos rows h)

  pub sort_bounds :
      (rows : List RepairOrder)
      → IsRow rows o
      → in_column o.branch_id o.status_id o ≡ true
      → IsContiguous rows o.branch_id o.status_id
      → (0 < o.sort) × (o.sort ≤ size o.branch_id o.status_id rows)
  sort_bounds rows row h c =
      ground (arith, at_sort_pos rows h row.found, c.none_at_zero, c.one_each (o.sort - 1))

module _ (rows : List RepairOrder) (o : RepairOrder) (row : IsRow rows o)
    (live : in_column o.branch_id o.status_id o ≡ true)
    (c : IsContiguous rows o.branch_id o.status_id) where
  -- The row goes away, then the gap is closed.
  pub remove-IsContiguous :
      (f : RepairOrder → RepairOrder)
      → in_column o.branch_id o.status_id (f o) ≡ false
      → IsContiguous (close_gap o (update_where (has_id o.id) f rows)) o.branch_id o.status_id
  unfolding close_gap here in_group
  remove-IsContiguous f gone =
      let b = o.branch_id in
      let s = o.status_id in
      let left = update_where (has_id o.id) f rows in
      let bounds = sort_bounds rows row live c in
      let n = size-update_row o.id f b s o rows row.once row.found in
      let at = λ (k : ℕ). at_sort-update_row o.id f b s k o rows row.once row.found in
      let same =
        size-resort (λ r. in_column b s r && ltb o.sort r.sort) (λ r. r.sort - 1) b s left in
      record {
        none_at_zero = ground (arith, bounds, at_sort-close_gap o 0 left, at 0, c.none_at_zero);
        one_each = λ k. ground (
          arith,
          bounds,
          n,
          same,
          at_sort-close_gap o (suc k) left,
          at (suc k),
          at (suc (suc k)),
          c.one_each k,
          c.one_each (suc k),
        );
      }

-- The column of `o` is contiguous if `o` is left out of account: `o` still stands in it, at its
-- old position.
pub record IsContiguousBut (rows : List RepairOrder) (o : RepairOrder) : Type 0 where
  pub positive : 0 < o.sort
  pub none_at_zero : at_sort o.branch_id o.status_id 0 rows ≡ 0
  pub one_each :
      (k : ℕ)
      → at_sort o.branch_id o.status_id (suc k) rows
        ≡ (if ltb (suc k) (size o.branch_id o.status_id rows) then 1 else 0)
          + (if suc k == o.sort then 1 else 0)

pub close_gap-IsContiguousBut :
    (rows : List RepairOrder) (o : RepairOrder)
    → IsRow rows o
    → in_column o.branch_id o.status_id o ≡ true
    → IsContiguous rows o.branch_id o.status_id
    → IsContiguousBut (close_gap o rows) o
unfolding close_gap
close_gap-IsContiguousBut rows o row live c =
    let b = o.branch_id in
    let s = o.status_id in
    let bounds = sort_bounds rows row live c in
    let n = size-resort (λ r. in_column b s r && ltb o.sort r.sort) (λ r. r.sort - 1) b s rows in
    record {
      positive = bounds.0;
      none_at_zero = ground (arith, bounds, at_sort-close_gap o 0 rows, c.none_at_zero);
      one_each = λ k.
          ground
            (arith, bounds, n, at_sort-close_gap o (suc k) rows, c.one_each k, c.one_each (suc k));
    }

-- When `o` goes, its column is contiguous.
pub vacate-IsContiguous :
    (rows : List RepairOrder) (o : RepairOrder) (f : RepairOrder → RepairOrder)
    → IsRow rows o
    → in_column o.branch_id o.status_id o ≡ true
    → in_column o.branch_id o.status_id (f o) ≡ false
    → IsContiguousBut rows o
    → IsContiguous (update_where (has_id o.id) f rows) o.branch_id o.status_id
unfolding here in_group
vacate-IsContiguous rows o f row live gone c =
    let b = o.branch_id in
    let s = o.status_id in
    let at = λ (k : ℕ). at_sort-update_row o.id f b s k o rows row.once row.found in
    let n = size-update_row o.id f b s o rows row.once row.found in
    record {
      none_at_zero = ground (arith, c.positive, at 0, c.none_at_zero);
      one_each = λ k. ground (arith, n, at (suc k), c.one_each k);
    }
