-- ===== src/Orders/Board/Counting.antt =====
-- How the UPDATEs of the board change the number of open orders at a position of a column.
use procare_backend.Common.{
  ℕ, Uuid, suc, ◌+◌, ◌≤◌, ◌<◌, ◌≡◌, refl, ◌&&◌, List, [], ◌∷◌, ltb, ◌==◌, if◌then◌else◌, arith,
}
use procare_backend.Orders.{RepairOrder}
use procare_backend.Orders.Board.{
  in_column, has_id, close_gap, make_room, shift_up, shift_down, push_down_above,
}

-- 1 for an open order of the column at this position, otherwise 0
unfoldable pub here : Uuid → Uuid → ℕ → RepairOrder → ℕ
unfolding in_column
here branch_id status_id k r = if in_column branch_id status_id r && r.sort == k then 1 else 0

unfoldable pub in_group : Uuid → Uuid → RepairOrder → ℕ
unfolding in_column
in_group branch_id status_id r = if in_column branch_id status_id r then 1 else 0

-- The number of open orders of a column at position `k`.
unfoldable pub at_sort : Uuid → Uuid → ℕ → List RepairOrder → ℕ
at_sort b s k [] = 0
at_sort b s k (r ∷ rows) = here b s k r + at_sort b s k rows

-- The number of open orders of a column.
unfoldable pub size : Uuid → Uuid → List RepairOrder → ℕ
size b s [] = 0
size b s (r ∷ rows) = in_group b s r + size b s rows

-- The number of rows with an id.
unfoldable pub occurrences : Uuid → List RepairOrder → ℕ
occurrences i [] = 0
occurrences i (r ∷ rows) = (if has_id i r then 1 else 0) + occurrences i rows

-- The effect of each shift on the number of orders at position `k` of its column.
module _ (o : RepairOrder) (k : ℕ) where
  pub at_sort-close_gap :
      (rows : List RepairOrder)
      → at_sort o.branch_id o.status_id k (close_gap o rows) ≡ (
          if ltb k o.sort
          then at_sort o.branch_id o.status_id k rows
          else if k == o.sort
          then at_sort o.branch_id o.status_id k rows + at_sort o.branch_id o.status_id (suc k) rows
          else at_sort o.branch_id o.status_id (suc k) rows)
  unfolding at_sort here close_gap
  at_sort-close_gap [] = ground arith
  at_sort-close_gap (r ∷ rows) = ground (arith, at_sort-close_gap rows)

  pub at_sort-shift_down :
      (to : ℕ) (rows : List RepairOrder)
      → o.sort ≤ to
      → at_sort o.branch_id o.status_id k (shift_down o to rows) ≡ (
          if ltb k o.sort
          then at_sort o.branch_id o.status_id k rows
          else if ltb to k
          then at_sort o.branch_id o.status_id k rows
          else (if k == o.sort then at_sort o.branch_id o.status_id k rows else 0)
            + (if k == to then 0 else at_sort o.branch_id o.status_id (suc k) rows))
  unfolding at_sort here shift_down
  at_sort-shift_down to [] h = ground arith
  at_sort-shift_down to (r ∷ rows) h = ground (arith, at_sort-shift_down to rows)

  pub at_sort-shift_up :
      (from : ℕ) (rows : List RepairOrder)
      → from ≤ o.sort
      → at_sort o.branch_id o.status_id (suc k) (shift_up o from rows) ≡ (
          if ltb k from
          then if suc k == from && ltb from o.sort
            then 0
            else at_sort o.branch_id o.status_id (suc k) rows
          else if ltb o.sort (suc k)
          then at_sort o.branch_id o.status_id (suc k) rows
          else (if suc k == o.sort then at_sort o.branch_id o.status_id (suc k) rows else 0)
            + at_sort o.branch_id o.status_id k rows)
  unfolding at_sort here shift_up
  at_sort-shift_up from [] h = ground arith
  at_sort-shift_up from (r ∷ rows) h = ground (arith, at_sort-shift_up from rows)

  pub at_sort-push_down_above :
      (rows : List RepairOrder)
      → at_sort o.branch_id o.status_id (suc k) (push_down_above o rows) ≡ (
          if ltb o.sort (suc k)
          then at_sort o.branch_id o.status_id (suc k) rows
          else (if suc k == o.sort then at_sort o.branch_id o.status_id (suc k) rows else 0)
            + at_sort o.branch_id o.status_id k rows)
  unfolding at_sort here push_down_above
  at_sort-push_down_above [] = ground arith
  at_sort-push_down_above (r ∷ rows) = ground (arith, at_sort-push_down_above rows)

-- A shift away from the top leaves position 0 as it is.
module _ (o : RepairOrder) where
  pub at_sort-shift_up_zero :
      (from : ℕ) (rows : List RepairOrder)
      → 0 < from
      → at_sort o.branch_id o.status_id 0 (shift_up o from rows)
        ≡ at_sort o.branch_id o.status_id 0 rows
  unfolding at_sort here shift_up
  at_sort-shift_up_zero from [] h = refl
  at_sort-shift_up_zero from (r ∷ rows) h = ground (arith, at_sort-shift_up_zero from rows)

  pub at_sort-push_down_above_zero :
      (rows : List RepairOrder)
      → 0 < o.sort
      → at_sort o.branch_id o.status_id 0 (push_down_above o rows) ≡ 0
  unfolding at_sort here push_down_above
  at_sort-push_down_above_zero [] h = refl
  at_sort-push_down_above_zero (r ∷ rows) h = ground (arith, at_sort-push_down_above_zero rows)

module _ (b s : Uuid) where
  pub at_sort-make_room_zero :
      (target : ℕ) (rows : List RepairOrder)
      → 0 < target
      → at_sort b s 0 (make_room b s target rows) ≡ at_sort b s 0 rows
  unfolding at_sort here make_room
  at_sort-make_room_zero target [] h = refl
  at_sort-make_room_zero target (r ∷ rows) h = ground (arith, at_sort-make_room_zero target rows)

  pub at_sort-make_room :
      (target k : ℕ) (rows : List RepairOrder)
      → at_sort b s (suc k) (make_room b s target rows) ≡ (
          if ltb (suc k) target
          then at_sort b s (suc k) rows
          else if suc k == target
          then 0
          else at_sort b s k rows)
  unfolding at_sort here make_room
  at_sort-make_room target k [] = ground arith
  at_sort-make_room target k (r ∷ rows) = ground (arith, at_sort-make_room target k rows)
