-- ===== src/Orders/Board/Rows.antt =====
-- What the UPDATEs of the board leave alone, and the effect of an UPDATE of one row by its id.
use procare_backend.Common.{
  ℕ, Uuid, ◌+◌, ◌≡◌, refl, Bool, true, false, some, List, [], ◌∷◌, update_where, find, arith,
}
use procare_backend.Orders.{RepairOrder}
use procare_backend.Orders.Board.{in_column, has_id}
use procare_backend.Orders.Board.Counting.{here, in_group, at_sort, size, occurrences}

-- An UPDATE that only writes `sort`.
module _ (p : RepairOrder → Bool) (g : RepairOrder → ℕ) where
  abbrev resort : List RepairOrder → List RepairOrder
  resort = update_where p (λ r. record r { sort = g r })

  pub size-resort : (b s : Uuid) (rows : List RepairOrder) → size b s (resort rows) ≡ size b s rows
  unfolding size in_group
  size-resort b s [] = refl
  size-resort b s (r ∷ rows) = ground (arith, size-resort b s rows)

  pub occurrences-resort :
      (i : Uuid) (rows : List RepairOrder) → occurrences i (resort rows) ≡ occurrences i rows
  unfolding occurrences
  occurrences-resort i [] = refl
  occurrences-resort i (r ∷ rows) = ground (arith, occurrences-resort i rows)

  -- Columns that the test does not reach.
  pub at_sort-resort_other :
      (b s : Uuid) (k : ℕ) (rows : List RepairOrder)
      → ((r : RepairOrder) → in_column b s r ≡ true → p r ≡ false)
      → at_sort b s k (resort rows) ≡ at_sort b s k rows
  unfolding at_sort here
  at_sort-resort_other b s k [] h = refl
  at_sort-resort_other b s k (r ∷ rows) h = ground (arith, at_sort-resort_other b s k rows h, h r)

  -- A row that the test does not reach is found unchanged.
  pub find-resort :
      (i : Uuid) (o : RepairOrder) (rows : List RepairOrder)
      → p o ≡ false
      → find (has_id i) rows ≡ some o
      → find (has_id i) (resort rows) ≡ some o
  find-resort i o [] h e = cc
  find-resort i o (r ∷ rows) h e = ground (arith, find-resort i o rows h)

-- An UPDATE of one row.
module _ (i : Uuid) (f : RepairOrder → RepairOrder) where
  abbrev update_row : List RepairOrder → List RepairOrder
  update_row = update_where (has_id i) f

  at_sort-update_row_absent :
      (b s : Uuid) (k : ℕ) (rows : List RepairOrder)
      → occurrences i rows ≡ 0
      → at_sort b s k (update_row rows) ≡ at_sort b s k rows
  unfolding at_sort occurrences
  at_sort-update_row_absent b s k [] h = refl
  at_sort-update_row_absent b s k (r ∷ rows) h =
      ground (arith, at_sort-update_row_absent b s k rows)

  size-update_row_absent :
      (b s : Uuid) (rows : List RepairOrder)
      → occurrences i rows ≡ 0
      → size b s (update_row rows) ≡ size b s rows
  unfolding size occurrences
  size-update_row_absent b s [] h = refl
  size-update_row_absent b s (r ∷ rows) h = ground (arith, size-update_row_absent b s rows)

  -- The row leaves its old place and takes its new one; nothing else moves.
  pub at_sort-update_row :
      (b s : Uuid) (k : ℕ) (o : RepairOrder) (rows : List RepairOrder)
      → occurrences i rows ≡ 1
      → find (has_id i) rows ≡ some o
      → at_sort b s k (update_row rows) + here b s k o ≡ at_sort b s k rows + here b s k (f o)
  unfolding at_sort occurrences
  at_sort-update_row b s k o [] n e = cc
  at_sort-update_row b s k o (r ∷ rows) n e =
      ground (arith, at_sort-update_row b s k o rows, at_sort-update_row_absent b s k rows)

  pub size-update_row :
      (b s : Uuid) (o : RepairOrder) (rows : List RepairOrder)
      → occurrences i rows ≡ 1
      → find (has_id i) rows ≡ some o
      → size b s (update_row rows) + in_group b s o ≡ size b s rows + in_group b s (f o)
  unfolding size occurrences
  size-update_row b s o [] n e = cc
  size-update_row b s o (r ∷ rows) n e =
      ground (arith, size-update_row b s o rows, size-update_row_absent b s rows)

  pub occurrences-update_row :
      ((r : RepairOrder) → (f r).id ≡ r.id)
      → (j : Uuid) (rows : List RepairOrder) → occurrences j (update_row rows) ≡ occurrences j rows
  unfolding occurrences
  occurrences-update_row keep j [] = refl
  occurrences-update_row keep j (r ∷ rows) =
      ground (arith, keep r, occurrences-update_row keep j rows)

  pub find-update_row :
      ((r : RepairOrder) → (f r).id ≡ r.id)
      → (o : RepairOrder) (rows : List RepairOrder) → find (has_id i) rows ≡ some o
      → find (has_id i) (update_row rows) ≡ some (f o)
  find-update_row keep o [] e = cc
  find-update_row keep o (r ∷ rows) e = ground (arith, keep r, find-update_row keep o rows)
